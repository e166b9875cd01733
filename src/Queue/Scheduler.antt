-- ===== src/Queue/Scheduler.antt =====
-- pkg/queue/postgres/scheduler.go: adding a schedule, and making sure that there is one.
pub mod Laws
use go_base.Base.{
  ℕ, Bool, true, false, ◌&&◌, ◌||◌, Option, none, some, List, [], ◌∷◌, ◌++◌, String, str_eq, Result,
  ok, err, ◌>>=◌, ◌>>◌, unless, if◌then◌else◌,
}
use go_base.Queue.{
  Error, task_queue_not_specified, task_type_not_specified, not_scheduled, References,
  TaskScheduleRequest,
}
use go_base.Queue.Database.{Sql, Tx, ScheduleRow, Database}
use go_base.Queue.Queuer.{default_spec}

-- What is not in this repository: the value that a `jsonb` column keeps of a text, and the parser of
-- `validation.CronTab`, with its error.
pub record Formats : Type 0 where
  pub jsonb : String → String
  pub cron_tab : String → Option Error

pub record ScheduleEnv : Type 0 where
  pub now : ℕ
  pub uuid : String
  pub insert : Option Error

-- "empty schedule means a one-time job"
abbrev pub check_cron : Formats → String → Result Error (Unit {0})
check_cron f cron = if str_eq cron "" then ok tt else unless (f.cron_tab cron) tt

pub new_schedule : Formats → ScheduleEnv → TaskScheduleRequest → ScheduleRow
new_schedule f env req = record {
  schedule_id = env.uuid;
  task_queue = req.queue;
  task_type = req.type;
  task_spec = f.jsonb (default_spec req.spec);
  cron_schedule = req.cron_schedule;
  next_execution_time = some env.now;
  references = req.references;
}

-- The two checks that every operation of the scheduler begins with.
abbrev pub check_request : TaskScheduleRequest → Result Error (Unit {0})
check_request req =
    if str_eq req.queue ""
    then err task_queue_not_specified
    else if str_eq req.type ""
    then err task_type_not_specified
    else ok tt

unfoldable pub schedule :
    Formats → ScheduleEnv → TaskScheduleRequest → Database → Result Error Database
unfolding new_schedule
schedule f env req db = do
  check_request req
  check_cron f req.cron_schedule
  unless env.insert (record db { schedules = db.schedules ++ new_schedule f env req ∷ [] })

-- A reference column of a row; a column that was not set is NULL.
abbrev pub column : String → References → Option String
column k [] = none
column k ((j, v) ∷ refs) = if str_eq j k then some v else column k refs

abbrev pub holds : Option String → String → Bool
holds none v = false
holds (some w) v = str_eq w v

-- The WHERE clauses that the loop over the references adds.
abbrev pub references_match : References → References → Bool
references_match [] row = true
references_match ((k, v) ∷ refs) row = holds (column k row) v && references_match refs row

-- `task_spec = $1`: the nil slice is passed as NULL, which equals nothing.
abbrev pub spec_matches : Formats → Option String → String → Bool
spec_matches f none spec = false
spec_matches f (some s) spec = str_eq spec (f.jsonb s)

pub matches : Sql → Formats → TaskScheduleRequest → ScheduleRow → Bool
matches sql f req row =
    str_eq (sql.fold row.task_queue) (sql.fold req.queue)
    && (str_eq (sql.fold row.task_type) (sql.fold req.type)
        && (spec_matches f req.spec row.task_spec
            && references_match req.references row.references))

abbrev pub any {ℓ} : {A : Type ℓ} → (A → Bool) → List A → Bool
any p [] = false
any p (x ∷ xs) = p x || any p xs

unfoldable pub ensure_schedule :
    Sql → Formats → Option Error → TaskScheduleRequest → Database → Result Error (Unit {0})
unfolding matches
ensure_schedule sql f fault req db = do
  check_request req
  exists ← unless fault (any (matches sql f req) db.schedules)
  if exists then ok tt else err not_scheduled

pub record AssertEnv : Type 0 where
  pub tx : Tx
  pub lock : Option Error
  pub select : Option Error
  pub schedule : ScheduleEnv

-- `ErrNotScheduled` alone leads to a new schedule.
abbrev pub when_missing :
    Result Error (Unit {0}) → Database → Result Error Database → Result Error Database
when_missing (ok u) db add = ok db
when_missing (err not_scheduled) db add = add
when_missing (err e) db add = err e

pub assert_body : Sql → Formats → AssertEnv → TaskScheduleRequest → Database → Result Error Database
assert_body sql f env req db = do
  unless env.lock tt
  when_missing (ensure_schedule sql f env.select req db) db (schedule f env.schedule req db)

-- The deferred function drops the error of the rollback.
abbrev pub close : Option Error → Database → Result Error Database → Database × Option Error
close commit db (err e) = (db, some e)
close none db (ok db') = (db', none)
close (some e) db (ok db') = (db, some e)

abbrev pub begun : Tx → Database → Result Error Database → Database × Option Error
begun tx db body = elim tx.begin [ none ↦ close tx.commit db body | some e ↦ (db, some e) ]

unfoldable pub assert_schedule :
    Sql → Formats → AssertEnv → TaskScheduleRequest → Database → Database × Option Error
unfolding assert_body
assert_schedule sql f env req db = begun env.tx db (assert_body sql f env req db)
