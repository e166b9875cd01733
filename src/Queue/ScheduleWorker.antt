-- ===== src/Queue/ScheduleWorker.antt =====
-- pkg/queue/workers/schedule_worker.go: turning the schedules that are due into tasks.
pub mod Due
pub mod Task
pub mod Iteration
use go_base.Base.{
  ℕ, ◌≤◌, ◌≡◌, Bool, true, false, Option, none, some, List, [], ◌∷◌, map, filter, Memᴰ, String,
  str_eq, leb, Result, ok, err, ◌>>=◌, ◌>>◌, unless, if◌then◌else◌, ◌&&◌, not,
}
use go_base.Queue.{Error, schedule_queue_is_empty, nil_dereference, TaskEnqueueRequest}
use go_base.Queue.Database.{Tx, ScheduleRow, Database, end_tx}
use go_base.Queue.Queuer.{EnqueueEnv, enqueue}

-- What is not in this repository: `p.Parse` with `Next` of the cron library, and the row that
-- `ORDER BY next_execution_time LIMIT 1` selects, with what their manuals say.
pub record Cron : Type 0 where
  pub next : String → ℕ → Result Error ℕ
  pub earliest : List ScheduleRow → Option ScheduleRow
  pub earliest_none : (l : List ScheduleRow) → earliest l ≡ none → l ≡ []
  pub earliest_mem : (l : List ScheduleRow) (r : ScheduleRow) → earliest l ≡ some r → Memᴰ r l

-- One call: the clocks of the selection and of `Next`, which rows other sessions have locked, the
-- answers for the queuer, and the failures.
pub record TaskEnv : Type 0 where
  pub now : ℕ
  pub later : ℕ
  pub locked : ScheduleRow → Bool
  pub tx : Tx
  pub select : Option Error
  pub enqueue : EnqueueEnv
  pub update : Option Error
  pub affected : Option Error

abbrev pub null_le : Option ℕ → ℕ → Bool
null_le none t = false
null_le (some a) t = leb a t

-- `next_execution_time <= now`, and SKIP LOCKED.
abbrev pub is_due : TaskEnv → ScheduleRow → Bool
is_due env r = null_le r.next_execution_time env.now && not (env.locked r)

pub request : ScheduleRow → TaskEnqueueRequest
request r = record {
  base = record { queue = r.task_queue; type = r.task_type; spec = some r.task_spec };
  references = ("schedule_id", r.schedule_id) ∷ [];
}

-- NULL for a one-time job.
abbrev pub next_execution : Cron → String → ℕ → Result Error (Option ℕ)
next_execution c cron t = if str_eq cron "" then ok none else c.next cron t >>= λ u. ok (some u)

abbrev pub set_next : String → Option ℕ → ScheduleRow → ScheduleRow
set_next id t r = if str_eq r.schedule_id id then record r { next_execution_time = t } else r

-- The update, and `RowsAffected`.
abbrev pub write_next :
    TaskEnv → ScheduleRow → Database → Option ℕ → Result Error (Database × Unit {0})
write_next env r db t = do
  unless env.update tt
  unless env.affected (record db { schedules = map (set_next r.schedule_id t) db.schedules }, tt)

-- What follows the enqueueing: it is the transaction's one write.
pub advance : Cron → TaskEnv → ScheduleRow → Database → Result Error (Database × Unit {0})
advance c env r db = next_execution c r.cron_schedule env.later >>= write_next env r db

abbrev pub closed : Database × Unit {0} × Option Error → Database × Option Error
closed (db, u, e) = (db, e)

-- The queuer has a connection of its own, so the new task stays when the transaction is rolled back.
abbrev pub after_enqueue :
    Cron → TaskEnv → ScheduleRow → Database → Result Error Database → Database × Option Error
after_enqueue c env r db (err e) = closed (end_tx env.tx db tt (err e))
after_enqueue c env r db (ok db') = closed (end_tx env.tx db' tt (advance c env r db'))

abbrev pub after_select :
    Cron → TaskEnv → Database → Result Error (Option ScheduleRow) → Database × Option Error
after_select c env db (err e) = closed (end_tx env.tx db tt (err e))
after_select c env db (ok none) = closed (end_tx env.tx db tt (err schedule_queue_is_empty))
after_select c env db (ok (some r)) = after_enqueue c env r db (enqueue env.enqueue (request r) db)

-- The error of `BeginTx` is not checked: the nil transaction is dereferenced.
unfoldable pub schedule_task : Cron → TaskEnv → Database → Database × Option Error
unfolding advance request end_tx
schedule_task c env db = elim env.tx.begin [
  | some e ↦ (db, some nil_dereference)
  | none ↦ after_select c env db (unless env.select (c.earliest (filter (is_due env) db.schedules)))
]

-- `blocked`: the rounds given are used up.
pub data Outcome : Type 0 where
  returned : Option Error → Outcome
  blocked : Outcome

abbrev pub after_task : Database × Option Error → Database × Outcome → Database × Outcome
after_task (db, none) rest = rest
after_task (db, some schedule_queue_is_empty) rest = (db, returned none)
after_task (db, some e) rest = (db, returned (some e))

abbrev pub interrupted : Option Error → Database → Database × Outcome → Database × Outcome
interrupted none db rest = rest
interrupted (some e) db rest = (db, returned (some e))

-- The loop of `iteration`, over `ctx.Err()` and the environment of each round.
unfoldable pub iteration : Cron → List (Option Error × TaskEnv) → Database → Database × Outcome
iteration c [] db = (db, blocked)
iteration c ((ctx, env) ∷ envs) db =
    let r = schedule_task c env db in
    let rest = after_task r (iteration c envs r.0) in interrupted ctx db rest
