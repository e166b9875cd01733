-- ===== src/Queue/Retention.antt =====
-- pkg/queue/postgres/retention.go: the task that deletes finished tasks, and its only schedule.
pub mod Quotes
pub mod Deletion
pub mod Once
mod Examples
use go_base.Base.{
  ℕ, ◌≡◌, Bool, true, false, ◌&&◌, ◌||◌, Option, none, some, List, [], ◌∷◌, ◌++◌, map, String,
  str_eq, Result, ok, err, ◌>>=◌, ◌>>◌, unless, if◌then◌else◌,
}
use go_base.Queue.{Error, driver, wrapped}
use go_base.Queue.Database.{Sql, ScheduleRow, Database}
use go_base.Queue.Scheduler.{Formats, any}

-- A WHERE clause of the deletion: on the status, on the end with an age, on the queue, on the type.
pub data Condition : Type 0 where
  status_is queue_is type_is : String → Condition
  finished_before : ℕ → Condition

pub record RetentionTaskSpec : Type 0 where
  pub sql : String
  pub queue_name : String
  pub task_type : String
  pub status : String
  pub age : ℕ

-- `json.Marshal` of the specification, the operator `->>` on the value that a `jsonb` column keeps of
-- it, the text of a deletion, and the cron expression of a minute. The keys of the JSON form are those
-- of the fields' tags.
pub record Library (f : Formats) : Type 0 where
  pub marshal : RetentionTaskSpec → Result Error String
  pub field : String → String → Option String
  pub delete_sql : List Condition → String
  pub cron : ℕ → String
  pub queue_name_field :
      (s : RetentionTaskSpec) (bytes : String)
      → marshal s ≡ ok bytes
      → field (f.jsonb bytes) "queueName" ≡ some s.queue_name
  pub task_type_field :
      (s : RetentionTaskSpec) (bytes : String)
      → marshal s ≡ ok bytes
      → field (f.jsonb bytes) "taskType" ≡ some s.task_type
  pub status_field :
      (s : RetentionTaskSpec) (bytes : String)
      → marshal s ≡ ok bytes
      → field (f.jsonb bytes) "status" ≡ some s.status

abbrev pub unless_empty : String → Condition → List Condition
unless_empty s c = if str_eq s "" then [] else c ∷ []

abbrev pub conditions : String → String → String → ℕ → List Condition
conditions queue type status age =
    status_is status
    ∷ finished_before age
    ∷ (unless_empty queue (queue_is queue) ++ unless_empty type (type_is type))

abbrev pub maintenance_task_queue : String
maintenance_task_queue = "queue-maintenance"

abbrev pub retention_task : String
retention_task = "retention"

pub record RetentionEnv : Type 0 where
  pub now : ℕ
  pub uuid : String
  pub minute : ℕ
  pub exec : Option Error
  pub affected : Option Error

module _ (sql : Sql) (f : Formats) (lib : Library f) where
  abbrev pub create_retention_spec : String → String → String → ℕ → RetentionTaskSpec
  create_retention_spec queue type status age = record {
    sql = lib.delete_sql (conditions queue type status age);
    queue_name = queue;
    task_type = type;
    status = status;
    age = age;
  }

  abbrev pub new_schedule : RetentionEnv → String → ScheduleRow
  new_schedule env bytes = record {
    schedule_id = env.uuid;
    task_queue = maintenance_task_queue;
    task_type = retention_task;
    task_spec = f.jsonb bytes;
    cron_schedule = lib.cron env.minute;
    next_execution_time = some env.now;
    references = [];
  }

  -- Equal values of an index: NULL is distinct from everything.
  abbrev pub same_key : Option String → Option String → Bool
  same_key (some a) (some b) = str_eq a b
  same_key (some a) none = false
  same_key none o = false

  abbrev pub same_field : String → ScheduleRow → ScheduleRow → Bool
  same_field key r s = same_key (lib.field r.task_spec key) (lib.field s.task_spec key)

  -- The rows that meet the new one in the partial unique index on retention schedules.
  abbrev pub conflicts : ScheduleRow → ScheduleRow → Bool
  conflicts new r =
      str_eq (sql.fold r.task_type) (sql.fold retention_task)
      && (str_eq (sql.fold r.task_queue) (sql.fold new.task_queue)
          && (str_eq (sql.fold r.task_type) (sql.fold new.task_type)
              && (same_field "queueName" r new
                  && (same_field "taskType" r new && same_field "status" r new))))

  -- `DO UPDATE SET`
  abbrev pub excluded : ScheduleRow → ScheduleRow → ScheduleRow
  excluded new r = record r {
    next_execution_time = new.next_execution_time;
    task_spec = new.task_spec;
    cron_schedule = new.cron_schedule;
  }

  abbrev pub update_conflict : ScheduleRow → ScheduleRow → ScheduleRow
  update_conflict new r = if conflicts new r then excluded new r else r

  abbrev pub upsert : ScheduleRow → List ScheduleRow → List ScheduleRow
  upsert new rows =
      if any (conflicts new) rows then map (update_conflict new) rows else rows ++ new ∷ []

  abbrev pub wrap {ℓ} : {A : Type ℓ} → String → Result Error A → Result Error A
  wrap text (ok a) = ok a
  wrap text (err e) = err (wrapped e (driver text))

  abbrev pub prepare : RetentionEnv → RetentionTaskSpec → Result Error ScheduleRow
  prepare env spec = do
    bytes ← wrap "can not build retention task spec" (lib.marshal spec)
    unless (f.cron_tab (lib.cron env.minute)) (new_schedule env bytes)

  abbrev pub wrap_error : String → Option Error → Option Error
  wrap_error text none = none
  wrap_error text (some e) = some (wrapped e (driver text))

  -- The statement is committed on its own, so an error of the count of the rows keeps it.
  abbrev pub execute :
      RetentionEnv → Option Error → ScheduleRow → Database → Database × Option Error
  execute env (some e) new db = (db, wrap_error "can not upsert retention schedule" (some e))
  execute env none new db = (
    record db { schedules = upsert new db.schedules },
    wrap_error "can not determine the number of rows affected" env.affected,
  )

  abbrev pub with_row : RetentionEnv → Result Error ScheduleRow → Database → Database × Option Error
  with_row env (err e) db = (db, some e)
  with_row env (ok new) db = execute env env.exec new db

  unfoldable pub assert_retention_schedule_with_spec :
      RetentionEnv → RetentionTaskSpec → Database → Database × Option Error
  assert_retention_schedule_with_spec env spec db = with_row env (prepare env spec) db

  abbrev pub assert_retention_schedule :
      RetentionEnv → String → String → String → ℕ → Database → Database × Option Error
  assert_retention_schedule env queue type status age =
      assert_retention_schedule_with_spec env (create_retention_spec queue type status age)
