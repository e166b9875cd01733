-- ===== src/Queue/Retention/Examples.antt =====
-- pkg/queue/postgres/retention.go: a concrete retention task.
use go_base.Base.{
  ℕ, ◌+◌, ◌≤◌, ◌≡◌, refl, ◌⊎◌, ◌↔◌, Bool, true, false, none, some, [], ◌∷◌, String, str_eq, Result,
  ok, err, if◌then◌else◌, arith, ◌&&◌, eq_iff, Bool-cases, inl, inr,
}
use go_base.Queue.{finished, Error, driver}
use go_base.Queue.Database.{TaskRow, ScheduleRow, Database}
use go_base.Queue.Examples.{sql}
use go_base.Queue.Scheduler.{Formats}
use go_base.Queue.Retention.{
  RetentionTaskSpec, Library, RetentionEnv, conditions, assert_retention_schedule_with_spec,
}
use go_base.Queue.Retention.Quotes.{is_plain}
use go_base.Queue.Retention.Deletion.{status_text, deletes, Execution, deletes_iff}
use go_base.Queue.Retention.Once.{IsScheduledOnce, assert_retention-IsScheduledOnce}

abbrev formats : Formats
formats = record { jsonb = λ s. s; cron_tab = λ s. none }

-- The JSON form of a specification is read back from a table of two.
abbrev spec : ℕ → RetentionTaskSpec
spec age = record {
  sql = "DELETE";
  queue_name = "mail";
  task_type = "send";
  status = "finished";
  age = age;
}

abbrev field : String → String
field key =
    if str_eq key "queueName" then "mail" else if str_eq key "taskType" then "send" else "finished"

row : TaskRow
row = record {
  task = record {
    base = record { queue = "mail"; type = "send"; spec = none };
    id = "t";
    status = finished;
    progress = "{}";
    created_at = 1;
    updated_at = 5;
    started_at = some 2;
    finished_at = some 5;
    last_heartbeat_at = some 4;
  };
  references = [];
}

abbrev execution : Execution sql 100
execution = record { executed = deletes sql 100; reads_plain = λ cs r h. refl }

deletes_iff_example : (execution.executed (conditions "mail" "" "finished" 60) row ≡ true) ↔ (
    (sql.fold (status_text row.status) ≡ sql.fold "finished")
    × ((t : ℕ) × (row.finished_at ≡ some t) × (t + 60 ≤ 100))
    × ((◌≡◌ {A = String} "mail" "") ⊎ (sql.fold row.queue ≡ sql.fold "mail"))
    × ((◌≡◌ {A = String} "" "") ⊎ (sql.fold row.type ≡ sql.fold "")))
unfolding is_plain
deletes_iff_example = deletes_iff sql 100 execution "mail" "" "finished" 60 row refl refl refl

deletes_test : deletes sql 100 (conditions "mail" "" "finished" 60) row ≡ true
unfolding row
deletes_test = refl

quote_test : is_plain "o'brien" ≡ false
unfolding is_plain
quote_test = refl

-- Only one queue, type and status can be serialized.
abbrev is_mail : RetentionTaskSpec → Bool
is_mail s = str_eq s.queue_name "mail" && (str_eq s.task_type "send" && str_eq s.status "finished")

abbrev marshal : RetentionTaskSpec → Result Error String
marshal s = if is_mail s then ok "json" else err (driver "json")

serialized :
    (s : RetentionTaskSpec) (bytes : String)
    → marshal s ≡ ok bytes
    → (s.queue_name ≡ "mail") × (s.task_type ≡ "send") × (s.status ≡ "finished")
serialized s bytes h = elim (Bool-cases (is_mail s)) [
  | inr e ↦ let h' = rw e at h in absurd (cc)
  | inl e ↦ (
    (eq_iff s.queue_name "mail").0 (ground arith),
    (eq_iff s.task_type "send").0 (ground arith),
    (eq_iff s.status "finished").0 (ground arith),
  )
]

abbrev lib : Library formats
lib = record {
  marshal = marshal;
  field = λ bytes key. some (field key);
  delete_sql = λ cs. "DELETE";
  cron = λ minute. "hourly";
  queue_name_field = λ s bytes h. rw (serialized s bytes h).0 refl;
  task_type_field = λ s bytes h. rw (serialized s bytes h).1 refl;
  status_field = λ s bytes h. rw (serialized s bytes h).2 refl;
}

abbrev env : RetentionEnv
env = record { now = 100; uuid = "s"; minute = 7; exec = none; affected = none }

abbrev older : ScheduleRow
older = record {
  schedule_id = "r";
  task_queue = "queue-maintenance";
  task_type = "retention";
  task_spec = "old";
  cron_schedule = "hourly";
  next_execution_time = some 900;
  references = [];
}

abbrev scheduled : Database
scheduled = record { tasks = []; schedules = older ∷ [] }

assert_retention-IsScheduledOnce_example :
    IsScheduledOnce sql formats lib
      (spec 60)
      env
      "json"
      refl
      scheduled.schedules
      (assert_retention_schedule_with_spec sql formats lib env (spec 60) scheduled).0.schedules
    × ((assert_retention_schedule_with_spec sql formats lib env (spec 60) scheduled).0.tasks ≡ [])
assert_retention-IsScheduledOnce_example =
    assert_retention-IsScheduledOnce sql formats lib (spec 60) env "json" refl scheduled refl refl
      (omega arith)
