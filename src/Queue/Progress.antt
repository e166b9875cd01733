-- ===== src/Queue/Progress.antt =====
-- pkg/queue/postgres/dequeuer.go: `Heartbeat`, `Finish`, `Fail`, and `updateProgress` below them.
pub mod Outcome
pub mod Revived
use go_base.Base.{
  ℕ, Bool, true, false, Option, none, some, List, [], ◌∷◌, String, str_eq, Result, ok, err, ◌>>=◌,
  ◌>>◌, unless, if◌then◌else◌,
}
use go_base.Queue.{
  Error, task_cancelled, task_finished, task_not_running, task_not_found, TaskStatus, waiting,
  running, cancelled, finished, failed, Task,
}
use go_base.Queue.Database.{Tx, TaskRow, Database, update_tasks, with_tx}
use go_base.Queue.Queuer.{empty_json}

-- The clock, and the failure of each statement.
pub record ProgressEnv : Type 0 where
  pub now : ℕ
  pub tx : Tx
  pub select : Option Error
  pub update : Option Error

-- `SELECT status FROM tasks WHERE task_id = id`: the key makes the row unique.
abbrev pub find_row : String → List TaskRow → Option TaskRow
find_row id [] = none
find_row id (r ∷ rs) = if str_eq r.id id then some r else find_row id rs

abbrev pub or_not_found : Option TaskRow → Result Error TaskRow
or_not_found none = err task_not_found
or_not_found (some r) = ok r

-- "we should proceed ONLY if the task is actually running"
abbrev pub check_status : TaskStatus → Result Error (Unit {0})
check_status waiting = err task_not_running
check_status cancelled = err task_cancelled
check_status finished = err task_finished
check_status _ = ok tt

-- The assignments of the UPDATE, by the two flags.
abbrev pub set_progress : ℕ → String → Bool → Bool → Task → Task
set_progress now progress true true t = record t {
  last_heartbeat_at = some now;
  progress = progress;
  finished_at = some now;
  status = failed;
}
set_progress now progress true false t = record t {
  last_heartbeat_at = some now;
  progress = progress;
  finished_at = some now;
  status = finished;
}
set_progress now progress false true t = record t {
  last_heartbeat_at = some now;
  progress = progress;
  status = failed;
}
set_progress now progress false false t = record t {
  last_heartbeat_at = some now;
  progress = progress;
  status = running;
}

abbrev pub valid_progress : String → String
valid_progress progress = if str_eq progress "" then empty_json else progress

-- What follows the selection of the status.
pub write_found :
    ProgressEnv
    → String
    → String
    → Bool
    → Bool
    → Database
    → Option TaskRow
    → Result Error (Database × Unit {0})
write_found env id progress is_final is_failed db found = do
  row ← or_not_found found
  check_status row.status
  unless env.update (update_tasks id (set_progress env.now progress is_final is_failed) db, tt)

-- The body of the transaction.
pub progress_body :
    ProgressEnv → String → String → Bool → Bool → Database → Result Error (Database × Unit {0})
unfolding write_found
progress_body env id progress is_final is_failed db =
    unless env.select (find_row id db.tasks) >>= write_found env id progress is_final is_failed db

unfoldable pub update_progress :
    ProgressEnv → String → String → Bool → Bool → Database → Database × Option Error
unfolding progress_body with_tx
update_progress env id progress is_final is_failed db =
    let r =
      with_tx env.tx db tt (progress_body env id (valid_progress progress) is_final is_failed db) in
    (r.0, r.2)

unfoldable pub heartbeat : ProgressEnv → String → String → Database → Database × Option Error
unfolding update_progress
heartbeat env id progress db = update_progress env id progress false false db

unfoldable pub finish : ProgressEnv → String → String → Database → Database × Option Error
unfolding update_progress
finish env id progress db = update_progress env id progress true false db

unfoldable pub fail : ProgressEnv → String → String → Database → Database × Option Error
unfolding update_progress
fail env id progress db = update_progress env id progress true true db
