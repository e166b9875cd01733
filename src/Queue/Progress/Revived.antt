-- ===== src/Queue/Progress/Revived.antt =====
-- pkg/queue/postgres/dequeuer.go: the switch of `updateProgress` names no failed status, so a
-- heartbeat makes a failed task run again.
use go_base.Base.{ℕ, ◌≡◌, refl, ◌≢◌, true, false, none, some, String, arith}
use go_base.Queue.{running}
use go_base.Queue.Database.{Sql, TaskRow, Database}
use go_base.Queue.Dequeuer.{is_available, is_inflight}
use go_base.Queue.Dequeuer.Effect.{ended-not-available}
use go_base.Queue.Progress.{ProgressEnv, find_row, update_progress, heartbeat, fail}
use go_base.Queue.Progress.Outcome.{IsQuiet, update_progress_accepted, find_row-update_progress}

-- After `fail` for a task that had started, a heartbeat with no failing statement succeeds, and
-- leaves a running task that is neither in flight nor available to an attempt, at any time and in
-- any queue.
pub fail_then_heartbeat :
    (sql : Sql) (env env' : ProgressEnv) (id p p' q : String) (cut : ℕ) (db : Database)
    {db' : Database} (before : TaskRow)
    → find_row id db.tasks ≡ some before
    → before.started_at ≢ none
    → fail env id p db ≡ (db', none)
    → IsQuiet env'
    → (r : TaskRow) × ((heartbeat env' id p' db').1 ≡ none)
      × (find_row id (heartbeat env' id p' db').0.tasks ≡ some r)
      × (r.status ≡ running)
      × (is_inflight cut r ≡ false)
      × (is_available sql q cut r ≡ false)
unfolding fail heartbeat
fail_then_heartbeat sql env env' id p p' q cut db {db'} before f s h quiet =
    let g = find_row-update_progress env id p true true db h f in
    let accepted = update_progress_accepted env' id p' false false db' quiet g tt in
    let again =
      find_row-update_progress env' id p' false false db'
        (λ i. ((update_progress env' id p' false false db').0, accepted i)) g in
    (_, accepted, again, refl, ground arith, ended-not-available sql q cut _ refl s)
