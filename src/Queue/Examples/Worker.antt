-- ===== src/Queue/Examples/Worker.antt =====
-- pkg/queue/workers/task_worker.go: a worker with a running task.
use go_base.Base.{refl, none, some, [], ◌∷◌, String}
use go_base.Queue.{Error, driver}
use go_base.Queue.Examples.Tables.{running_task, row, tables, progress_env}
use go_base.Queue.Progress.Outcome.{IsQuiet}
use go_base.Queue.TaskWorker.{beat, closed, processed, panicked, handle_task}
use go_base.Queue.TaskWorker.Calls.{logged, Handled, handle_task-Handled}
use go_base.Queue.TaskWorker.Postgres.{postgres, IsClosed, handle_task-IsClosed}

quiet : IsQuiet progress_env
quiet = record { begin = refl; commit = refl; rollback = refl; select = refl; update = refl }

abbrev set_error : String → Error → String
set_error p e = p

handle_task-Handled_example :
    Handled
      (postgres (λ db. (db, none, none)) progress_env)
      "c"
      (some panicked)
      (handle_task
        (logged (postgres (λ db. (db, none, none)) progress_env))
        "c"
        set_error
        (beat "1" ∷ closed ∷ [])
        (some panicked)
        (tables, [])).0.1
handle_task-Handled_example =
    handle_task-Handled (postgres (λ db. (db, none, none)) progress_env) "c" set_error
      (beat "1" ∷ closed ∷ []) (some panicked) tables

-- The handler sends two heartbeats and returns an error.
handle_task-IsClosed_example :
    IsClosed
      (λ db. (db, none, none))
      progress_env
      "c"
      quiet
      (some (driver "broken"))
      (handle_task
        (postgres (λ db. (db, none, none)) progress_env)
        "c"
        set_error
        (beat "1" ∷ beat "2" ∷ closed ∷ [])
        (some (processed (some (driver "broken"))))
        tables)
handle_task-IsClosed_example =
    handle_task-IsClosed (λ db. (db, none, none)) progress_env "c" quiet set_error ("1" ∷ "2" ∷ [])
      (processed (some (driver "broken"))) tables (row (running_task "c")) refl tt
