-- ===== src/Queue/TaskWorker/Postgres.antt =====
-- pkg/queue/workers/task_worker.go over pkg/queue/postgres/dequeuer.go: the worker leaves the task's
-- row closed.
use go_base.Base.{
  ◌≡◌, refl, ap, sym, subst, ◌∙◌, Option, none, some, List, [], ◌∷◌, ◌++◌, map, String, true, false,
}
use go_base.Queue.{Error, TaskStatus, failed, finished, Task}
use go_base.Queue.Database.{TaskRow, Database}
use go_base.Queue.Progress.{ProgressEnv, find_row, update_progress, heartbeat, finish, fail}
use go_base.Queue.Progress.Outcome.{
  IsQuiet, IsOpen, update_progress_accepted, find_row-update_progress,
}
use go_base.Queue.TaskWorker.{
  Dequeuer, beat, closed, Ending, Outcome, returned, work_error, after_beat, process_heartbeats,
  close_task, after_heartbeats, handle_task,
}

-- The dequeuer over the tables. `dequeue` is left open: it stands for the call that took the task.
unfoldable pub postgres :
    (Database → Database × Option Task × Option Error) → ProgressEnv → Dequeuer Database
unfolding heartbeat finish fail
postgres dequeue env = record {
  dequeue = dequeue;
  heartbeat = heartbeat env;
  finish = finish env;
  fail = fail env;
}

abbrev pub closing_status : Option Error → TaskStatus
closing_status none = finished
closing_status (some e) = failed

module _ (dequeue : Database → Database × Option Task × Option Error) (env : ProgressEnv)
    (id : String) (quiet : IsQuiet env) where
  -- A task that is there and open.
  abbrev HasOpen : Database → Type 0
  HasOpen db = (r : TaskRow) × (find_row id db.tasks ≡ some r) × IsOpen r.status

  beats_open :
      (progress : String) (ps : List String) (db : Database)
      → HasOpen db
      → (db' : Database) × (p : String) × HasOpen db'
        × (process_heartbeats (postgres dequeue env) id progress (map beat ps ++ closed ∷ []) db
            ≡ (db', p, returned none))
  unfolding process_heartbeats postgres
  beats_open progress [] db h = (db, progress, h, refl)
  beats_open progress (p ∷ ps) db (r, f, o) =
      let ok = update_progress_accepted env id p false false db quiet f o in
      let f' =
        find_row-update_progress env id p false false db
          (λ i. ((update_progress env id p false false db).0, ok i)) f in
      let (db', q, h, e) =
        beats_open p ps (update_progress env id p false false db).0 (_, f', tt) in
      let u = update_progress env id p false false db in
      let rest = process_heartbeats (postgres dequeue env) id p (map beat ps ++ closed ∷ []) u.0 in
      (db', q, h, (λ i. after_beat (postgres dequeue env) id p (u.0, ok i) rest) ∙ e)

  -- What a handled task comes to: the call returned no error, and the row has a final status.
  abbrev pub IsClosed : Option Error → Database × Outcome → Type 0
  IsClosed e x =
      (x.1 ≡ returned none)
      × (r : TaskRow) × (find_row id x.0.tasks ≡ some r)
      × (r.status ≡ closing_status e)
      × (r.finished_at ≡ some env.now)

  close_task-IsClosed :
      (set_error : String → Error → String) (p : String) (e : Option Error) (db : Database)
      → HasOpen db
      → IsClosed e (close_task (postgres dequeue env) id set_error p e db)
  unfolding postgres
  close_task-IsClosed set_error p none db (r, f, o) =
      let ok = update_progress_accepted env id p true false db quiet f o in
      let f' =
        find_row-update_progress env id p true false db
          (λ i. ((update_progress env id p true false db).0, ok i)) f in
      (ap returned ok, _, f', refl, refl)
  close_task-IsClosed set_error p (some e) db (r, f, o) =
      let q = set_error p e in
      let ok = update_progress_accepted env id q true true db quiet f o in
      let f' =
        find_row-update_progress env id q true true db
          (λ i. ((update_progress env id q true true db).0, ok i)) f in
      (ap returned ok, _, f', refl, refl)

  -- With no failing statement, a worker that holds an open task, whose handler sends heartbeats,
  -- closes the channel and ends, returns no error and leaves the row finished, or failed if the
  -- handler returned an error.
  pub handle_task-IsClosed :
      (set_error : String → Error → String) (ps : List String) (ending : Ending) (db : Database)
      (r : TaskRow)
      → find_row id db.tasks ≡ some r
      → IsOpen r.status
      → IsClosed (work_error ending) (
          handle_task
            (postgres dequeue env)
            id
            set_error
            (map beat ps ++ closed ∷ [])
            (some ending)
            db)
  unfolding handle_task
  handle_task-IsClosed set_error ps ending db r f o =
      let (db', p, h, e) = beats_open "{}" ps db (r, f, o) in
      subst
        (λ x.
          IsClosed (work_error ending)
            (after_heartbeats (postgres dequeue env) id set_error (some ending) x))
        (sym e) (close_task-IsClosed set_error p (work_error ending) db' h)
