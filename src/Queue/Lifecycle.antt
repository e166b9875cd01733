-- ===== src/Queue/Lifecycle.antt =====
-- pkg/queue/postgres: the life of a task under every sequence of calls of the queuer and the
-- dequeuer, whatever fails in between.
pub mod Sound
pub mod Reachable
use go_base.Base.{
  ℕ, ◌≡◌, refl, sym, ap, subst, ◌∙◌, ◌≢◌, ◌⊎◌, inl, inr, Bool, true, false, none, List, [], ◌∷◌,
  ◌++◌, Memᴰ, String, str_eq, eq_iff, ok, arith, Mem-map_inv, Mem-append_left, Mem-snoc_inv,
  Bool-cases,
}
use go_base.Queue.{TaskStatus, waiting, finished, Task, TaskEnqueueRequest}
use go_base.Queue.Database.{
  Sql, TaskRow, Database, set_row, update_tasks, is_null, Mem-update_tasks,
}
use go_base.Queue.Queuer.{EnqueueEnv, new_row, enqueue}
use go_base.Queue.Dequeuer.{AttemptEnv, double_ttl, start, attempt_dequeue}
use go_base.Queue.Dequeuer.Effect.{attempt-cases, available_unfinished}
use go_base.Queue.Progress.{ProgressEnv, set_progress, valid_progress, update_progress}
use go_base.Queue.Progress.Outcome.{IsOpen, find_row-Mem, set_progress-id, update_progress-cases}

module _ (sql : Sql) (ttl : ℕ) where
  -- One call, with the answers of the outside world. The UUID of a new task is new.
  pub data Step (db : Database) : Database → Type 0 where
    enqueues :
        (env : EnqueueEnv) (req : TaskEnqueueRequest) (db' : Database)
        → ((r : TaskRow) → Memᴰ r db.tasks → r.id ≢ env.uuid)
        → enqueue env req db ≡ ok db'
        → Step db db'
    attempts :
        (env : AttemptEnv) (queues : List String)
        → Step db (attempt_dequeue sql ttl env queues db).0
    updates :
        (env : ProgressEnv) (id progress : String) (is_final is_failed : Bool)
        → Step db (update_progress env id progress is_final is_failed db).0

  pub data Reach (db : Database) : Database → Type 0 where
    here : Reach db db
    next : {db' db'' : Database} → Reach db db' → Step db' db'' → Reach db db''

  -- What a call does to the rows: it adds one, or rewrites those under one identifier.
  pub data Change (db db' : Database) : Type 0 where
    unchanged : db' ≡ db → Change db db'
    added :
        (env : EnqueueEnv) (req : TaskEnqueueRequest)
        → ((r : TaskRow) → Memᴰ r db.tasks → r.id ≢ env.uuid)
        → db'.tasks ≡ db.tasks ++ new_row env req ∷ []
        → Change db db'
    started :
        (row : TaskRow) (now : ℕ)
        → Memᴰ row db.tasks
        → (row.started_at ≡ none) ⊎ (row.finished_at ≡ none)
        → db' ≡ update_tasks row.id (start now) db
        → Change db db'
    updated :
        (row : TaskRow) (now : ℕ) (progress : String) (is_final is_failed : Bool)
        → Memᴰ row db.tasks
        → IsOpen row.status
        → db' ≡ update_tasks row.id (set_progress now progress is_final is_failed) db
        → Change db db'

  pub Step-Change : {db db' : Database} → Step db db' → Change db db'
  unfolding enqueue
  Step-Change (enqueues env req db' fresh h) = added env req fresh (ground arith)
  Step-Change {db} (attempts env queues) = elim (attempt-cases sql ttl env queues db) [
    | inl e ↦ unchanged e
    | inr (t, q, took) ↦
        started took.row env.now took.held
          (available_unfinished sql q (double_ttl env.now ttl) took.row took.available) took.updated
  ]
  Step-Change {db} (updates env id progress is_final is_failed) =
      elim (update_progress-cases env id progress is_final is_failed db) [
        | inl e ↦ unchanged e
        | inr (r, f, o, e) ↦
            let (m, i) = find_row-Mem id db.tasks f in
            updated r env.now (valid_progress progress) is_final is_failed m o (
              e
              ∙ ap
                  (λ (k : String).
                    update_tasks k
                      (set_progress env.now (valid_progress progress) is_final is_failed) db)
                  (sym i))
      ]
