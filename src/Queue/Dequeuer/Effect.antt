-- ===== src/Queue/Dequeuer/Effect.antt =====
-- pkg/queue/postgres/dequeuer.go: what an attempt changes, which task it takes, and that it takes one.
use go_base.Base.{
  ℕ, ◌≤◌, ◌≡◌, sym, ap, ◌∙◌, ◌≢◌, ◌⊎◌, inl, inr, true, false, Option, none, some, List, Memᴰ,
  String, eq_iff, str_eq, map, if◌then◌else◌, ok, arith, Option-cases, >>=-eq-ok,
}
use go_base.Queue.{Task, running}
use go_base.Queue.Database.{
  Sql, TaskRow, Database, update_tasks, is_null, with_tx, with_tx-cases, with_tx_error,
}
use go_base.Queue.Dequeuer.{
  AttemptEnv, double_ttl, is_available, start, claim_row, take_task, plan, follow_plan,
  attempt_body, attempt_dequeue, scan,
}
use go_base.Queue.Dequeuer.Exclusive.{available_same}
use go_base.Queue.Dequeuer.Taken.{Took, attempt-Took, attempt_body-Took}

module _ (sql : Sql) (ttl : ℕ) (env : AttemptEnv) (queues : List String) (db : Database) where
  claim_row_idle :
      (found : Option TaskRow) {d : Database} → claim_row env db found ≡ ok (d, none) → d ≡ db
  unfolding claim_row
  claim_row_idle none h = ground arith
  claim_row_idle (some r) h = ground arith

  follow_plan_idle :
      (choice : Option String) {d : Database}
      → follow_plan sql ttl env db choice ≡ ok (d, none)
      → d ≡ db
  unfolding take_task
  follow_plan_idle none h = ground arith
  follow_plan_idle (some q) h =
      let (found, _, rest) = >>=-eq-ok _ (claim_row env db) h in claim_row_idle found rest

  attempt_body_idle : {d : Database} → attempt_body sql ttl env queues db ≡ ok (d, none) → d ≡ db
  unfolding attempt_body
  attempt_body_idle h =
      let (choice, _, rest) =
        >>=-eq-ok (plan sql ttl env queues db) (follow_plan sql ttl env db) h in
      follow_plan_idle choice rest

  -- An attempt that returns an error, or no task, leaves the database as it was.
  pub attempt_unchanged :
      ((attempt_dequeue sql ttl env queues db).1 ≡ none)
        ⊎ ((attempt_dequeue sql ttl env queues db).2 ≢ none)
      → (attempt_dequeue sql ttl env queues db).0 ≡ db
  unfolding attempt_dequeue
  attempt_unchanged h =
      let body = attempt_body sql ttl env queues db in
      elim (with_tx-cases env.tx db none body) [
        | inl e ↦ e
        | inr e ↦ elim h [
          | inl idle ↦
              attempt_body_idle (e ∙ ap (λ a. ok ((with_tx env.tx db none body).0, a)) idle)
          | inr failed ↦ elim (Option-cases (with_tx env.tx db none body).2) [
            | inl fine ↦ absurd (failed fine)
            | inr (x, e') ↦ with_tx_error env.tx db none body e'
          ]
        ]
      ]

  -- The task that an attempt takes is at least as new as every task of its queue that has not
  -- started.
  pub attempt_newest :
      {db' : Database} {t : Task} (r : TaskRow)
      → attempt_dequeue sql ttl env queues db ≡ (db', some t, none)
      → Memᴰ r db.tasks
      → sql.fold r.queue ≡ sql.fold t.queue
      → r.started_at ≡ none
      → r.created_at ≤ t.created_at
  unfolding scan is_available
  attempt_newest {t = t} r h m same unstarted =
      let (q, e, took) = attempt-Took sql ttl env queues db h in
      let same_q : sql.fold r.queue ≡ sql.fold q =
        same
        ∙ ap (λ (u : Task). sql.fold u.queue) took.taken
        ∙ available_same sql q (double_ttl env.now ttl) took.row took.available in
      let older = took.newest r m (ground (arith, eq_iff (sql.fold r.queue) (sql.fold q))) in
      omega (arith, ap (λ (u : Task). u.created_at) took.taken)

  -- An attempt that takes a task gives the rows with its identifier the status `running`, and this
  -- time as their start and heartbeat, leaves the other rows, their order and the schedules as they
  -- are, and returns the task with this start and heartbeat.
  pub attempt_marks :
      {db' : Database} {t : Task}
      → attempt_dequeue sql ttl env queues db ≡ (db', some t, none)
      → (db'.schedules ≡ db.schedules)
        × (db'.tasks
            ≡ map
                (λ (r : TaskRow).
                  if str_eq r.task.id t.id
                  then record r {
                    task = record r.task {
                      status = running;
                      started_at = some env.now;
                      last_heartbeat_at = some env.now;
                    };
                  }
                  else r)
                db.tasks)
        × (t.started_at ≡ some env.now)
        × (t.last_heartbeat_at ≡ some env.now)
  unfolding scan
  attempt_marks {db' = db'} {t = t} h =
      let (q, e, took) = attempt-Took sql ttl env queues db h in
      let same : db' ≡ update_tasks t.id (start env.now) db =
        took.updated ∙ ap (λ (u : Task). update_tasks u.id (start env.now) db) (sym took.taken) in
      (
        ap (λ (d : Database). d.schedules) same,
        ap (λ (d : Database). d.tasks) same,
        ap (λ (u : Task). u.started_at) took.taken,
        ap (λ (u : Task). u.last_heartbeat_at) took.taken,
      )

  -- Whatever fails, an attempt writes nothing, or marks the row of the task that it took.
  pub attempt-cases :
      ((attempt_dequeue sql ttl env queues db).0 ≡ db)
      ⊎ ((t : Task) × (q : String) × Took sql ttl env q db
            (attempt_dequeue sql ttl env queues db).0
            t)
  unfolding attempt_dequeue
  attempt-cases =
      let body = attempt_body sql ttl env queues db in
      elim (with_tx-cases env.tx db none body) [
        | inl e ↦ inl e
        | inr e ↦ elim (Option-cases (with_tx env.tx db none body).1) [
          | inl idle ↦
              inl (attempt_body_idle (e ∙ ap (λ a. ok ((with_tx env.tx db none body).0, a)) idle))
          | inr (t, some_t) ↦
              let (q, _, took) =
                attempt_body-Took sql ttl env queues db
                  (e ∙ ap (λ a. ok ((with_tx env.tx db none body).0, a)) some_t) in
              inr (t, q, took)
        ]
      ]

-- Only a task that has not started, or has not finished, is available.
pub available_unfinished :
    (sql : Sql) (q : String) (cut : ℕ) (r : TaskRow)
    → is_available sql q cut r ≡ true
    → (r.started_at ≡ none) ⊎ (r.finished_at ≡ none)
unfolding is_available
available_unfinished sql q cut r h = ground arith

-- A task that has started and ended is not available.
pub ended-not-available :
    (sql : Sql) (q : String) (cut : ℕ) (r : TaskRow)
    → is_null r.finished_at ≡ false
    → r.started_at ≢ none
    → is_available sql q cut r ≡ false
unfolding is_available
ended-not-available sql q cut r f s = ground arith
