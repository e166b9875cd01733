-- ===== src/Queue/ScheduleWorker/Task.antt =====
-- pkg/queue/workers/schedule_worker.go: one `scheduleTask`, and what an error after the enqueueing
-- leaves behind.
use go_base.Base.{
  ℕ, ◌+◌, ◌≤◌, ◌<◌, ◌≡◌, refl, ap, ◌∙◌, ◌≢◌, false, Option, none, some, [], ◌∷◌, ◌++◌, map, filter,
  str_eq, eq_iff, Result, ok, err, ◌>>=◌, arith, length, length-append, Bool-cases, inl, inr,
  >>=_ok, unless_ok,
}
use go_base.Queue.{Error, schedule_queue_is_empty}
use go_base.Queue.Database.{ScheduleRow, Database, end_tx}
use go_base.Queue.Queuer.{EnqueueEnv, enqueue, new_row}
use go_base.Queue.ScheduleWorker.{
  Cron, TaskEnv, is_due, request, next_execution, set_next, advance, write_next, after_enqueue,
  schedule_task,
}
use go_base.Queue.ScheduleWorker.Due.{IsQuiet, IsLater}

-- What the worker needs of a schedule: that the queue accepts its task, and that its cron expression,
-- if it has one, has at any time from the first on a next time after the last.
pub record IsRunnable (c : Cron) (first last : ℕ) (r : ScheduleRow) : Type 0 where
  pub queue : r.task_queue ≢ ""
  pub type : r.task_type ≢ ""
  pub cron :
      str_eq r.cron_schedule "" ≡ false
      → (t : ℕ) → first ≤ t
      → (u : ℕ) × (c.next r.cron_schedule t ≡ ok u) × (last < u)

next-IsLater :
    (c : Cron) (r : ScheduleRow) (first last later : ℕ)
    → IsRunnable c first last r
    → first ≤ later
    → (t : Option ℕ) × (next_execution c r.cron_schedule later ≡ ok t) × IsLater last t
next-IsLater c r first last later run le = elim (Bool-cases (str_eq r.cron_schedule "")) [
  | inl one ↦ (none, rw one, tt)
  | inr many ↦ let (u, e, lt) = run.cron many later le in (some u, rw (many, e), lt)
]

enqueue-request :
    (env : EnqueueEnv) (r : ScheduleRow) (db : Database)
    → r.task_queue ≢ ""
    → r.task_type ≢ ""
    → env.insert ≡ none
    → (db' : Database) × (enqueue env (request r) db ≡ ok db')
      × (db'.schedules ≡ db.schedules)
      × (length db'.tasks ≡ length db.tasks + 1)
unfolding enqueue request
enqueue-request env r db q t i = (
  record db { tasks = db.tasks ++ new_row env (request r) ∷ [] },
  ground (arith, eq_iff r.task_queue "", eq_iff r.task_type ""),
  refl,
  length-append db.tasks (new_row env (request r) ∷ []) ∙ omega arith,
)

after_enqueue_ok :
    (c : Cron) (env : TaskEnv) (r : ScheduleRow) (db : Database) (e : Result Error Database)
    {db' d : Database}
    → e ≡ ok db'
    → env.tx.commit ≡ none
    → advance c env r db' ≡ ok (d, tt)
    → after_enqueue c env r db e ≡ (d, none)
unfolding end_tx
after_enqueue_ok c env r db e h q a = rw (h, a, q)

after_enqueue_err :
    (c : Cron) (env : TaskEnv) (r : ScheduleRow) (db : Database) (m : Result Error Database)
    {db' : Database} {e : Error}
    → m ≡ ok db'
    → env.tx.rollback ≡ none
    → advance c env r db' ≡ err e
    → after_enqueue c env r db m ≡ (db', some e)
unfolding end_tx
after_enqueue_err c env r db m h q a = rw (h, a, q)

pub schedule_task-some :
    (c : Cron) (first last : ℕ) (env : TaskEnv) (db : Database) (r : ScheduleRow)
    → IsQuiet first last env
    → IsRunnable c first last r
    → c.earliest (filter (is_due env) db.schedules) ≡ some r
    → (d : Database) × (schedule_task c env db ≡ (d, none))
      × (t : Option ℕ) × IsLater last t
      × (d.schedules ≡ map (set_next r.schedule_id t) db.schedules)
unfolding schedule_task advance
schedule_task-some c first last env db r q run e =
    let (t, next, later) = next-IsLater c r first last env.later run q.later in
    let (db', added, same, _) = enqueue-request env.enqueue r db run.queue run.type q.insert in
    let written : advance c env r db'
        ≡ ok (record db' { schedules = map (set_next r.schedule_id t) db'.schedules }, tt) =
      >>=_ok _ next ∙ >>=_ok _ (unless_ok tt q.update) ∙ unless_ok _ q.affected in
    (
      record db' { schedules = map (set_next r.schedule_id t) db'.schedules },
      rw (q.begin, unless_ok _ q.select, e) (after_enqueue_ok c env r db _ added q.commit written),
      t,
      later,
      ap (map (set_next r.schedule_id t)) same,
    )

-- If no statement fails and a schedule with a queue and a type is selected, whose next execution
-- cannot be computed, then the call adds a task, returns the error and leaves the schedules as they
-- were.
pub schedule_task_repeats :
    (c : Cron) (first last : ℕ) (env : TaskEnv) (db : Database) (r : ScheduleRow) {e : Error}
    → IsQuiet first last env
    → c.earliest (filter (is_due env) db.schedules) ≡ some r
    → r.task_queue ≢ ""
    → r.task_type ≢ ""
    → next_execution c r.cron_schedule env.later ≡ err e
    → ((schedule_task c env db).1 ≡ some e)
      × ((schedule_task c env db).0.schedules ≡ db.schedules)
      × (length (schedule_task c env db).0.tasks ≡ length db.tasks + 1)
unfolding schedule_task advance
schedule_task_repeats c first last env db r q found queue type bad =
    let added = enqueue-request env.enqueue r db queue type q.insert in
    let stopped : advance c env r added.0 ≡ err _ = ap (λ m. m >>= write_next env r added.0) bad in
    let done = after_enqueue_err c env r db _ added.1 q.rollback stopped in
    let all : schedule_task c env db ≡ (added.0, some _) =
      rw (q.begin, unless_ok _ q.select, found) done in
    (λ i. (all i).1, (λ i. (all i).0.schedules) ∙ added.2, (λ i. length (all i).0.tasks) ∙ added.3)

pub schedule_task-none :
    (c : Cron) (first last : ℕ) (env : TaskEnv) (db : Database)
    → IsQuiet first last env
    → c.earliest (filter (is_due env) db.schedules) ≡ none
    → schedule_task c env db ≡ (db, some schedule_queue_is_empty)
unfolding schedule_task end_tx
schedule_task-none c first last env db q e = rw (q.begin, unless_ok _ q.select, e, q.rollback)
