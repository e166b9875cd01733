-- ===== src/Queue/ScheduleWorker/Iteration.antt =====
-- pkg/queue/workers/schedule_worker.go: that an iteration ends with nothing due.
use go_base.Base.{
  ℕ, ◌<◌, ◌≡◌, refl, ap, true, Option, none, some, List, [], ◌∷◌, map, filter, Memᴰ, String, str_eq,
  arith, length, Option-cases, Bool-cases, inl, inr, Mem-filter_inv, Mem-map_inv,
}
use go_base.Queue.{Error, schedule_queue_is_empty}
use go_base.Queue.Database.{ScheduleRow, Database}
use go_base.Queue.ScheduleWorker.{
  Cron, TaskEnv, is_due, set_next, schedule_task, returned, after_task, iteration, null_le,
}
use go_base.Queue.ScheduleWorker.Due.{IsQuiet, due, due-set_next-lt, no_due, null_le_late}
use go_base.Queue.ScheduleWorker.Task.{IsRunnable, schedule_task-some, schedule_task-none}

IsRunnable-set_next :
    (c : Cron) (first last : ℕ) (id : String) (t : Option ℕ) (rows : List ScheduleRow)
    → ((r : ScheduleRow) → Memᴰ r rows → IsRunnable c first last r)
    → (r : ScheduleRow) → Memᴰ r (map (set_next id t) rows)
    → IsRunnable c first last r
IsRunnable-set_next c first last id t rows h r m =
    let (x, m', e) = Mem-map_inv (set_next id t) rows m in
    let run = h x m' in
    elim (Bool-cases (str_eq x.schedule_id id)) [
      | inl b ↦
          let e' : r ≡ record x { next_execution_time = t } = ground arith in
          rw e' record { queue = run.queue; type = run.type; cron = run.cron }
      | inr b ↦ let e' : r ≡ x = ground arith in rw e' run
    ]

module _ (c : Cron) (env : TaskEnv) (envs : List (Option Error × TaskEnv)) (db : Database)
    {d : Database} where
  iteration_next :
      schedule_task c env db ≡ (d, none) → iteration c ((none, env) ∷ envs) db ≡ iteration c envs d
  unfolding iteration
  iteration_next h = ap (λ r. after_task r (iteration c envs r.0)) h

  iteration_over :
      schedule_task c env db ≡ (d, some schedule_queue_is_empty)
      → iteration c ((none, env) ∷ envs) db ≡ (d, returned none)
  unfolding iteration
  iteration_over h = ap (λ r. after_task r (iteration c envs r.0)) h

-- If no statement fails, no row is locked and every reading of the clock in the iteration lies from
-- a first time to a last, every schedule has a queue, a type and no cron expression or one that
-- from the first time on has a next time after the last, and there are more rounds than schedules
-- that are due at the last time, then an iteration ends without an error and leaves no schedule
-- that is due at the first time.
pub iteration_drains :
    (c : Cron) (first last : ℕ) (envs : List (Option Error × TaskEnv)) (db : Database)
    → ((ctx : Option Error) (env : TaskEnv)
        → Memᴰ (ctx, env) envs
        → (ctx ≡ none) × IsQuiet first last env)
    → ((r : ScheduleRow) → Memᴰ r db.schedules → IsRunnable c first last r)
    → due last db.schedules < length envs
    → ((iteration c envs db).1 ≡ returned none) × (due first (iteration c envs db).0.schedules ≡ 0)
iteration_drains c first last [] db q run lt = absurd (omega arith)
iteration_drains c first last ((ctx, env) ∷ envs) db q run lt =
    let (live, quiet) = q ctx env (Memᴰ.head refl) in
    elim (Option-cases (c.earliest (filter (is_due env) db.schedules))) [
      | inl e ↦
          let over =
            iteration_over c env envs db (schedule_task-none c first last env db quiet e) in
          let done = no_due first last env db.schedules quiet (c.earliest_none _ e) in
          (rw (live, over), rw (live, over) done)
      | inr (r, e) ↦
          let (member, picked) = Mem-filter_inv (is_due env) db.schedules (c.earliest_mem _ r e) in
          let (d, one, t, later, changed) =
            schedule_task-some c first last env db r quiet (run r member) e in
          let is_now : null_le r.next_execution_time env.now ≡ true = ground arith in
          let due_last = null_le_late r.next_execution_time env.now last quiet.until is_now in
          let less : due last d.schedules < due last db.schedules =
            rw changed (due-set_next-lt last r t db.schedules later member due_last) in
          let (ends, clear) =
            iteration_drains c first last envs d (λ x y m. q x y (Memᴰ.tail m))
              (rw changed (IsRunnable-set_next c first last r.schedule_id t db.schedules run))
              (omega arith) in
          let step = iteration_next c env envs db one in
          (rw (live, step) ends, rw (live, step) clear)
    ]
