-- ===== src/Queue/Examples/Schedules.antt =====
-- pkg/queue/postgres/scheduler.go and pkg/queue/workers/schedule_worker.go: concrete schedules.
use go_base.Base.{
  apart, ℕ, ◌≤◌, ◌+◌, ◌≡◌, refl, ap, false, Option, none, some, List, [], ◌∷◌, Memᴰ, String, ok,
  err, arith,
}
use go_base.Queue.{Error, driver, TaskScheduleRequest}
use go_base.Queue.Database.{ScheduleRow, Database}
use go_base.Queue.Examples.{sql}
use go_base.Queue.Examples.Tables.{tables, quiet_tx}
use go_base.Queue.Scheduler.{
  Formats, ScheduleEnv, AssertEnv, schedule, ensure_schedule, assert_schedule,
}
use go_base.Queue.Scheduler.Laws.{IsQuiet, AreKeys, assert_twice}
use go_base.Queue.ScheduleWorker.{Cron, TaskEnv, schedule_task, iteration, Outcome, returned}
use go_base.Queue.ScheduleWorker.Due.{due}
use go_base.Queue.ScheduleWorker.Task.{IsRunnable}
use go_base.Queue.ScheduleWorker.Iteration.{iteration_drains}

abbrev formats : Formats
formats = record { jsonb = λ s. s; cron_tab = λ s. none }

abbrev schedule_env : ScheduleEnv
schedule_env = record { now = 100; uuid = "s"; insert = none }

abbrev assert_env : AssertEnv
assert_env = record { tx = quiet_tx; lock = none; select = none; schedule = schedule_env }

abbrev request : Option String → TaskScheduleRequest
request spec = record {
  base = record { queue = "mail"; type = "send"; spec = spec };
  cron_schedule = "hourly";
  references = ("project", "x") ∷ [];
}

quiet : IsQuiet assert_env
quiet = record { begin = refl; commit = refl; lock = refl; select = refl; insert = refl }

are_keys : AreKeys (("project", "x") ∷ [])
are_keys k v (Memᴰ.head e) =
    let ek = ap (λ (p : String × String). p.0) e in
    let ev = ap (λ (p : String × String). p.1) e in rw (ek, ev) refl
are_keys k v (Memᴰ.tail m) = elim m [ ]

abbrev asserted : Database
asserted = (assert_schedule sql formats assert_env (request (some "{}")) tables).0

assert_test : assert_schedule sql formats assert_env (request (some "{}")) tables ≡ (asserted, none)
unfolding assert_schedule ensure_schedule schedule
assert_test = refl

assert_twice_example :
    assert_schedule sql formats assert_env (request (some "{}")) asserted ≡ (asserted, none)
assert_twice_example =
    assert_twice sql formats (request (some "{}")) assert_env assert_env "{}" tables refl are_keys
      assert_test quiet

-- The worker: an hour is 60, and the first of the rows comes first.
abbrev first : List ScheduleRow → Option ScheduleRow
first [] = none
first (r ∷ rs) = some r

first-none : (l : List ScheduleRow) → first l ≡ none → l ≡ []
first-none [] h = refl
first-none (r ∷ rs) h = absurd (cc)

first_mem : (l : List ScheduleRow) (r : ScheduleRow) → first l ≡ some r → Memᴰ r l
first_mem [] r h = absurd (cc)
first_mem (x ∷ xs) r h = let e : r ≡ x = cc in Memᴰ.head e

abbrev cron : Cron
cron = record {
  next = λ s t. ok (t + 60);
  earliest = first;
  earliest_none = first-none;
  earliest_mem = first_mem;
}

-- A round at a time: the clock goes on between the two readings of a round, and between rounds.
abbrev task_env : ℕ → TaskEnv
task_env now = record {
  now = now;
  later = now + 1;
  locked = λ r. false;
  tx = quiet_tx;
  select = none;
  enqueue = record { now = now; uuid = "d"; insert = none };
  update = none;
  affected = none;
}

abbrev hourly : ScheduleRow
hourly = record {
  schedule_id = "s";
  task_queue = "mail";
  task_type = "send";
  task_spec = "{}";
  cron_schedule = "hourly";
  next_execution_time = some 50;
  references = [];
}

abbrev rounds : List (Option Error × TaskEnv)
rounds = (none, task_env 100) ∷ (none, task_env 103) ∷ []

abbrev scheduled : Database
scheduled = record tables { schedules = hourly ∷ [] }

task_quiet :
    (now : ℕ)
    → 100 ≤ now
    → now ≤ 103
    → go_base.Queue.ScheduleWorker.Due.IsQuiet 100 103 (task_env now)
task_quiet now low high = record {
  since = low;
  until = high;
  later = omega arith;
  begin = refl;
  commit = refl;
  rollback = refl;
  select = refl;
  insert = refl;
  update = refl;
  affected = refl;
  unlocked = λ r. refl;
}

rounds_quiet :
    (ctx : Option Error) (env : TaskEnv)
    → Memᴰ (ctx, env) rounds
    → (ctx ≡ none) × go_base.Queue.ScheduleWorker.Due.IsQuiet 100 103 env
rounds_quiet ctx env (Memᴰ.head e) = (
  ap (λ (x : Option Error × TaskEnv). x.0) e,
  rw (ap (λ (x : Option Error × TaskEnv). x.1) e) (task_quiet 100 (omega arith) (omega arith)),
)
rounds_quiet ctx env (Memᴰ.tail (Memᴰ.head e)) = (
  ap (λ (x : Option Error × TaskEnv). x.0) e,
  rw (ap (λ (x : Option Error × TaskEnv). x.1) e) (task_quiet 103 (omega arith) (omega arith)),
)
rounds_quiet ctx env (Memᴰ.tail (Memᴰ.tail m)) = elim m [ ]

runnable : (r : ScheduleRow) → Memᴰ r (hourly ∷ []) → IsRunnable cron 100 103 r
runnable r (Memᴰ.head e) = rw e record {
  queue = apart "mail" "" refl;
  type = apart "send" "" refl;
  cron = λ many t le. (t + 60, refl, omega arith);
}
runnable r (Memᴰ.tail m) = elim m [ ]

iteration_drains_example :
    ((iteration cron rounds scheduled).1 ≡ returned none)
    × (due 100 (iteration cron rounds scheduled).0.schedules ≡ 0)
iteration_drains_example =
    iteration_drains cron 100 103 rounds scheduled rounds_quiet runnable (omega arith)

-- No expression of this parser has a next time.
abbrev bad_cron : Cron
bad_cron = record cron { next = λ s t. err (driver "bad expression") }
