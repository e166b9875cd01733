-- ===== src/Queue/Examples/Tables.antt =====
-- pkg/queue: two tasks of one queue that wait, and a task of another queue that runs.
use go_base.Base.{apart, ◌≡◌, refl, Memᴰ, ℕ, none, some, [], ◌∷◌, List, String}
use go_base.Queue.{waiting, running, Task}
use go_base.Queue.Database.{TaskRow, Database, Tx}
use go_base.Queue.Dequeuer.{AttemptEnv}
use go_base.Queue.Progress.{ProgressEnv}

abbrev pub waiting_task : String → ℕ → Task
waiting_task id now = record {
  base = record { queue = "mail"; type = "send"; spec = some "{}" };
  id = id;
  status = waiting;
  progress = "{}";
  created_at = now;
  updated_at = now;
  started_at = none;
  finished_at = none;
  last_heartbeat_at = none;
}

abbrev pub running_task : String → Task
running_task id = record {
  base = record { queue = "print"; type = "draw"; spec = some "{}" };
  id = id;
  status = running;
  progress = "{}";
  created_at = 3;
  updated_at = 3;
  started_at = some 90;
  finished_at = none;
  last_heartbeat_at = some 95;
}

abbrev pub row : Task → TaskRow
row t = record { task = t; references = [] }

abbrev pub tables : Database
tables = record {
  tasks = row (waiting_task "a" 1) ∷ row (waiting_task "b" 2) ∷ row (running_task "c") ∷ [];
  schedules = [];
}

abbrev pub quiet_tx : Tx
quiet_tx = record { begin = none; commit = none; rollback = none }

abbrev pub attempt_env : AttemptEnv
attempt_env = record {
  now = 100;
  draw = λ n. 0;
  tx = quiet_tx;
  list_unfinished = none;
  list_inflight = none;
  select = none;
  update = none;
}

abbrev pub progress_env : ProgressEnv
progress_env = record { now = 100; tx = quiet_tx; select = none; update = none }

abbrev pub queues : List String
queues = "mail" ∷ "print" ∷ []

-- What an attempt takes from these tables.
abbrev pub taken_task : Task
taken_task = record (waiting_task "b" 2) { started_at = some 100; last_heartbeat_at = some 100 }

-- What it leaves.
abbrev pub taken_tables : Database
taken_tables = record tables {
  tasks =
      row (waiting_task "a" 1)
      ∷ row (record (taken_task) { status = running })
      ∷ row (running_task "c")
      ∷ [];
}

-- The other task of the queue, and the tables with both running.
abbrev pub other_task : Task
other_task = record (waiting_task "a" 1) { started_at = some 100; last_heartbeat_at = some 100 }

abbrev pub both_tables : Database
both_tables = record tables {
  tasks =
      row (record (other_task) { status = running })
      ∷ row (record (taken_task) { status = running })
      ∷ row (running_task "c")
      ∷ [];
}

-- What holds of each of the three rows holds of every row of `tables`.
pub each :
    (P : TaskRow → Type 0)
    → P (row (waiting_task "a" 1))
    → P (row (waiting_task "b" 2))
    → P (row (running_task "c"))
    → (r : TaskRow) → Memᴰ r tables.tasks
    → P r
each P a b c r (Memᴰ.head e) = rw e a
each P a b c r (Memᴰ.tail (Memᴰ.head e)) = rw e b
each P a b c r (Memᴰ.tail (Memᴰ.tail (Memᴰ.head e))) = rw e c
each P a b c r (Memᴰ.tail (Memᴰ.tail (Memᴰ.tail m))) = elim m [ ]

-- The identifiers of `tables` are a key.
pub keys : (r s : TaskRow) → Memᴰ r tables.tasks → Memᴰ s tables.tasks → r.id ≡ s.id → r ≡ s
keys r s m =
    each (λ (x : TaskRow). (y : TaskRow) → Memᴰ y tables.tasks → x.id ≡ y.id → x ≡ y)
      (each (λ (y : TaskRow). "a" ≡ y.id → row (waiting_task "a" 1) ≡ y) (λ e. refl)
        (λ e. absurd (apart "a" "b" refl e)) (λ e. absurd (apart "a" "c" refl e)))
      (each (λ (y : TaskRow). "b" ≡ y.id → row (waiting_task "b" 2) ≡ y)
        (λ e. absurd (apart "b" "a" refl e)) (λ e. refl) (λ e. absurd (apart "b" "c" refl e)))
      (each (λ (y : TaskRow). "c" ≡ y.id → row (running_task "c") ≡ y)
        (λ e. absurd (apart "c" "a" refl e)) (λ e. absurd (apart "c" "b" refl e)) (λ e. refl))
      r m s
