-- ===== src/Queue/Examples/Dequeue.antt =====
-- pkg/queue/postgres/dequeuer.go: attempts on the concrete tables.
use go_base.Base.{
  ◌≡◌, refl, sym, ap, ◌∙◌, ◌≢◌, true, none, some, Memᴰ, String, [], ◌∷◌, arith, ok, map, str_eq,
  if◌then◌else◌,
}
use go_base.Queue.{Task, running}
use go_base.Queue.Database.{TaskRow, Database}
use go_base.Queue.Examples.{sql}
use go_base.Queue.Examples.Tables.{
  waiting_task, running_task, row, tables, attempt_env, queues, taken_task, taken_tables, each,
  keys, other_task, both_tables,
}
use go_base.Queue.Dequeuer.{attempt_dequeue, is_inflight}
use go_base.Queue.Dequeuer.Exclusive.{
  AreFolded, IsExclusive, attempt_exclusive, attempt-IsExclusive,
}
use go_base.Queue.Dequeuer.Effect.{attempt_marks}
use go_base.Queue.Dequeuer.Liveness.{IsQuiet, attempt_takes}
use go_base.Queue.Dequeuer.Race.{interleaved, interleaved-not-IsExclusive}

attempt_tables :
    attempt_dequeue sql 10 attempt_env queues tables ≡ (taken_tables, some taken_task, none)
unfolding attempt_dequeue
attempt_tables = refl

folded : AreFolded sql queues tables
folded = record { rows = λ r m. refl; asked = λ q m. refl }

-- Only the third row is in flight.
inflight_c :
    (r : TaskRow) → Memᴰ r tables.tasks → is_inflight 80 r ≡ true → r ≡ row (running_task "c")
inflight_c =
    each (λ (r : TaskRow). is_inflight 80 r ≡ true → r ≡ row (running_task "c")) (λ h. cc) (λ h. cc)
      (λ h. refl)

exclusive : IsExclusive sql 80 tables
exclusive r s mr ms ir is_ same =
    ap (λ (x : TaskRow). x.id) (inflight_c r mr ir ∙ sym (inflight_c s ms is_))

quiet : IsQuiet attempt_env
quiet = record {
  begin = refl;
  commit = refl;
  inflight = refl;
  select = refl;
  update = refl;
  in_range = λ n. omega arith;
}

attempt_exclusive_example : (running_task "c").queue ≢ taken_task.queue
attempt_exclusive_example =
    attempt_exclusive sql 10 attempt_env queues tables (row (running_task "c")) attempt_tables
      folded (Memᴰ.tail (Memᴰ.tail (Memᴰ.head refl))) refl

attempt-IsExclusive_example : IsExclusive sql 80 taken_tables
attempt-IsExclusive_example =
    attempt-IsExclusive sql 10 attempt_env queues tables attempt_tables folded keys exclusive

attempt_marks_example :
    (taken_tables.schedules ≡ tables.schedules)
    × (taken_tables.tasks
        ≡ map
            (λ (r : TaskRow).
              if str_eq r.task.id "b"
              then record r {
                task = record r.task {
                  status = running;
                  started_at = some 100;
                  last_heartbeat_at = some 100;
                };
              }
              else r)
            tables.tasks)
    × (taken_task.started_at ≡ some 100)
    × (taken_task.last_heartbeat_at ≡ some 100)
attempt_marks_example = attempt_marks sql 10 attempt_env queues tables attempt_tables

attempt_takes_example :
    (d : Database) × (t : Task) × (attempt_dequeue sql 10 attempt_env ("mail" ∷ []) tables
      ≡ (d, some t, none))
attempt_takes_example =
    attempt_takes sql 10 attempt_env tables quiet "mail" "mail" [] (Memᴰ.head refl)
      (each (λ (r : TaskRow). is_inflight 80 r ≡ true → r.queue ≢ "mail") (λ h e. cc) (λ h e. cc)
        (λ h e. cc))
      mail_waits
  where
    mail_waits :
        (c : String)
        → Memᴰ c ("mail" ∷ [])
        → (r : TaskRow) × Memᴰ r tables.tasks × (r.queue ≡ c) × (r.started_at ≡ none)
    mail_waits c (Memᴰ.head e) = (row (waiting_task "a" 1), Memᴰ.head refl, sym e, refl)
    mail_waits c (Memᴰ.tail m) = elim m [ ]

-- Two attempts on the tables, where the second one finds the first task of the queue.
both_attempts :
    interleaved sql 10 attempt_env attempt_env ("mail" ∷ []) tables
    ≡ ok (both_tables, some taken_task, some other_task)
unfolding interleaved
both_attempts = refl

interleaved-not-IsExclusive_example : ¬ IsExclusive sql 80 both_tables
interleaved-not-IsExclusive_example =
    interleaved-not-IsExclusive sql 10 attempt_env attempt_env ("mail" ∷ []) tables 80 both_attempts
      refl refl refl (omega arith) (omega arith) (omega arith)
