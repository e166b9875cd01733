-- ===== src/Queue/Examples/Life.antt =====
-- pkg/queue/postgres: sequences of calls, and the waiting `Dequeue`, on the concrete tables.
use go_base.Base.{refl, true, false, none, Memᴰ, [], ◌∷◌, arith}
use go_base.Queue.Database.{Database}
use go_base.Queue.Examples.{sql}
use go_base.Queue.Examples.Tables.{
  running_task, row, tables, taken_task, queues, attempt_env, progress_env, each, keys,
}
use go_base.Queue.Progress.{set_progress, update_progress}
use go_base.Queue.Lifecycle.{Reach, Step}
use go_base.Queue.Lifecycle.Sound.{IsSound, Sound}
use go_base.Queue.Lifecycle.Reachable.{Reach-Sound, finished_kept}
use go_base.Queue.Dequeuer.{attempt_dequeue}
use go_base.Queue.Dequeuer.Wait.{Takes, notified, dequeue, dequeue-Takes}

sound : Sound tables
sound = record { keys = keys; rows = each IsSound (ground arith) (ground arith) (ground arith) }

abbrev finished_tables : Database
finished_tables = (update_progress progress_env "c" "{}" true false tables).0

finishes : Reach sql 10 tables finished_tables
finishes = Reach.next Reach.here (Step.updates progress_env "c" "{}" true false)

Reach-Sound_example : Sound finished_tables
Reach-Sound_example = Reach-Sound sql 10 sound finishes

abbrev after_tables : Database
after_tables = (attempt_dequeue sql 10 attempt_env queues finished_tables).0

taken_after : Reach sql 10 finished_tables after_tables
taken_after = Reach.next Reach.here (Step.attempts attempt_env queues)

finished_kept_example :
    Memᴰ (row (set_progress 100 "{}" true false (running_task "c"))) after_tables.tasks
unfolding update_progress
finished_kept_example =
    finished_kept sql 10 (Reach-Sound sql 10 sound finishes)
      (Memᴰ.tail (Memᴰ.tail (Memᴰ.head refl))) refl taken_after

-- The first attempt finds no task, the second one those that another client added.
dequeue-Takes_example :
    Takes sql 10 queues attempt_env none
      (notified (λ db. tables) attempt_env none ∷ [])
      (record tables { tasks = [] })
      (dequeue sql 10 queues attempt_env none none
        (notified (λ db. tables) attempt_env none ∷ [])
        (record tables { tasks = [] })).0
      taken_task
unfolding dequeue attempt_dequeue
dequeue-Takes_example =
    dequeue-Takes sql 10 queues attempt_env none none
      (notified (λ db. tables) attempt_env none ∷ []) (record tables { tasks = [] }) refl
