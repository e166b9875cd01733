-- ===== src/Queue/TaskWorker.antt =====
-- pkg/queue/workers/task_worker.go: taking a task, following its heartbeats, and closing it.
pub mod Postgres
pub mod Calls
use go_base.Base.{Option, none, some, List, [], ◌∷◌, String}
use go_base.Queue.{
  Error, task_cancelled, task_finished, task_not_running, task_not_found, heartbeat_timeout,
  no_rows, nil_task, Task,
}

-- queue.go, `Dequeuer`, over the state `S` of whatever stands behind it.
pub record Dequeuer (S : Type 0) : Type 0 where
  pub dequeue : S → S × Option Task × Option Error
  pub heartbeat : String → String → S → S × Option Error
  pub finish : String → String → S → S × Option Error
  pub fail : String → String → S → S × Option Error

-- What the `select` of `processHeartbeats` receives: `closed` is `!ok` on the channel.
pub data Event : Type 0 where
  cancelled : Error → Event
  ttl_fired : Event
  beat : String → Event
  closed : Event

-- How the goroutine of the handler ends. A panic is recovered, and `processDone` is closed with
-- no value in it.
pub data Ending : Type 0 where
  processed : Option Error → Ending
  panicked : Ending

-- `blocked`: the call waits for an event or an ending that never comes.
pub data Outcome : Type 0 where
  returned : Option Error → Outcome
  blocked : Outcome

-- `<-processDone`: a closed channel yields the nil error.
abbrev pub work_error : Ending → Option Error
work_error (processed e) = e
work_error panicked = none

-- The switch on a heartbeat's error: `none` for the four errors that only stop the loop.
abbrev pub fatal : Error → Option Error
fatal task_cancelled = none
fatal task_finished = none
fatal task_not_found = none
fatal task_not_running = none
fatal e = some e

module _ {S : Type 0} (d : Dequeuer S) (id : String) where
  -- After a heartbeat: go on, or return the progress and an error.
  abbrev pub after_beat : String → S × Option Error → S × String × Outcome → S × String × Outcome
  after_beat p (s, none) rest = rest
  after_beat p (s, some e) rest = (s, p, returned (fatal e))

  pub process_heartbeats : String → List Event → S → S × String × Outcome
  process_heartbeats progress [] s = (s, progress, blocked)
  process_heartbeats progress (cancelled e ∷ es) s = (s, progress, returned (some e))
  process_heartbeats progress (ttl_fired ∷ es) s = (s, progress, returned (some heartbeat_timeout))
  process_heartbeats progress (closed ∷ es) s = (s, progress, returned none)
  process_heartbeats progress (beat p ∷ es) s =
      let r = d.heartbeat id p s in let rest = process_heartbeats p es r.0 in after_beat p r rest

  abbrev pub answer : S × Option Error → S × Outcome
  answer (s, e) = (s, returned e)

  -- After the handler's own error. `set_error` stands for the JSON editing of `setError`.
  abbrev pub close_task : (String → Error → String) → String → Option Error → S → S × Outcome
  close_task set_error progress (some e) s = answer (d.fail id (set_error progress e) s)
  close_task set_error progress none s = answer (d.finish id progress s)

  -- `err == ErrHeartbeatTimeout` fails the task, another error leaves it, and none waits for the
  -- handler: `none` is a handler that never ends.
  abbrev pub after_heartbeats :
      (String → Error → String) → Option Ending → S × String × Outcome → S × Outcome
  after_heartbeats set_error ending (s, progress, blocked) = (s, blocked)
  after_heartbeats set_error ending (s, progress, returned (some heartbeat_timeout)) =
      answer (d.fail id (set_error progress heartbeat_timeout) s)
  after_heartbeats set_error ending (s, progress, returned (some e)) = (s, returned (some e))
  after_heartbeats set_error none (s, progress, returned none) = (s, blocked)
  after_heartbeats set_error (some ending) (s, progress, returned none) =
      close_task set_error progress (work_error ending) s

  unfoldable pub handle_task :
      (String → Error → String) → List Event → Option Ending → S → S × Outcome
  unfolding process_heartbeats
  handle_task set_error events ending s =
      after_heartbeats set_error ending (process_heartbeats "{}" events s)

-- What the `select` of `iteration` finds: a cancelled context, a span that is over, or neither.
pub data Selection : Type 0 where
  interrupted : Error → Selection
  span_over proceed : Selection

module _ {S : Type 0} (d : Dequeuer S) where
  -- An empty queue is no error; a nil task is one.
  abbrev pub after_dequeue :
      (String → Error → String)
      → List Event
      → Option Ending
      → S × Option Task × Option Error
      → S × Outcome
  after_dequeue set_error events ending (s, t, some no_rows) = (s, returned none)
  after_dequeue set_error events ending (s, t, some e) = (s, returned (some e))
  after_dequeue set_error events ending (s, none, none) = (s, returned (some nil_task))
  after_dequeue set_error events ending (s, some t, none) =
      handle_task d t.id set_error events ending s

  unfoldable pub iteration :
      Selection → (String → Error → String) → List Event → Option Ending → S → S × Outcome
  unfolding handle_task
  iteration (interrupted e) set_error events ending s = (s, returned (some e))
  iteration span_over set_error events ending s = (s, returned none)
  iteration proceed set_error events ending s = after_dequeue set_error events ending (d.dequeue s)
