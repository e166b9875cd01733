-- ===== src/Queue/TaskWorker/Calls.antt =====
-- pkg/queue/workers/task_worker.go: the calls that the worker makes for one task.
use go_base.Base.{◌≡◌, refl, sym, subst, ◌∙◌, Option, none, some, List, [], ◌∷◌, ◌++◌, map, String}
use mathlib.Core.List.{append-nil, append_assoc}
use go_base.Queue.{Error, heartbeat_timeout}
use go_base.Queue.TaskWorker.{
  Dequeuer, Event, cancelled, ttl_fired, beat, closed, Ending, Outcome, returned, blocked,
  work_error, after_beat, process_heartbeats, close_task, after_heartbeats, handle_task,
}

pub data Call : Type 0 where
  beats finishes fails : String → String → Call

-- The same dequeuer, with the calls written down in order.
unfoldable pub logged : {S : Type 0} → Dequeuer S → Dequeuer (S × List Call)
logged d = record {
  dequeue = λ (s, log). let r = d.dequeue s in ((r.0, log), r.1, r.2);
  heartbeat = λ id p (s, log). let r = d.heartbeat id p s in ((r.0, log ++ beats id p ∷ []), r.1);
  finish = λ id p (s, log). let r = d.finish id p s in ((r.0, log ++ finishes id p ∷ []), r.1);
  fail = λ id p (s, log). let r = d.fail id p s in ((r.0, log ++ fails id p ∷ []), r.1);
}

module _ {S : Type 0} (d : Dequeuer S) (id : String) where
  -- The log after some heartbeats.
  abbrev Beaten : List Call → List Call → Type 0
  Beaten log log' = (ps : List String) × (log' ≡ log ++ map (beats id) ps)

  Beaten-next :
      (log : List Call) (p : String) {log' : List Call}
      → Beaten (log ++ beats id p ∷ []) log'
      → Beaten log log'
  Beaten-next log p (ps, e) = (p ∷ ps, e ∙ append_assoc log (beats id p ∷ []) (map (beats id) ps))

  process_heartbeats-Beaten :
      (progress : String) (events : List Event) (s : S) (log : List Call)
      → Beaten log (process_heartbeats (logged d) id progress events (s, log)).0.1
  unfolding process_heartbeats logged
  process_heartbeats-Beaten progress [] s log = ([], sym (append-nil log))
  process_heartbeats-Beaten progress (cancelled e ∷ es) s log = ([], sym (append-nil log))
  process_heartbeats-Beaten progress (ttl_fired ∷ es) s log = ([], sym (append-nil log))
  process_heartbeats-Beaten progress (closed ∷ es) s log = ([], sym (append-nil log))
  process_heartbeats-Beaten progress (beat p ∷ es) s log =
      let ih = process_heartbeats-Beaten p es (d.heartbeat id p s).0 (log ++ beats id p ∷ []) in
      go (d.heartbeat id p s).1 (Beaten-next log p ih)
    where
      go :
          (e : Option Error)
          → Beaten log
              (process_heartbeats
                (logged d)
                id
                p
                es
                ((d.heartbeat id p s).0, log ++ beats id p ∷ [])).0.1
          → Beaten log
              (after_beat
                (logged d)
                id
                p
                (((d.heartbeat id p s).0, log ++ beats id p ∷ []), e)
                (process_heartbeats
                  (logged d)
                  id
                  p
                  es
                  ((d.heartbeat id p s).0, log ++ beats id p ∷ []))).0.1
      go none b = b
      go (some x) b = (p ∷ [], refl)

  -- The call that closes a task, if there is one. `Finish` is called only after the handler ended
  -- without an error.
  pub data Closing (ending : Option Ending) : List Call → Type 0 where
    left : Closing ending []
    failed : (p : String) → Closing ending (fails id p ∷ [])
    finished :
        (p : String) (e : Ending)
        → ending ≡ some e
        → work_error e ≡ none
        → Closing ending (finishes id p ∷ [])

  abbrev pub Handled : Option Ending → List Call → Type 0
  Handled ending log =
      (ps : List String) × (final : List Call) × Closing ending final
      × (log ≡ map (beats id) ps ++ final)

  close_task-Handled :
      (set_error : String → Error → String) (progress : String) (ending : Ending) (s : S)
      (ps : List String)
      → Handled
          (some ending)
          (close_task
            (logged d)
            id
            set_error
            progress
            (work_error ending)
            (s, map (beats id) ps)).0.1
  unfolding logged
  close_task-Handled set_error progress ending s ps = go (work_error ending) refl
    where
      go :
          (e : Option Error)
          → work_error ending ≡ e
          → Handled
              (some ending)
              (close_task (logged d) id set_error progress e (s, map (beats id) ps)).0.1
      go none h = (ps, _, finished progress ending refl h, refl)
      go (some x) h = (ps, _, failed (set_error progress x), refl)

  after_heartbeats-Handled :
      (set_error : String → Error → String) (ending : Option Ending) (s : S) (ps : List String)
      (progress : String) (o : Outcome)
      → Handled ending
          (after_heartbeats
            (logged d)
            id
            set_error
            ending
            ((s, map (beats id) ps), progress, o)).0.1
  unfolding logged
  after_heartbeats-Handled set_error ending s ps progress blocked =
      (ps, [], left, sym (append-nil _))
  after_heartbeats-Handled set_error ending s ps progress (returned (some heartbeat_timeout)) =
      (ps, _, failed _, refl)
  after_heartbeats-Handled set_error ending s ps progress (returned (some _)) =
      (ps, [], left, sym (append-nil _))
  after_heartbeats-Handled set_error none s ps progress (returned none) =
      (ps, [], left, sym (append-nil _))
  after_heartbeats-Handled set_error (some ending) s ps progress (returned none) =
      close_task-Handled set_error progress ending s ps

  -- Over any dequeuer and any events, the worker sends heartbeats for its task, and after them
  -- makes at most one call of `Finish` or `Fail`, and `Finish` only if the handler ended with no
  -- error in its channel.
  pub handle_task-Handled :
      (set_error : String → Error → String) (events : List Event) (ending : Option Ending) (s : S)
      → Handled ending (handle_task (logged d) id set_error events ending (s, [])).0.1
  unfolding handle_task
  handle_task-Handled set_error events ending s =
      let r = process_heartbeats (logged d) id "{}" events (s, []) in
      let (ps, e) = process_heartbeats-Beaten "{}" events s [] in
      subst
        (λ (log : List Call).
          Handled ending
            (after_heartbeats (logged d) id set_error ending ((r.0.0, log), r.1, r.2)).0.1)
        (sym e) (after_heartbeats-Handled set_error ending r.0.0 ps r.1 r.2)
