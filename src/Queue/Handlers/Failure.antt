-- ===== src/Queue/Handlers/Failure.antt =====
-- pkg/queue/handlers: the heartbeat that tells of an error, and the close of the channel.
use go_base.Base.{
  ◌≡◌, ◌≢◌, refl, ap, ◌∙◌, ◌⊎◌, inl, inr, Bool, true, Option, none, some, List, [], ◌∷◌, ◌++◌, map,
  Memᴰ, Mem-snoc_inv, String, Bool-cases, Result, ok, err, arith,
}
use go_base.Http.Client.{HttpResponse}
use go_base.Queue.Handlers.{
  Error, serializing_heartbeat, no_handler_found, client, wrapped, unexpected_content_type,
  unexpected_status, system, Event, beat, closed, Session, after, send, send_error, close,
  find_handler, with_handler, dispatch,
}
use go_base.Queue.Handlers.Traverse.{after-state, IsKept, process_spec-P}
use go_base.Queue.Handlers.Sql.{SqlEnv, sql_body, sql_process}
use go_base.Queue.Handlers.Api.{
  Stage, unset, ApiRequestTaskSpec, ApiRequestProgress, no_progress, ApiSession, ApiEnv,
  set_progress, set_error, process_spec, process,
}

-- No progress that was sent, nor the present one, has an error message.
abbrev pub AreClean : List ApiRequestProgress → Type 0
AreClean l = (p : ApiRequestProgress) → Memᴰ p l → p.error_message ≡ none

abbrev pub Clean : Stage → ApiSession → Type 0
Clean stage s = AreClean s.beats × (s.progress.error_message ≡ none)

Clean-IsKept : (env : ApiEnv) → IsKept env Clean
Clean-IsKept env = record {
  sends = λ stage s v. elim (Bool-cases (env.marshals s.progress)) [
    | inl h ↦ rw h (
      λ p m. elim (Mem-snoc_inv s.beats m) [
        | inl k ↦ v.0 p k
        | inr e ↦ ap (λ (q : ApiRequestProgress). q.error_message) e ∙ v.1
      ],
      v.1,
    )
    | inr h ↦ rw h v
  ];
  moves = λ f from to s h e m v. (v.0, m s.progress ∙ v.1);
  stays = λ f stage s e m v. (v.0, m s.progress ∙ v.1);
}

-- What the channel of a task that failed with an error receives.
pub record Reported (text : String) (events : List (Event ApiRequestProgress)) : Type 0 where
  pub before : List ApiRequestProgress
  pub last : ApiRequestProgress
  pub received : events ≡ map (λ p. beat p) (before ++ last ∷ []) ++ closed ∷ []
  pub message : last.error_message ≡ some text
  pub clean : AreClean before

module _ (env : ApiEnv) where
  closing :
      (r : ApiSession × Result Error (Unit {0})) (e : Error)
      → ((p : ApiRequestProgress) → env.marshals p ≡ true)
      → e ≢ serializing_heartbeat
      → AreClean r.0.beats
      → (close env.marshals (set_error env) r).1 ≡ some e
      → Reported (env.text e) (close env.marshals (set_error env) r).0
  closing (s, ok u) e m n c h = absurd (cc)
  closing (s, err x) e m n c h = of_error x h
    where
      report :
          (y : Error)
          → y ≡ e
          → Reported (env.text e) (
              map (λ p. beat p) (send env.marshals (set_progress (set_error env y) s)).0.beats
              ++ closed ∷ [])
      report y q = rw (m _) record {
        before = s.beats;
        last = set_error env y s.progress;
        received = refl;
        message = ap (λ z. some (env.text z)) q;
        clean = c;
      }

      of_error :
          (y : Error)
          → (close env.marshals (set_error env) (s, err y)).1 ≡ some e
          → Reported (env.text e) (close env.marshals (set_error env) (s, err y)).0
      of_error serializing_heartbeat k = absurd (n (ground arith))
      of_error no_handler_found k = report _ (ground arith)
      of_error (client y) k = report _ (ground arith)
      of_error (wrapped t y) k = report _ (ground arith)
      of_error (unexpected_content_type t) k = report _ (ground arith)
      of_error (unexpected_status a b) k = report _ (ground arith)
      of_error (system t) k = report _ (ground arith)

  module _ (check : String → Option Error) {T : Type 0}
      (prepare : ApiRequestTaskSpec → Result Error T)
      (fetch : ApiRequestTaskSpec → T → Result Error HttpResponse) where
    -- If every progress can be serialized and an API task returns an error that is not that of the
    -- serializing, then the last heartbeat before the close has the text of that error, and no
    -- heartbeat before it has an error message.
    pub process-Reported :
        (spec : String) (e : Error)
        → ((p : ApiRequestProgress) → env.marshals p ≡ true)
        → e ≢ serializing_heartbeat
        → (process env check prepare fetch spec).1 ≡ some e
        → Reported (env.text e) (process env check prepare fetch spec).0
    unfolding process
    process-Reported spec e m n h =
        closing _ e m n
          (after-state (Clean unset) (λ s. AreClean s.beats)
            (record { beats = []; progress = no_progress }, env.unmarshal spec)
            (process_spec env check prepare fetch) (λ p k. elim k [ ], refl) (λ s k. k.0)
            (λ s x k. (process_spec-P env Clean (Clean-IsKept env) check prepare fetch s x k).1.0))
          h

-- What the worker that reads the channel relies on: some heartbeats, and then the close.
abbrev pub IsClosing : {P : Type 0} → List (Event P) → Type 0
IsClosing {P} events = (l : List P) × (events ≡ map (λ p. beat p) l ++ closed ∷ [])

-- The deferred functions of a handler make it so, whatever the handler did.
pub close-IsClosing :
    {P : Type 0} (marshals : P → Bool) (set : Error → P → P)
    (r : Session P × Result Error (Unit {0}))
    → IsClosing (close marshals set r).0
close-IsClosing marshals set r = ((send_error marshals set r).0.beats, refl)

pub sql_process-IsClosing : (env : SqlEnv) (spec : String) → IsClosing (sql_process env spec).0
unfolding sql_process
sql_process-IsClosing env spec =
    close-IsClosing env.marshals (go_base.Queue.Handlers.Sql.set_error env) (sql_body env spec)

-- If every handler sends some heartbeats and then closes the channel, once, then so does the
-- dispatcher, for every type of task, and it fails exactly as the handler of the type does, or because
-- there is none.
pub dispatch-IsClosing :
    {P T : Type 0} (run : T → List (Event P) × Option Error) (handlers : List (String × T))
    (type : String)
    → ((h : T) → IsClosing (run h).0)
    → IsClosing (dispatch run handlers type).0
      × (((find_handler type handlers ≡ none)
            × ((dispatch run handlers type).1 ≡ some no_handler_found))
          ⊎ ((h : T) × (find_handler type handlers ≡ some h)
              × (dispatch run handlers type ≡ run h)))
unfolding dispatch
dispatch-IsClosing {P} {T} run handlers type all = found (find_handler type handlers) refl
  where
    found :
        (o : Option T)
        → find_handler type handlers ≡ o
        → IsClosing (with_handler run o).0
          × (((find_handler type handlers ≡ none)
                × ((with_handler run o).1 ≡ some no_handler_found))
              ⊎ ((h : T) × (find_handler type handlers ≡ some h) × (with_handler run o ≡ run h)))
    found none e = (([], refl), inl (e, refl))
    found (some h) e = (all h, inr (h, e, refl))
