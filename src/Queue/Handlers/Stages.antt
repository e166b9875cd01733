-- ===== src/Queue/Handlers/Stages.antt =====
-- pkg/queue/handlers: the order of the stages that an API task reports.
use go_base.Base.{
  ℕ, ◌≤◌, ◌≡◌, refl, sym, ap, subst, ◌∙◌, inl, inr, Bool, Option, List, [], ◌∷◌, ◌++◌, map, String,
  Bool-cases, Result, ok, err, arith,
}
use go_base.Http.Client.{HttpResponse}
use go_base.Queue.Handlers.{
  Error, serializing_heartbeat, beat, closed, send, send_error, beats_of, no_handler_found, client,
  wrapped, system, unexpected_status, unexpected_content_type,
}
use go_base.Queue.Handlers.Traverse.{rank, after-state, IsKept, process_spec-P}
use go_base.Queue.Handlers.Api.{
  Stage, unset, ApiRequestTaskSpec, ApiRequestProgress, no_progress, ApiSession, ApiEnv,
  set_progress, set_error, process_spec, process,
}

-- The stages never go back, and the present one is not before the last that was sent.
abbrev pub last_rank : ℕ → List ApiRequestProgress → ℕ
last_rank n [] = n
last_rank n (p ∷ ps) = last_rank (rank p.stage) ps

abbrev pub AreOrdered : ℕ → List ApiRequestProgress → Type 0
AreOrdered n [] = Unit {0}
AreOrdered n (p ∷ ps) = (n ≤ rank p.stage) × AreOrdered (rank p.stage) ps

pub record Inv (s : ApiSession) : Type 0 where
  pub ordered : AreOrdered 0 s.beats
  pub reached : last_rank 0 s.beats ≤ rank s.progress.stage

AreOrdered-snoc :
    (n : ℕ) (l : List ApiRequestProgress) (p : ApiRequestProgress)
    → AreOrdered n l
    → last_rank n l ≤ rank p.stage
    → AreOrdered n (l ++ p ∷ [])
AreOrdered-snoc n [] p o h = (h, tt)
AreOrdered-snoc n (x ∷ xs) p (a, o) h = (a, AreOrdered-snoc (rank x.stage) xs p o h)

last_rank-snoc :
    (n : ℕ) (l : List ApiRequestProgress) (p : ApiRequestProgress)
    → last_rank n (l ++ p ∷ []) ≡ rank p.stage
last_rank-snoc n [] p = refl
last_rank-snoc n (x ∷ xs) p = last_rank-snoc (rank x.stage) xs p

send-Inv : (marshals : ApiRequestProgress → Bool) (s : ApiSession) → Inv s → Inv (send marshals s).0
send-Inv marshals s v = elim (Bool-cases (marshals s.progress)) [
  | inl h ↦ rw h record {
    ordered = AreOrdered-snoc 0 s.beats s.progress v.ordered v.reached;
    reached = omega (arith, last_rank-snoc 0 s.beats s.progress);
  }
  | inr h ↦ rw h v
]

pub beats_of-closed :
    (l : List ApiRequestProgress) → beats_of (map (λ p. beat p) l ++ closed ∷ []) ≡ l
beats_of-closed [] = refl
beats_of-closed (p ∷ ps) = ap (λ (l : List ApiRequestProgress). p ∷ l) (beats_of-closed ps)

pub send-progress :
    (marshals : ApiRequestProgress → Bool) (s : ApiSession)
    → (send marshals s).0.progress ≡ s.progress
send-progress marshals s = elim (Bool-cases (marshals s.progress)) [
  | inl h ↦ rw h refl
  | inr h ↦ rw h refl
]

-- The invariant with the stage that the session is in.
abbrev pub InStage : Stage → ApiSession → Type 0
InStage stage s = Inv s × (s.progress.stage ≡ stage)

send-InStage :
    (marshals : ApiRequestProgress → Bool) (stage : Stage) (s : ApiSession)
    → InStage stage s
    → InStage stage (send marshals s).0
send-InStage marshals stage s (v, e) =
    (send-Inv marshals s v, ap (λ (p : ApiRequestProgress). p.stage) (send-progress marshals s) ∙ e)

module _ (env : ApiEnv) where
  InStage-IsKept : IsKept env InStage
  InStage-IsKept = record {
    sends = λ stage s v. send-InStage env.marshals stage s v;
    moves = λ f from to s h e m v. (
      record {
        ordered = v.0.ordered;
        reached = omega (arith, v.0.reached, ap rank v.1, ap rank (e s.progress), h);
      },
      e s.progress,
    );
    stays = λ f stage s e m v. (
      record {
        ordered = v.0.ordered;
        reached = omega (arith, v.0.reached, ap rank (e s.progress));
      },
      e s.progress ∙ v.1,
    );
  }

  send_error-Inv :
      (r : ApiSession × Result Error (Unit {0}))
      → Inv r.0
      → Inv (send_error env.marshals (set_error env) r).0
  send_error-Inv (s, ok u) v = v
  send_error-Inv (s, err e) v = of_error e
    where
      sent : (x : Error) → Inv (send env.marshals (set_progress (set_error env x) s)).0
      sent x =
          send-Inv env.marshals (set_progress (set_error env x) s)
            record { ordered = v.ordered; reached = v.reached }

      of_error : (x : Error) → Inv (send_error env.marshals (set_error env) (s, err x)).0
      of_error serializing_heartbeat = v
      of_error no_handler_found = sent _
      of_error (client x) = sent _
      of_error (wrapped t x) = sent _
      of_error (unexpected_content_type t) = sent _
      of_error (unexpected_status a b) = sent _
      of_error (system t) = sent _

  module _ (check : String → Option Error) {T : Type 0}
      (prepare : ApiRequestTaskSpec → Result Error T)
      (fetch : ApiRequestTaskSpec → T → Result Error HttpResponse) where
    -- The stages that an API task reports never go back: `preparing`, `pending` and `response` come
    -- in this order, ticks, errors and the duration included.
    pub process-AreOrdered :
        (spec : String) → AreOrdered 0 (beats_of (process env check prepare fetch spec).0)
    unfolding process
    process-AreOrdered spec =
        let final = send_error-Inv _ (
          after-state (InStage unset) Inv
            (record { beats = []; progress = no_progress }, env.unmarshal spec)
            (process_spec env check prepare fetch)
            (record { ordered = tt; reached = omega arith }, refl) (λ s k. k.0)
            (λ s x k. (process_spec-P env InStage InStage-IsKept check prepare fetch s x k).1.0)) in
        subst (AreOrdered 0) (sym (beats_of-closed _)) final.ordered
