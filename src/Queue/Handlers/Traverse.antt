-- ===== src/Queue/Handlers/Traverse.antt =====
-- pkg/queue/handlers: what holds of an API task at every point holds of what it leaves.
use go_base.Base.{
  ℕ, zero, suc, ◌≤◌, ◌≡◌, refl, inl, inr, Option, some, List, [], ◌∷◌, String, Bool-cases, Result,
  ok, err, arith,
}
use go_base.Http.Client.{HttpResponse}
use go_base.Queue.Handlers.{Error, after, send}
use go_base.Queue.Handlers.Api.{
  Stage, unset, preparing, pending, response, ApiRequestTaskSpec, ApiRequestProgress, ApiSession,
  Round, ApiEnv, set_progress, set_stage, tick, read_rounds, got, take_response, send_duration,
  process_spec,
}

abbrev pub rank : Stage → ℕ
rank unset = 0
rank preparing = 1
rank pending = 2
rank response = 3

-- What holds of the session that a step leaves and of the sessions that the rest leaves.
pub after-state {ℓ κ} :
    {A : Type ℓ} {B : Type κ} (P Q : ApiSession → Type 0) (r : ApiSession × Result Error A)
    (next : ApiSession → A → ApiSession × Result Error B)
    → P r.0
    → ((s : ApiSession) → P s → Q s)
    → ((s : ApiSession) (a : A) → P s → Q (next s a).0)
    → Q (after r next).0
unfolding after
after-state P Q (s, err e) next h f k = f s h
after-state P Q (s, ok a) next h f k = k s a h

abbrev pub Update : Type 0
Update = ApiRequestProgress → ApiRequestProgress

-- A predicate on the session in each stage, which sending keeps, and which every change keeps that
-- leaves the error message and does not go back in the stages.
pub record IsKept (env : ApiEnv) (P : Stage → ApiSession → Type 0) : Type 0 where
  pub sends : (stage : Stage) (s : ApiSession) → P stage s → P stage (send env.marshals s).0
  pub moves :
      (f : Update) (from to : Stage) (s : ApiSession)
      → rank from ≤ rank to
      → ((p : ApiRequestProgress) → (f p).stage ≡ to)
      → ((p : ApiRequestProgress) → (f p).error_message ≡ p.error_message)
      → P from s
      → P to (set_progress f s)
  pub stays :
      (f : Update) (stage : Stage) (s : ApiSession)
      → ((p : ApiRequestProgress) → (f p).stage ≡ p.stage)
      → ((p : ApiRequestProgress) → (f p).error_message ≡ p.error_message)
      → P stage s
      → P stage (set_progress f s)

module _ (env : ApiEnv) (P : Stage → ApiSession → Type 0) (kept : IsKept env P)
    (check : String → Option Error) where
  -- In some stage.
  abbrev pub Some : ApiSession → Type 0
  Some s = (stage : Stage) × P stage s

  tick-P : (n : ℕ) (stage : Stage) (s : ApiSession) → P stage s → P stage (tick env n s)
  tick-P zero stage s v = v
  tick-P (suc n) stage s v = tick-P n stage (send env.marshals s).0 (kept.sends stage s v)

  read_rounds-P :
      (rs : List Round) (ticks : ℕ) (ctx : Option Error) (s : ApiSession)
      → P response s
      → P response (read_rounds env check rs ticks ctx s).0
  unfolding read_rounds
  read_rounds-P [] ticks ctx s v = tick-P ticks response s v
  read_rounds-P (r ∷ rs) ticks ctx s v =
      after-state (P response) (P response) _ _ (tick-P r.ticks response s v) (λ s' h. h)
        (λ s' m h.
          after-state (P response) (P response) _ _
            (after-state (P response) (P response) _ _ h (λ s'' k. k)
              (λ s'' u k.
                kept.sends response (set_progress (λ p. record p { returned_body = some m }) s'') (
                  kept.stays (λ p. record p { returned_body = some m }) response s'' (λ p. refl)
                    (λ p. refl) k)))
            (λ s'' k. k) (λ s'' u k. read_rounds-P rs ticks ctx s'' k))

  take_response-P :
      (spec : ApiRequestTaskSpec) (s : ApiSession) (resp : HttpResponse)
      → P pending s
      → Some (take_response env check spec s resp).0
  take_response-P spec s resp v = elim (Bool-cases (env.contains_json (env.content_type resp))) [
    | inr h ↦ rw h (pending, v)
    | inl h ↦ rw h (
        after-state (P response) Some _ _
          (kept.sends response (set_progress (got env check resp) s) (
            kept.moves (got env check resp) pending response s (omega arith) (λ p. refl) (λ p. refl)
              v))
          (λ s' k. (response, k))
          (λ s' u k.
            after-state (P response) Some _ _
              (read_rounds-P (env.rounds resp) (env.last_ticks resp) (env.last_ctx resp) s' k)
              (λ s'' i. (response, i)) (λ s'' u' i. (response, i))))
  ]

  with_duration-P :
      (r : ApiSession × Result Error (Unit {0})) → Some r.0 → Some (send_duration env check r).0
  with_duration-P (s, r) (stage, v) = (
    stage,
    kept.sends stage (set_progress (λ p. record p { duration = some env.took }) s)
        (kept.stays (λ p. record p { duration = some env.took }) stage s (λ p. refl) (λ p. refl) v),
  )

  module _ {T : Type 0} (prepare : ApiRequestTaskSpec → Result Error T)
      (fetch : ApiRequestTaskSpec → T → Result Error HttpResponse) where
    pub process_spec-P :
        (s : ApiSession) (spec : ApiRequestTaskSpec)
        → P unset s
        → Some (process_spec env check prepare fetch s spec).0
    process_spec-P s spec v =
        after-state (P preparing) Some _ _
          (kept.sends preparing (set_progress (set_stage preparing) s) (
            kept.moves (set_stage preparing) unset preparing s (omega arith) (λ p. refl) (λ p. refl)
              v))
          (λ s1 k. (preparing, k))
          (λ s1 u k.
            after-state (P preparing) Some _ _ k (λ s2 i. (preparing, i))
              (λ s2 t i.
                after-state (P pending) Some _ _
                  (kept.sends pending (set_progress (set_stage pending) s2) (
                    kept.moves (set_stage pending) preparing pending s2 (omega arith) (λ p. refl)
                      (λ p. refl) i))
                  (λ s3 j. (pending, j))
                  (λ s3 u' j.
                    with_duration-P (after (s3, fetch spec t) (take_response env check spec)) (
                      after-state (P pending) Some _ _ j (λ s4 x. (pending, x))
                        (λ s4 resp x. take_response-P spec s4 resp x)))))
