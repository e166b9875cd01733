-- ===== src/Http/Retries.antt =====
-- pkg/http/clients/base_api_client.go: how often a request is made, and which answer is returned.
use go_base.Base.{
  ℕ, zero, suc, ◌-◌, ◌≤◌, ◌<◌, ◌≡◌, refl, sym, ap, ◌⊎◌, inl, inr, Bool, true, false, Option, none,
  some, String, Bool-cases, Result, ok, err, arith,
}
use go_base.Http.{Error}
use go_base.Http.Client.{
  HttpResponse, BaseApiClient, Transport, Plan, asks_again, retry_error, max_retries,
  do_request_with_response, attempt, again, last_attempt, is_retryable,
}

asks_again-true :
    (retryable : Result Error HttpResponse → Bool) (r : Result Error HttpResponse)
    → asks_again retryable r ≡ true
    → (e : Error) × (r ≡ err e) × (retryable (err e) ≡ true)
asks_again-true retryable (ok resp) h = absurd (cc)
asks_again-true retryable (err e) h = (e, refl, h)

asks_again_default : (r : Result Error HttpResponse) → asks_again is_retryable r ≡ is_retryable r
asks_again_default (ok resp) = refl
asks_again_default (err e) = refl

stops :
    (cancelled : Option Error) (tests : ℕ → Bool) (answer : ℕ → Result Error HttpResponse) (n : ℕ)
    → tests 0 ≡ false
    → ((j : ℕ) → j < n → tests j ≡ true)
    → (n ≡ 0) × (retry_error cancelled (tests n) (answer n) ≡ answer 0)
stops none tests answer zero f h = (refl, refl)
stops (some e) tests answer zero f h = (refl, rw f refl)
stops cancelled tests answer (suc n) f h = let t = h 0 (omega arith) in absurd (ground (arith, f))

module _ (c : BaseApiClient) (plan : Plan) (retryable : Result Error HttpResponse → Bool)
    (nets : ℕ → Transport) (method path query : String) (payload : Option String) where
  -- What the client returns is the answer of the last attempt, or an error of the context.
  pub record IsLastAnswer (answer : Result Error HttpResponse) (n : ℕ) : Type 0 where
    pub answered :
        (answer ≡ attempt c plan retryable nets method path query payload n)
        ⊎ ((e : Error) × (plan.cancelled ≡ some e) × (answer ≡ err e))
    pub bounded : (suc n ≤ c.max_attempts) ⊎ (n ≡ 0)
    pub retried :
        (j : ℕ)
        → j < n
        → (e : Error) × (attempt c plan retryable nets method path query payload j ≡ err e)
          × (retryable (err e) ≡ true)

  retry_error-cases :
      (cancelled : Option Error) (b : Bool) (r : Result Error HttpResponse)
      → (retry_error cancelled b r ≡ r)
        ⊎ ((e : Error) × (cancelled ≡ some e) × (retry_error cancelled b r ≡ err e))
  retry_error-cases none b r = inl refl
  retry_error-cases (some e) true r = inr (e, refl, refl)
  retry_error-cases (some e) false r = inl refl

  -- `DoRequestWithResponse` makes at most `maxAttempts` attempts, or one. It returns the answer of
  -- the last attempt, or the error of the context, and every attempt before the last returned an
  -- error for which the test says that it can be retried.
  pub do_request_with_response-IsLastAnswer :
      IsLastAnswer
        (do_request_with_response c plan retryable nets method path query payload)
        (last_attempt c plan retryable nets method path query payload)
  unfolding do_request_with_response
  do_request_with_response-IsLastAnswer =
      let tests = again c plan retryable nets method path query payload in
      let n = last_attempt c plan retryable nets method path query payload in
      let most = plan.at_most (max_retries c) tests in
      record {
        answered =
            retry_error-cases plan.cancelled (tests n)
              (attempt c plan retryable nets method path query payload n);
        bounded = few n c.max_attempts most;
        retried = λ j h. asks_again-true retryable _ (plan.asked (max_retries c) tests j h);
      }
    where
      few : (n m : ℕ) → n ≤ m - 1 → (suc n ≤ m) ⊎ (n ≡ 0)
      few n zero h = inr (omega arith)
      few n (suc m) h = inl (omega arith)

  -- If the test does not ask for a retry of the first answer, the client makes no other attempt and
  -- returns that answer, even if the context is done.
  pub first_answer :
      retryable (attempt c plan retryable nets method path query payload 0) ≡ false
      → (last_attempt c plan retryable nets method path query payload ≡ 0)
        × (do_request_with_response c plan retryable nets method path query payload
            ≡ attempt c plan retryable nets method path query payload 0)
  unfolding do_request_with_response
  first_answer h =
      let tests = again c plan retryable nets method path query payload in
      let none_asked : tests 0 ≡ false = elim (Bool-cases (tests 0)) [
        | inr f ↦ f
        | inl t ↦
            let (e, i, r) =
              asks_again-true retryable (attempt c plan retryable nets method path query payload 0)
                t in
            absurd (ground (arith, ap retryable (sym i)))
      ] in
      stops plan.cancelled tests (attempt c plan retryable nets method path query payload)
        (last_attempt c plan retryable nets method path query payload) none_asked
        (plan.asked (max_retries c) tests)
