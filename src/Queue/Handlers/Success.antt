-- ===== src/Queue/Handlers/Success.antt =====
-- pkg/queue/handlers: what an API task that returned no error has seen.
use go_base.Base.{
  ℕ, ◌≤◌, ◌<◌, ◌≡◌, refl, ap, inl, inr, Bool, true, Option, none, String, ◌==◌, ==_iff, Bool-cases,
  Result, ok, err, >>=-eq-ok, arith,
}
use go_base.Http as Http
use go_base.Http.Success.{answer-eq-ok}
use go_base.Http.Client.{HttpResponse, BaseApiClient, Transport, Plan}
use go_base.Queue.Handlers.{
  Error, serializing_heartbeat, no_handler_found, client, wrapped, system, unexpected_status,
  unexpected_content_type, Session, after, close,
}
use go_base.Queue.Handlers.Api.{
  ApiRequestTaskSpec, ApiSession, ApiEnv, set_error, read_rounds, check_expected, take_response,
  process_spec, process, from_client, json_client, json_payload, json_fetch, json_process,
}

after-eq-ok {ℓ κ} :
    {P : Type 0} {A : Type ℓ} {B : Type κ} (r : Session P × Result Error A)
    (next : Session P → A → Session P × Result Error B) {b : B}
    → (after r next).1 ≡ ok b
    → (s : Session P) × (a : A) × (r.1 ≡ ok a) × ((next s a).1 ≡ ok b)
unfolding after
after-eq-ok (s, err e) next h = absurd (cc)
after-eq-ok (s, ok a) next h = (s, a, refl, h)

close-none :
    {P : Type 0} (marshals : P → Bool) (set : Error → P → P)
    (r : Session P × Result Error (Unit {0}))
    → (close marshals set r).1 ≡ none
    → (u : Unit {0}) × (r.1 ≡ ok u)
close-none marshals set (s, ok u) h = (u, refl)
close-none marshals set (s, err serializing_heartbeat) h = absurd (cc)
close-none marshals set (s, err no_handler_found) h = absurd (cc)
close-none marshals set (s, err (client x)) h = absurd (cc)
close-none marshals set (s, err (wrapped t x)) h = absurd (cc)
close-none marshals set (s, err (unexpected_content_type t)) h = absurd (cc)
close-none marshals set (s, err (unexpected_status a b)) h = absurd (cc)
close-none marshals set (s, err (system t)) h = absurd (cc)

module _ (env : ApiEnv) (check : String → Option Error) where
  take_response-eq-ok :
      (spec : ApiRequestTaskSpec) (s : ApiSession) (resp : HttpResponse) {u : Unit {0}}
      → (take_response env check spec s resp).1 ≡ ok u
      → (env.contains_json (env.content_type resp) ≡ true) × (spec.expected_status ≡ resp.status)
  take_response-eq-ok spec s resp h =
      elim (Bool-cases (env.contains_json (env.content_type resp))) [
        | inr b ↦ let h' = rw b at h in absurd (cc)
        | inl b ↦
            let (s1, _, _, h1) = after-eq-ok _ _ (rw b at h) in
            let (s2, _, _, h2) =
              after-eq-ok
                (read_rounds env check (env.rounds resp) (env.last_ticks resp) (env.last_ctx resp)
                  s1)
                _ h1 in
            (b, expected h2)
      ]
    where
      expected :
          {u : Unit {0}}
          → check_expected env check spec.expected_status resp.status ≡ ok u
          → spec.expected_status ≡ resp.status
      expected h = elim (Bool-cases (spec.expected_status == resp.status)) [
        | inl t ↦ (==_iff spec.expected_status resp.status).0 t
        | inr t ↦ let h' = rw t at h in absurd (cc)
      ]

  module _ {T : Type 0} (prepare : ApiRequestTaskSpec → Result Error T)
      (fetch : ApiRequestTaskSpec → T → Result Error HttpResponse) where
    -- What a task that succeeded has read and received.
    pub record Succeeded (text : String) : Type 0 where
      pub spec : ApiRequestTaskSpec
      pub prepared : T
      pub resp : HttpResponse
      pub read : env.unmarshal text ≡ ok spec
      pub ready : prepare spec ≡ ok prepared
      pub answered : fetch spec prepared ≡ ok resp
      pub json : env.contains_json (env.content_type resp) ≡ true
      pub expected : spec.expected_status ≡ resp.status

    -- An API task that returned no error has read its specification, prepared and made its request,
    -- and received an answer in JSON with the expected status.
    pub process-Succeeded :
        (text : String) → (process env check prepare fetch text).1 ≡ none → Succeeded text
    unfolding process
    process-Succeeded text h =
        let (_, h1) = close-none env.marshals (set_error env) _ h in
        let (s, spec, a, h2) = after-eq-ok _ (process_spec env check prepare fetch) h1 in
        let (s1, _, _, h3) = after-eq-ok _ _ h2 in
        let (s2, t, b, h4) = after-eq-ok (s1, prepare spec) _ h3 in
        let (s3, _, _, h5) = after-eq-ok _ _ h4 in
        let (s4, resp, c, h6) = after-eq-ok (s3, fetch spec t) (take_response env check spec) h5 in
        let (j, e) = take_response-eq-ok spec s4 resp h6 in
        record {
          spec = spec;
          prepared = t;
          resp = resp;
          read = a;
          ready = b;
          answered = c;
          json = j;
          expected = e;
        }

from_client-eq-ok {ℓ} :
    {A : Type ℓ} (r : Result Http.Error A) {a : A} → from_client r ≡ ok a → r ≡ ok a
from_client-eq-ok (ok x) {a} h = let e : x ≡ a = ground arith in ap ok e
from_client-eq-ok (err e) h = absurd (cc)

-- A task of the JSON handler that returned no error has a specification that expects a status from
-- 200 to 299: with any other expected status the task fails, also if the server answers with it.
pub json_process-success :
    (canonical : String → String) (parse : String → Result Error String) (env : ApiEnv)
    (check : String → Option Error) (c : BaseApiClient) (plan : Plan)
    (retryable : Result Http.Error HttpResponse → Bool) (nets : ℕ → Transport) (text : String)
    → (json_process canonical parse env check c plan retryable nets text).1 ≡ none
    → (spec : ApiRequestTaskSpec) × (env.unmarshal text ≡ ok spec)
      × (200 ≤ spec.expected_status)
      × (spec.expected_status < 300)
json_process-success canonical parse env check c plan retryable nets text h =
    let s =
      process-Succeeded env check (λ spec. ok (json_client canonical parse c spec))
        (json_fetch canonical parse plan retryable nets) text h in
    let (payload, _, sent) = >>=-eq-ok (json_payload canonical parse s.spec) _ s.answered in
    let (low, high) =
      answer-eq-ok s.prepared plan retryable nets s.spec.method s.spec.url "" payload
        (from_client-eq-ok _ sent) in
    (s.spec, s.read, omega (arith, low, s.expected), omega (arith, high, s.expected))
