-- ===== src/Http/Success.antt =====
-- pkg/http/clients/base_api_client.go: a response that the client returns is a success.
use go_base.Base.{
  ℕ, ◌≤◌, ◌<◌, ◌≡◌, Bool, true, false, ◌&&◌, Option, none, some, String, ◌==◌, leb, ltb, Bool-cases,
  Result, ok, >>=-eq-ok, unless, inl, inr, arith,
}
use go_base.Http.{Error}
use go_base.Http.Client.{
  HttpResponse, BaseApiClient, Transport, Plan, api_error, status_error, check_status, do_once,
  request_url, build_request, retry_error, do_request_with_response, attempt, last_attempt, again,
  wrap,
}

abbrev ok_response : HttpResponse → Result Error HttpResponse
ok_response r = ok r

api_error-eq-ok : (resp : HttpResponse) {r : HttpResponse} → api_error resp ≡ ok r → ⊥
api_error-eq-ok resp h =
    let (_, _, h') = >>=-eq-ok (wrap "failed to read response body" resp.body) _ h in cc

check_status-eq-ok :
    (resp : HttpResponse) {r : HttpResponse}
    → check_status resp ≡ ok r
    → (200 ≤ r.status) × (r.status < 300)
check_status-eq-ok resp {r} h = elim (Bool-cases (leb 200 resp.status && ltb resp.status 300)) [
  | inl b ↦
      let e : resp ≡ r = of_ok (rw b at h) in
      let low : 200 ≤ resp.status = ground arith in
      let high : resp.status < 300 = ground arith in rw (← e) (low, high)
  | inr b ↦ absurd (failed (rw b at h))
]
  where
    of_ok : {a c : HttpResponse} → ok_response a ≡ ok_response c → a ≡ c
    of_ok h = cc

    failed : status_error resp ≡ ok r → ⊥
    failed h = elim (Bool-cases (resp.status == 401)) [
      | inl a ↦ let h' = rw a at h in cc
      | inr a ↦ elim (Bool-cases (resp.status == 403)) [
        | inl b ↦ let h' = rw (a, b) at h in cc
        | inr b ↦ elim (Bool-cases (resp.status == 404)) [
          | inl c ↦ let h' = rw (a, b, c) at h in cc
          | inr c ↦ elim (Bool-cases (resp.status == 501)) [
            | inl d ↦ let h' = rw (a, b, c, d) at h in cc
            | inr d ↦ api_error-eq-ok resp (rw (a, b, c, d) at h)
          ]
        ]
      ]
    ]

-- A response that the base client returns is a success.
module _ (c : BaseApiClient) (plan : Plan) (retryable : Result Error HttpResponse → Bool)
    (nets : ℕ → Transport) where
  do_once-eq-ok :
      (net : Transport) (method path query : String) (payload : Option String) {r : HttpResponse}
      → do_once c net method path query payload ≡ ok r
      → (200 ≤ r.status) × (r.status < 300)
  unfolding do_once
  do_once-eq-ok net method path query payload h =
      let (token, _, h1) = >>=-eq-ok (wrap "failed to create request token" c.token_provider) _ h in
      let (_, _, h2) =
        >>=-eq-ok
          (wrap "failed to create a new request"
            (unless (net.refuses method (request_url c path query)) tt))
          _ h1 in
      let (resp, _, h3) =
        >>=-eq-ok
          (wrap "failed to do request"
            (net.send (build_request c net token method path query payload)))
          _ h2 in
      check_status-eq-ok resp h3

  pub answer-eq-ok :
      (method path query : String) (payload : Option String) {r : HttpResponse}
      → do_request_with_response c plan retryable nets method path query payload ≡ ok r
      → (200 ≤ r.status) × (r.status < 300)
  unfolding do_request_with_response
  answer-eq-ok method path query payload {r} h =
      of_retry plan.cancelled (again c plan retryable nets method path query payload n)
        (attempt c plan retryable nets method path query payload n) h
        (do_once-eq-ok (nets n) method path query payload)
    where
      n : ℕ
      n = last_attempt c plan retryable nets method path query payload

      of_retry :
          (o : Option Error) (b : Bool) (a : Result Error HttpResponse)
          → retry_error o b a ≡ ok r
          → (a ≡ ok r → (200 ≤ r.status) × (r.status < 300))
          → (200 ≤ r.status) × (r.status < 300)
      of_retry none b a e k = k e
      of_retry (some x) true a e k = absurd (cc)
      of_retry (some x) false a e k = k e
