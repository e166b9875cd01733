-- ===== src/Http/Status.antt =====
-- pkg/http: the status that a handler writes for an error and the error that a client reads from it.
use go_base.Base.{
  ℕ, ◌≤◌, ◌≡◌, refl, sym, ap, ◌∙◌, inl, inr, Bool, true, false, ◌&&◌, some, String, ◌==◌, leb, ltb,
  ==_iff, Bool-cases, Option-cases, ok, err, arith,
}
use go_base.Http.{
  Error, permission, authorization, internal, invalid_parameters, unmarshalling, form, not_found,
  not_implemented, unsupported_media_type, no_rows, parse, user, wrapped, validation, api, other,
  Library,
}
use go_base.Http.Parser.{
  sentinel_status, is_parse_error, is_user_error, parse_type, parse_wrapping, default_error_parser,
}
use go_base.Http.Client.{HttpResponse, status_error, check_status, get_status_code, error_of}

-- The status code of what the client returns for a response that is no success.
module _ (resp : HttpResponse) {body : String} where
  status_error-code :
      resp.body ≡ ok body → get_status_code (error_of (status_error resp)) ≡ resp.status
  status_error-code b = elim (Bool-cases (resp.status == 401)) [
    | inl h ↦ rw h (sym ((==_iff resp.status 401).0 h))
    | inr h1 ↦ elim (Bool-cases (resp.status == 403)) [
      | inl h ↦ rw (h1, h) (sym ((==_iff resp.status 403).0 h))
      | inr h2 ↦ elim (Bool-cases (resp.status == 404)) [
        | inl h ↦ rw (h1, h2, h) (sym ((==_iff resp.status 404).0 h))
        | inr h3 ↦ elim (Bool-cases (resp.status == 501)) [
          | inl h ↦ rw (h1, h2, h3, h) (sym ((==_iff resp.status 501).0 h))
          | inr h4 ↦ rw (h1, h2, h3, h4, b) refl
        ]
      ]
    ]
  ]

  check_status-code :
      resp.body ≡ ok body
      → (leb 200 resp.status && ltb resp.status 300) ≡ false
      → get_status_code (error_of (check_status resp)) ≡ resp.status
  check_status-code b h = rw h (status_error-code b)

module _ (lib : Library) (debug : Bool) where
  type-failure : (e : Error) → 300 ≤ (parse_type lib debug e).0
  type-failure permission = omega arith
  type-failure authorization = omega arith
  type-failure internal = omega arith
  type-failure invalid_parameters = omega arith
  type-failure unmarshalling = omega arith
  type-failure form = omega arith
  type-failure not_found = omega arith
  type-failure not_implemented = omega arith
  type-failure unsupported_media_type = omega arith
  type-failure no_rows = omega arith
  type-failure (parse e) = omega arith
  type-failure (user e) = omega arith
  type-failure (wrapped text e) = omega arith
  type-failure (validation errs) = omega arith
  type-failure (api e) = omega arith
  type-failure (other text) = omega arith

  wrapping-failure : (e : Error) → 300 ≤ (parse_wrapping lib debug e).0
  wrapping-failure e = elim (Bool-cases (is_parse_error e)) [
    | inl h ↦ rw h (omega arith)
    | inr h ↦ elim (Bool-cases (is_user_error e)) [
      | inl k ↦ rw (h, k) (omega arith)
      | inr k ↦ rw (h, k) (type-failure e)
    ]
  ]

  sentinel-failure : (e : Error) (s : ℕ) → sentinel_status e ≡ some s → 300 ≤ s
  sentinel-failure permission s h = ground arith
  sentinel-failure authorization s h = ground arith
  sentinel-failure internal s h = ground arith
  sentinel-failure invalid_parameters s h = ground arith
  sentinel-failure unmarshalling s h = ground arith
  sentinel-failure form s h = ground arith
  sentinel-failure not_found s h = ground arith
  sentinel-failure not_implemented s h = ground arith
  sentinel-failure unsupported_media_type s h = ground arith
  sentinel-failure no_rows s h = ground arith
  sentinel-failure (parse e) s h = absurd (cc)
  sentinel-failure (user e) s h = absurd (cc)
  sentinel-failure (wrapped text e) s h = absurd (cc)
  sentinel-failure (validation errs) s h = absurd (cc)
  sentinel-failure (api e) s h = absurd (cc)
  sentinel-failure (other text) s h = absurd (cc)

  -- No error is answered by a success.
  parser-failure : (e : Error) → 300 ≤ (default_error_parser lib debug (some e)).0
  unfolding default_error_parser
  parser-failure e = elim (Option-cases (sentinel_status e)) [
    | inl h ↦ rw h (wrapping-failure e)
    | inr (s, h) ↦ rw h (sentinel-failure e s h)
  ]

  -- If a response has the status that `DefaultErrorParser` gives for an error, and a body that can
  -- be read, then the client does not take it for a success, and `GetStatusCode` of the error that
  -- it returns is that status.
  pub status_round_trip :
      (e : Error) (resp : HttpResponse) {body : String}
      → resp.status ≡ (default_error_parser lib debug (some e)).0
      → resp.body ≡ ok body
      → (get_status_code (error_of (check_status resp))
          ≡ (default_error_parser lib debug (some e)).0)
        × ((r : HttpResponse) → check_status resp ≡ ok r → ⊥)
  status_round_trip e resp s b =
      let high = parser-failure e in
      let no : (leb 200 resp.status && ltb resp.status 300) ≡ false = ground (arith, s, high) in
      (
        check_status-code resp b no ∙ s,
        λ r h.
            let zero_code : 200 ≡ resp.status =
              ap (λ m. get_status_code (error_of m)) (sym h) ∙ check_status-code resp b no in
            absurd (ground (arith, s, high)),
      )

  -- The four errors that the client tells apart by the status.
  abbrev pub is_shared : Error → Bool
  is_shared permission = true
  is_shared authorization = true
  is_shared not_found = true
  is_shared not_implemented = true
  is_shared e = false

  -- If a response has the status that `DefaultErrorParser` gives for one of the four errors
  -- ErrPermission, ErrAuthorization, ErrNotFound and ErrNotImplemented, then the client returns that
  -- very error, whatever the body.
  pub sentinel_round_trip :
      (e : Error) (resp : HttpResponse)
      → is_shared e ≡ true
      → resp.status ≡ (default_error_parser lib debug (some e)).0
      → check_status resp ≡ err e
  unfolding default_error_parser
  sentinel_round_trip permission resp t s = rw s refl
  sentinel_round_trip authorization resp t s = rw s refl
  sentinel_round_trip not_found resp t s = rw s refl
  sentinel_round_trip not_implemented resp t s = rw s refl
  sentinel_round_trip internal resp t s = absurd (cc)
  sentinel_round_trip invalid_parameters resp t s = absurd (cc)
  sentinel_round_trip unmarshalling resp t s = absurd (cc)
  sentinel_round_trip form resp t s = absurd (cc)
  sentinel_round_trip unsupported_media_type resp t s = absurd (cc)
  sentinel_round_trip no_rows resp t s = absurd (cc)
  sentinel_round_trip (parse e) resp t s = absurd (cc)
  sentinel_round_trip (user e) resp t s = absurd (cc)
  sentinel_round_trip (wrapped text e) resp t s = absurd (cc)
  sentinel_round_trip (validation errs) resp t s = absurd (cc)
  sentinel_round_trip (api e) resp t s = absurd (cc)
  sentinel_round_trip (other text) resp t s = absurd (cc)
