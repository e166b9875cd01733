-- ===== src/Http/Scrubbed.antt =====
-- pkg/http/handlers/base.go: what a response tells of an error that is not meant for the user.
use go_base.Base.{
  ◌≡◌, refl, sym, ap, ◌∙◌, ◌≢◌, ◌↔◌, inl, inr, true, false, Option, some, List, [], ◌∷◌, Memᴰ,
  Bool-cases, ℕ, arith,
}
use go_base.Http.{
  Error, permission, authorization, internal, invalid_parameters, unmarshalling, form, not_found,
  not_implemented, unsupported_media_type, no_rows, parse, user, wrapped, validation, api, other,
  Messenger, Library, general_error, internal_text,
}
use go_base.Http.Public.{
  public_sentinels, Holds, IsPublic, Holds-parse, Holds-user, parse-Holds, user-Holds, bare,
}
use go_base.Http.Parser.{is_parse_error, is_user_error, default_error_parser}

module _ (lib : Library) where
  abbrev hidden : ℕ × Option (List Messenger)
  hidden = (500, some (general_error internal_text ∷ []))

  -- A response with a status that is not 500.
  shown :
      {e : Error} (x : Error)
      → e ≡ x
      → default_error_parser lib false (some e) ≡ hidden
      → (default_error_parser lib false (some x)).0 ≡ 500
  shown x p h = ap (λ y. (default_error_parser lib false (some y)).0) (sym p) ∙ ap (λ r. r.0) h

  sentinel-shown :
      (e : Error) → Memᴰ e public_sentinels → default_error_parser lib false (some e) ≢ hidden
  unfolding default_error_parser
  sentinel-shown e (Memᴰ.head p) h = let k = shown permission p h in absurd (omega arith)
  sentinel-shown e (Memᴰ.tail (Memᴰ.head p)) h =
      let k = shown authorization p h in absurd (omega arith)
  sentinel-shown e (Memᴰ.tail (Memᴰ.tail (Memᴰ.head p))) h =
      let k = shown invalid_parameters p h in absurd (omega arith)
  sentinel-shown e (Memᴰ.tail (Memᴰ.tail (Memᴰ.tail (Memᴰ.head p)))) h =
      let k = shown unmarshalling p h in absurd (omega arith)
  sentinel-shown e (Memᴰ.tail (Memᴰ.tail (Memᴰ.tail (Memᴰ.tail (Memᴰ.head p))))) h =
      let k = shown form p h in absurd (omega arith)
  sentinel-shown e (Memᴰ.tail (Memᴰ.tail (Memᴰ.tail (Memᴰ.tail (Memᴰ.tail (Memᴰ.head p)))))) h =
      let k = shown no_rows p h in absurd (omega arith)
  sentinel-shown e
        (Memᴰ.tail (Memᴰ.tail (Memᴰ.tail (Memᴰ.tail (Memᴰ.tail (Memᴰ.tail (Memᴰ.head p))))))) h =
      let k = shown not_found p h in absurd (omega arith)
  sentinel-shown e
        (Memᴰ.tail
          (Memᴰ.tail (Memᴰ.tail (Memᴰ.tail (Memᴰ.tail (Memᴰ.tail (Memᴰ.tail (Memᴰ.head p))))))))
        h =
      let k = shown not_implemented p h in absurd (omega arith)
  sentinel-shown e
        (Memᴰ.tail (
          Memᴰ.tail
            (Memᴰ.tail (Memᴰ.tail (Memᴰ.tail (Memᴰ.tail (Memᴰ.tail (Memᴰ.tail (Memᴰ.head p)))))))))
        h =
      let k = shown unsupported_media_type p h in absurd (omega arith)
  sentinel-shown e
        (Memᴰ.tail (
          Memᴰ.tail
            (Memᴰ.tail (Memᴰ.tail (Memᴰ.tail (Memᴰ.tail (Memᴰ.tail (Memᴰ.tail (Memᴰ.tail m)))))))))
        h =
      elim m [ ]

  parse-shown :
      (e : Error) → is_parse_error e ≡ true → default_error_parser lib false (some e) ≢ hidden
  unfolding default_error_parser
  parse-shown e p h = elim (bare e) [
    | inl n ↦
        let k = ap (λ (r : ℕ × Option (List Messenger)). r.0) h in
        absurd (omega (arith, rw (n, p) at k))
    | inr (q, _) ↦ absurd (ground arith)
  ]

  user-shown :
      (e : Error) → is_user_error e ≡ true → default_error_parser lib false (some e) ≢ hidden
  unfolding default_error_parser
  user-shown e p h = elim (bare e) [
    | inl n ↦ elim (Bool-cases (is_parse_error e)) [
      | inl q ↦ parse-shown e q h
      | inr q ↦
          let k = ap (λ (r : ℕ × Option (List Messenger)). r.0) h in
          absurd (omega (arith, rw (n, q, p) at k))
    ]
    | inr (_, q) ↦ absurd (ground arith)
  ]

  public-shown : (e : Error) → IsPublic e → default_error_parser lib false (some e) ≢ hidden
  unfolding default_error_parser
  public-shown e (IsPublic.sentinel m) h = sentinel-shown e m h
  public-shown e (IsPublic.fields errs p) h =
      let k = shown (validation errs) p h in absurd (omega arith)
  public-shown e (IsPublic.holds_parse held k) h = parse-shown e (Holds-parse held k) h
  public-shown e (IsPublic.holds_user held k) h = user-shown e (Holds-user held k) h

  private-hidden : (e : Error) → ¬ IsPublic e → default_error_parser lib false (some e) ≡ hidden
  unfolding default_error_parser
  private-hidden permission h = absurd (h (IsPublic.sentinel (Memᴰ.head refl)))
  private-hidden authorization h = absurd (h (IsPublic.sentinel (Memᴰ.tail (Memᴰ.head refl))))
  private-hidden internal h = refl
  private-hidden invalid_parameters h =
      absurd (h (IsPublic.sentinel (Memᴰ.tail (Memᴰ.tail (Memᴰ.head refl)))))
  private-hidden unmarshalling h =
      absurd (h (IsPublic.sentinel (Memᴰ.tail (Memᴰ.tail (Memᴰ.tail (Memᴰ.head refl))))))
  private-hidden form h =
      absurd
        (h (IsPublic.sentinel (Memᴰ.tail (Memᴰ.tail (Memᴰ.tail (Memᴰ.tail (Memᴰ.head refl)))))))
  private-hidden not_found h = absurd (
      h (
        IsPublic.sentinel
          (Memᴰ.tail (Memᴰ.tail (Memᴰ.tail (Memᴰ.tail (Memᴰ.tail (Memᴰ.tail (Memᴰ.head refl)))))))))
  private-hidden not_implemented h = absurd (
      h (
        IsPublic.sentinel (
          Memᴰ.tail (
            Memᴰ.tail
              (Memᴰ.tail (Memᴰ.tail (Memᴰ.tail (Memᴰ.tail (Memᴰ.tail (Memᴰ.head refl))))))))))
  private-hidden unsupported_media_type h = absurd (
      h (
        IsPublic.sentinel (
          Memᴰ.tail (
            Memᴰ.tail (
              Memᴰ.tail
                (Memᴰ.tail (Memᴰ.tail (Memᴰ.tail (Memᴰ.tail (Memᴰ.tail (Memᴰ.head refl)))))))))))
  private-hidden no_rows h = absurd (
      h (
        IsPublic.sentinel
          (Memᴰ.tail (Memᴰ.tail (Memᴰ.tail (Memᴰ.tail (Memᴰ.tail (Memᴰ.head refl))))))))
  private-hidden (parse e) h = absurd (h (IsPublic.holds_parse e (Holds.here refl)))
  private-hidden (user e) h = absurd (h (IsPublic.holds_user e (Holds.here refl)))
  private-hidden (wrapped text e) h = elim (Bool-cases (is_parse_error e)) [
    | inl p ↦
        let (x, k) = parse-Holds e p in absurd (h (IsPublic.holds_parse x (Holds.under_wrap k)))
    | inr p ↦ elim (Bool-cases (is_user_error e)) [
      | inl q ↦
          let (x, k) = user-Holds e q in
          elim k [
            | inl i ↦ absurd (h (IsPublic.holds_parse x (Holds.under_wrap i)))
            | inr i ↦ absurd (h (IsPublic.holds_user x (Holds.under_wrap i)))
          ]
      | inr q ↦ rw (p, q) refl
    ]
  ]
  private-hidden (validation errs) h = absurd (h (IsPublic.fields errs refl))
  private-hidden (api e) h = refl
  private-hidden (other text) h = refl

  -- Without debug, the response to an error is 500 with the text of ErrInternal alone exactly if
  -- the error is not meant for the user: it is none of the sentinels but ErrInternal, is not the
  -- fields' errors, and holds no error from `Parse` and no `UserError`, itself or under what wraps
  -- it.
  pub default_error_parser_hides :
      (e : Error)
      → (default_error_parser lib false (some e) ≡ (500, some (general_error internal_text ∷ [])))
        ↔ ¬ IsPublic e
  default_error_parser_hides e = (λ h p. public-shown e p h, λ n. private-hidden e n)
