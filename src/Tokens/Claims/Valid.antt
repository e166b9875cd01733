-- ===== src/Tokens/Claims/Valid.antt =====
-- pkg/http/middlewares/authorization/claims.go: when claims are valid.
use go_base.Base.{
  ℕ, ◌≡◌, ◌≤◌, ◌<◌, ◌↔◌, ◌⊎◌, inl, inr, true, false, str_eq, eq_iff, Bool-cases, ok, arith,
}
use go_base.Tokens.Claims.{
  Claims, verify_expires_at, verify_not_before, verify_issued_at, verify_authorized_party, validate,
}

module _ (now : ℕ) (a : Claims) where
  verify_expires_at_iff : (verify_expires_at a now true ≡ true) ↔ (now < a.expires)
  verify_expires_at_iff = ground arith

  verify_not_before_iff :
      (verify_not_before a now true ≡ true) ↔ ((0 < a.not_before) × (a.not_before ≤ now))
  verify_not_before_iff = ground arith

  verify_issued_at_iff :
      (verify_issued_at a now true ≡ true) ↔ ((0 < a.issued_at) × (a.issued_at ≤ now))
  verify_issued_at_iff = ground arith

  verify_authorized_party_iff :
      (verify_authorized_party a ≡ true)
      ↔ ((a.authorized_party ≡ "") ⊎ (a.issuer ≡ a.authorized_party))
  verify_authorized_party_iff = (
    λ h. elim (Bool-cases (str_eq a.authorized_party "")) [
      | inl e ↦ inl ((eq_iff a.authorized_party "").0 e)
      | inr e ↦ inr ((eq_iff a.issuer a.authorized_party).0 (ground arith))
    ],
    λ h. elim (Bool-cases (str_eq a.authorized_party "")) [
      | inl e ↦ ground arith
      | inr e ↦ elim h [
        | inl i ↦ absurd (ground (arith, (eq_iff a.authorized_party "").1 i))
        | inr i ↦
            let same = (eq_iff a.issuer a.authorized_party).1 i in
            let some_issuer : str_eq a.issuer "" ≡ false = rw i e in ground arith
      ]
    ],
  )

  -- Claims are valid at a time exactly when they have a user, the time is before their expiry, they
  -- have a start and an issue time, neither of them later than the time, and their authorized party
  -- is absent or the issuer.
  pub validate_ok_iff : (validate now a ≡ ok tt) ↔ (
      (str_eq a.user_id "" ≡ false)
      × (now < a.expires)
      × ((0 < a.not_before) × (a.not_before ≤ now))
      × ((0 < a.issued_at) × (a.issued_at ≤ now))
      × ((a.authorized_party ≡ "") ⊎ (a.issuer ≡ a.authorized_party)))
  unfolding validate
  validate_ok_iff = (
    λ h. (
      ground arith,
      ground arith,
      ground arith,
      ground arith,
      verify_authorized_party_iff.0 (ground arith),
    ),
    λ (user, expires, not_before, issued_at, party). rw (
      user,
      verify_expires_at_iff.1 expires,
      verify_not_before_iff.1 not_before,
      verify_issued_at_iff.1 issued_at,
      verify_authorized_party_iff.1 party,
    ),
  )
