-- ===== src/Tokens/Creator.antt =====
-- pkg/tokens/creator.go: tokens for requests between services.
use go_base.Base.{
  ℕ, ◌+◌, ◌-◌, ◌*◌, ◌≤◌, ◌<◌, ◌≡◌, ◌↔◌, ◌≢◌, refl, Bool, true, false, List, [], ◌∷◌, String, str_eq,
  eq_iff, ltb, Bool-cases, inl, inr, Result, ok, err, arith, if◌then◌else◌,
}
use go_base.Tokens.Claims.Valid.{validate_ok_iff}
use go_base.Tokens.Claims.{Claims, validate, seconds, received}

pub data CreatorError : Type 0 where
  no_private_key_specified : CreatorError

pub record Options : Type 0 where
  pub audience : String
  pub project_id : String
  pub id : String
  pub user_id : String

pub record TokenCreator : Type 0 where
  pub issuer : String
  pub has_key : Bool
  pub lifetime : ℕ

abbrev pub second : ℕ
second = 1000000000

-- A lifetime is in nanoseconds; a negative one is as 0 here.
unfoldable pub new_creator : String → Bool → ℕ → TokenCreator
new_creator issuer has_key lifetime = record {
  issuer = issuer;
  has_key = has_key;
  lifetime = if ltb lifetime 5 then 5 * second else lifetime;
}

abbrev pub or_default : String → String → String
or_default d s = if str_eq s "" then d else s

abbrev pub projects : String → List String
projects project_id = if str_eq project_id "" then [] else project_id ∷ []

-- The claims of `requestToken`; `join` stands for the joining of strings, `uuid` for the new UUID and
-- `nil_uuid` for the null one.
unfoldable pub request_token :
    (String → String → String) → String → String → ℕ → TokenCreator → String → Options → Claims
request_token join uuid nil_uuid now t reference opts = record {
  id = or_default uuid opts.id;
  issuer = t.issuer;
  issued_at = now;
  not_before = now - 5 * second;
  expires = now + t.lifetime;
  audience = opts.audience;
  user_id = or_default nil_uuid opts.user_id;
  user_name = join "@" t.issuer;
  email = join t.issuer "@contiamo.com";
  tenant_id = "";
  realm_ids = projects opts.project_id;
  group_ids = [];
  allowed_ips = [];
  is_tenant_admin = false;
  admin_realm_ids = projects opts.project_id;
  authentication_method_references = reference ∷ [];
  authorized_party = t.issuer;
}

unfoldable pub create :
    (String → String → String)
    → String
    → String
    → ℕ
    → TokenCreator
    → String
    → Options
    → Result CreatorError Claims
unfolding request_token
create join uuid nil_uuid now t reference opts =
    if t.has_key
    then ok (request_token join uuid nil_uuid now t reference opts)
    else err no_private_key_specified

module _ (join : String → String → String) (uuid nil_uuid issuer reference : String) (lifetime : ℕ)
    (opts : Options) where
  user_id-ne-empty :
      (now : ℕ) → nil_uuid ≢ "" → str_eq (or_default nil_uuid opts.user_id) "" ≡ false
  user_id-ne-empty now h = elim (Bool-cases (str_eq opts.user_id "")) [
    | inl e ↦ ground (arith, eq_iff nil_uuid "")
    | inr e ↦ ground arith
  ]

  -- For a creator with a key and a null UUID that is not empty, the claims created at a time from
  -- the sixth second on, as the receiver reads them, are valid at a time exactly when it is not
  -- before the second of the creation and before the second of the expiry.
  pub create-validate :
      (created now : ℕ) {c : Claims}
      → nil_uuid ≢ ""
      → 6 * 1000000000 ≤ created
      → create join uuid nil_uuid created (new_creator issuer true lifetime) reference opts ≡ ok c
      → (validate now (received c) ≡ ok tt) ↔ (
          (seconds created ≤ now)
          × (now < seconds (created + (new_creator issuer true lifetime).lifetime)))
  unfolding create new_creator received
  create-validate created now {c} h late e =
      let t = new_creator issuer true lifetime in
      let same : request_token join uuid nil_uuid created t reference opts ≡ c = ground arith in
      rw (← same) (valid created now (created + t.lifetime) h late)
    where
      valid :
          (created now expires : ℕ)
          → nil_uuid ≢ ""
          → 6 * 1000000000 ≤ created
          → (validate now (
                received
                  (record (request_token join uuid nil_uuid created
                    (new_creator issuer true lifetime)
                    reference
                    opts) { expires = expires }))
              ≡ ok tt)
            ↔ ((seconds created ≤ now) × (now < seconds expires))
      valid created now expires h late =
          let a =
            received
              (record (request_token join uuid nil_uuid created (new_creator issuer true lifetime)
                reference opts) { expires = expires }) in
          let iff = validate_ok_iff now a in
          (
            λ v. let (_, x, _, (_, y), _) = iff.0 v in (y, x),
            λ (lo, hi). iff.1 (
              user_id-ne-empty created h,
              hi,
              (omega arith, omega arith),
              (omega arith, lo),
              inr refl,
            ),
          )
