-- ===== src/Tokens/Claims.antt =====
-- pkg/http/middlewares/authorization/claims.go and timestamp.go: the claims of a token.
pub mod Valid
use go_base.Base.{
  ℕ, ◌*◌, ◌/◌, Bool, true, false, not, List, String, str_eq, ltb, leb, ◌==◌, Result, ok, err,
  if◌then◌else◌,
}

pub data Error : Type 0 where
  missing_sub expiration too_early too_soon invalid_party : Error

-- Times are nanoseconds since the zero time.
pub record Claims : Type 0 where
  pub id : String
  pub issuer : String
  pub issued_at : ℕ
  pub not_before : ℕ
  pub expires : ℕ
  pub audience : String
  pub user_id : String
  pub user_name : String
  pub email : String
  pub tenant_id : String
  pub realm_ids : List String
  pub group_ids : List String
  pub allowed_ips : List String
  pub is_tenant_admin : Bool
  pub admin_realm_ids : List String
  pub authentication_method_references : List String
  pub authorized_party : String

-- `VerifyExpiresAt`, `VerifyNotBefore` and `VerifyIssuedAt`.
abbrev pub verify_expires_at : Claims → ℕ → Bool → Bool
verify_expires_at a cmp required = if a.expires == 0 then not required else ltb cmp a.expires

abbrev pub verify_not_before : Claims → ℕ → Bool → Bool
verify_not_before a cmp required = if a.not_before == 0 then not required else leb a.not_before cmp

abbrev pub verify_issued_at : Claims → ℕ → Bool → Bool
verify_issued_at a cmp required = if a.issued_at == 0 then not required else leb a.issued_at cmp

abbrev pub verify_issuer : Claims → String → Bool → Bool
verify_issuer a cmp required = if str_eq a.issuer "" then not required else str_eq a.issuer cmp

abbrev pub verify_authorized_party : Claims → Bool
verify_authorized_party a =
    if str_eq a.authorized_party "" then true else verify_issuer a a.authorized_party true

unfoldable pub validate : ℕ → Claims → Result Error (Unit {0})
validate now a =
    if str_eq a.user_id ""
    then err missing_sub
    else if not (verify_expires_at a now true)
    then err expiration
    else if not (verify_not_before a now true)
    then err too_early
    else if not (verify_issued_at a now true)
    then err too_soon
    else if not (verify_authorized_party a)
    then err invalid_party
    else ok tt

-- A timestamp is marshalled as its Unix time, which drops what is below a second.
abbrev pub seconds : ℕ → ℕ
seconds t = (t / 1000000000) * 1000000000

-- The claims as the receiver reads them.
unfoldable pub received : Claims → Claims
received a = record a {
  issued_at = seconds a.issued_at;
  not_before = seconds a.not_before;
  expires = seconds a.expires;
}
