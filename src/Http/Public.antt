-- ===== src/Http/Public.antt =====
-- pkg/http/handlers/base.go and pkg/errors: which errors are meant for the user.
use go_base.Base.{◌≡◌, refl, ap, ◌⊎◌, inl, inr, true, false, none, List, [], ◌∷◌, Memᴰ, String}
use go_base.Http.{
  Error, permission, authorization, internal, invalid_parameters, unmarshalling, form, not_found,
  not_implemented, unsupported_media_type, no_rows, parse, user, wrapped, validation, api, other,
  ValidationErrors,
}
use go_base.Http.Parser.{sentinel_status, is_parse_error, is_user_error}

-- The sentinel errors with a status of their own.
abbrev pub public_sentinels : List Error
public_sentinels =
    permission ∷ authorization ∷ invalid_parameters ∷ unmarshalling ∷ form ∷ no_rows ∷ not_found
    ∷ not_implemented ∷ unsupported_media_type ∷ []

-- An error is held by itself, and by what wraps a holder or marks it for the user.
pub data Holds (held : Error) : Error → Type 0 where
  here : {e : Error} → e ≡ held → Holds held e
  under_wrap : {text : String} {e : Error} → Holds held e → Holds held (wrapped text e)
  under_user : {e : Error} → Holds held e → Holds held (user e)

-- An error that is meant for the user: one of those sentinels itself, the fields' errors themselves,
-- or an error that holds one from `Parse` or a `UserError`.
pub data IsPublic (e : Error) : Type 0 where
  sentinel : Memᴰ e public_sentinels → IsPublic e
  fields : (errs : ValidationErrors) → e ≡ validation errs → IsPublic e
  holds_parse : (held : Error) → Holds (parse held) e → IsPublic e
  holds_user : (held : Error) → Holds (user held) e → IsPublic e

pub Holds-parse : (held : Error) {e : Error} → Holds (parse held) e → is_parse_error e ≡ true
Holds-parse held (Holds.here p) = ap is_parse_error p
Holds-parse held (Holds.under_wrap h) = Holds-parse held h
Holds-parse held (Holds.under_user h) = Holds-parse held h

pub Holds-user : (held : Error) {e : Error} → Holds (user held) e → is_user_error e ≡ true
Holds-user held (Holds.here p) = ap is_user_error p
Holds-user held (Holds.under_wrap h) = Holds-user held h
Holds-user held (Holds.under_user h) = refl

pub parse-Holds : (e : Error) → is_parse_error e ≡ true → (held : Error) × Holds (parse held) e
parse-Holds permission h = absurd (cc)
parse-Holds authorization h = absurd (cc)
parse-Holds internal h = absurd (cc)
parse-Holds invalid_parameters h = absurd (cc)
parse-Holds unmarshalling h = absurd (cc)
parse-Holds form h = absurd (cc)
parse-Holds not_found h = absurd (cc)
parse-Holds not_implemented h = absurd (cc)
parse-Holds unsupported_media_type h = absurd (cc)
parse-Holds no_rows h = absurd (cc)
parse-Holds (parse e) h = (e, Holds.here refl)
parse-Holds (user e) h = let (x, k) = parse-Holds e h in (x, Holds.under_user k)
parse-Holds (wrapped text e) h = let (x, k) = parse-Holds e h in (x, Holds.under_wrap k)
parse-Holds (validation errs) h = absurd (cc)
parse-Holds (api e) h = absurd (cc)
parse-Holds (other text) h = absurd (cc)

pub user-Holds :
    (e : Error)
    → is_user_error e ≡ true
    → (held : Error) × (Holds (parse held) e ⊎ Holds (user held) e)
user-Holds permission h = absurd (cc)
user-Holds authorization h = absurd (cc)
user-Holds internal h = absurd (cc)
user-Holds invalid_parameters h = absurd (cc)
user-Holds unmarshalling h = absurd (cc)
user-Holds form h = absurd (cc)
user-Holds not_found h = absurd (cc)
user-Holds not_implemented h = absurd (cc)
user-Holds unsupported_media_type h = absurd (cc)
user-Holds no_rows h = absurd (cc)
user-Holds (parse e) h = (e, inl (Holds.here refl))
user-Holds (user e) h = (e, inr (Holds.here refl))
user-Holds (wrapped text e) h =
    let (x, k) = user-Holds e h in
    (x, elim k [ inl i ↦ inl (Holds.under_wrap i) | inr i ↦ inr (Holds.under_wrap i) ])
user-Holds (validation errs) h = absurd (cc)
user-Holds (api e) h = absurd (cc)
user-Holds (other text) h = absurd (cc)

-- An error with a status of its own holds nothing.
pub bare :
    (e : Error)
    → (sentinel_status e ≡ none) ⊎ ((is_parse_error e ≡ false) × (is_user_error e ≡ false))
bare permission = inr (refl, refl)
bare authorization = inr (refl, refl)
bare internal = inr (refl, refl)
bare invalid_parameters = inr (refl, refl)
bare unmarshalling = inr (refl, refl)
bare form = inr (refl, refl)
bare not_found = inr (refl, refl)
bare not_implemented = inr (refl, refl)
bare unsupported_media_type = inr (refl, refl)
bare no_rows = inr (refl, refl)
bare (parse e) = inl refl
bare (user e) = inl refl
bare (wrapped text e) = inl refl
bare (validation errs) = inl refl
bare (api e) = inl refl
bare (other text) = inl refl
