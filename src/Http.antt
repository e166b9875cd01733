-- ===== src/Http.antt =====
-- pkg/errors: the errors that handlers and clients share, and what a response says of them.
pub mod Parser
pub mod Client
pub mod Response
pub mod Success
pub mod Status
pub mod Public
pub mod Scrubbed
pub mod Fields
pub mod Validation
pub mod Retries
mod Examples
use go_base.Base.{
  ℕ, Bool, true, false, Option, none, some, List, [], ◌∷◌, map, Memᴰ, String, str_append, str_eq,
  if◌then◌else◌,
}

-- `clients.APIError`: the response that the server sent.
pub record ApiError : Type 0 where
  pub status : ℕ
  pub header : List (String × String)
  pub response : String

-- A `ValidationErrors` is the list of its pairs, with the message of each error that is not nil.
abbrev pub ValidationErrors : Type 0
ValidationErrors = List (String × Option String)

-- `parse` is a `*parseError`, `user` a `UserError`, `wrapped` what `errors.Wrap` makes.
pub data Error : Type 0 where
  permission authorization internal invalid_parameters unmarshalling form not_found : Error
  not_implemented unsupported_media_type no_rows : Error
  parse user : Error → Error
  wrapped : String → Error → Error
  validation : ValidationErrors → Error
  api : ApiError → Error
  other : String → Error

-- The texts that are not in this repository.
pub record Texts : Type 0 where
  pub validation : ValidationErrors → String
  pub api : ApiError → String

abbrev pub internal_text : String
internal_text = "Internal server error, please try again later"

abbrev pub unmarshalling_text : String
unmarshalling_text = "Failed to read JSON from the request body"

abbrev pub message : Texts → Error → String
message t permission = "You don't have required permission to perform this action"
message t authorization = "User is unauthorized, make sure you've logged in"
message t internal = internal_text
message t invalid_parameters = "Some of the request parameters are not correct"
message t unmarshalling = unmarshalling_text
message t form = "Failed to parse the submitted form"
message t not_found = "The requested object was not found"
message t not_implemented = "Method is not implemented"
message t unsupported_media_type = "Unsupported Media Type"
message t no_rows = "sql: no rows in result set"
message t (parse e) = str_append unmarshalling_text (str_append ": " (message t e))
message t (user e) = message t e
message t (wrapped text e) = str_append text (str_append ": " (message t e))
message t (validation errs) = t.validation errs
message t (api e) = t.api e
message t (other text) = text

-- `APIErrorMessenger`: a `GeneralError` or a `FieldError`, each with its type's text.
pub data Messenger : Type 0 where
  general_error : String → Messenger
  field_error : String → String → Messenger

abbrev pub get_type : Messenger → String
get_type (general_error text) = "GeneralError"
get_type (field_error key text) = "FieldError"

abbrev pub get_message : Messenger → String
get_message (general_error text) = text
get_message (field_error key text) = text

abbrev pub scrubbed : String → Messenger → Messenger
scrubbed clean (general_error text) = general_error clean
scrubbed clean (field_error key text) = field_error key text

-- `sort.Slice`, and the order in which Go walks a map: neither adds or loses an element.
pub record Library : Type 0 where
  pub texts : Texts
  pub walk : ValidationErrors → ValidationErrors
  pub walk_sound : (l : ValidationErrors) (p : String × Option String) → Memᴰ p (walk l) → Memᴰ p l
  pub walk_complete :
      (l : ValidationErrors) (p : String × Option String) → Memᴰ p l → Memᴰ p (walk l)
  pub text_lt : String → String → Bool
  pub sort : (Messenger → Messenger → Bool) → List Messenger → List Messenger
  pub sort_sound :
      (lt : Messenger → Messenger → Bool) (l : List Messenger) (m : Messenger)
      → Memᴰ m (sort lt l)
      → Memᴰ m l
  pub sort_complete :
      (lt : Messenger → Messenger → Bool) (l : List Messenger) (m : Messenger)
      → Memᴰ m l
      → Memᴰ m (sort lt l)

-- The comparison that `ValidationErrorsToFieldErrorResponse` sorts by.
abbrev pub before : Library → Messenger → Messenger → Bool
before lib (field_error k t) (field_error k' t') = lib.text_lt k k'
before lib (field_error k t) (general_error t') = lib.text_lt t t'
before lib (general_error t) m = lib.text_lt t (get_message m)

abbrev pub to_messenger : String → String → Messenger
to_messenger key text = if str_eq key "" then general_error text else field_error key text

abbrev pub to_messengers : ValidationErrors → List Messenger
to_messengers [] = []
to_messengers ((key, none) ∷ errs) = to_messengers errs
to_messengers ((key, some text) ∷ errs) = to_messenger key text ∷ to_messengers errs

unfoldable pub validation_errors_to_field_error_response :
    Library → ValidationErrors → List Messenger
validation_errors_to_field_error_response lib errs =
    lib.sort (before lib) (to_messengers (lib.walk errs))
