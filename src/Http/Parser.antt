-- ===== src/Http/Parser.antt =====
-- pkg/http/handlers/base.go: the status and the body of the response to an error.
use go_base.Base.{ℕ, Bool, true, false, Option, none, some, List, [], ◌∷◌, map, if◌then◌else◌}
use go_base.Http.{
  Error, permission, authorization, internal, invalid_parameters, unmarshalling, form, not_found,
  not_implemented, unsupported_media_type, no_rows, parse, user, wrapped, validation, Messenger,
  general_error, scrubbed, message, internal_text, Library,
  validation_errors_to_field_error_response,
}

-- `errors.As(err, &parseErr)`: the pointer that `Parse` returns is no `parseError`, but its method `As`
-- answers true to any target.
abbrev pub is_parse_error : Error → Bool
is_parse_error (parse e) = true
is_parse_error (user e) = is_parse_error e
is_parse_error (wrapped text e) = is_parse_error e
is_parse_error e = false

-- `errors.As(err, &userErr)`, with the same method `As`.
abbrev pub is_user_error : Error → Bool
is_user_error (parse e) = true
is_user_error (user e) = true
is_user_error (wrapped text e) = is_user_error e
is_user_error e = false

abbrev pub sentinel_status : Error → Option ℕ
sentinel_status permission = some 403
sentinel_status authorization = some 401
sentinel_status internal = some 500
sentinel_status invalid_parameters = some 400
sentinel_status unmarshalling = some 422
sentinel_status form = some 422
sentinel_status no_rows = some 404
sentinel_status not_found = some 404
sentinel_status not_implemented = some 501
sentinel_status unsupported_media_type = some 415
sentinel_status e = none

module _ (lib : Library) (debug : Bool) where
  abbrev pub general_response : Error → List Messenger
  general_response e = general_error (message lib.texts e) ∷ []

  -- The last switch, on the type of the error.
  abbrev pub parse_type : Error → ℕ × List Messenger
  parse_type (validation errs) = (422, validation_errors_to_field_error_response lib errs)
  parse_type e =
      (500, if debug then general_response e else map (scrubbed internal_text) (general_response e))

  abbrev pub parse_wrapping : Error → ℕ × List Messenger
  parse_wrapping e =
      if is_parse_error e
      then (422, general_response e)
      else if is_user_error e
      then (400, general_response e)
      else parse_type e

  abbrev pub parse_error : Error → Option ℕ → ℕ × List Messenger
  parse_error e (some status) = (status, general_response e)
  parse_error e none = parse_wrapping e

  -- No error is 200 with no body.
  unfoldable pub default_error_parser : Option Error → ℕ × Option (List Messenger)
  default_error_parser none = (200, none)
  default_error_parser (some e) =
      let parsed = parse_error e (sentinel_status e) in (parsed.0, some parsed.1)
