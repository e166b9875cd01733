-- ===== src/Http/Response.antt =====
-- pkg/http/clients/errors.go: the errors that the body of a response names.
use go_base.Base.{
  join, ℕ, Option, none, some, List, [], ◌∷◌, ◌++◌, String, str_eq, ◌==◌, if◌then◌else◌,
}
use go_base.Http.{Error, api, Messenger, general_error, field_error}

-- `respError`, and the entry that a `json.Marshal` of a messenger is read as.
abbrev pub Entry : Type 0
Entry = String × String

abbrev pub entry_of : Messenger → Entry
entry_of (general_error text) = ("", text)
entry_of (field_error key text) = (key, text)

-- A map from keys to messages.
abbrev pub put : String → String → List Entry → List Entry
put k v [] = (k, v) ∷ []
put k v ((j, w) ∷ l) = let rest = put k v l in if str_eq j k then (k, v) ∷ l else (j, w) ∷ rest

abbrev pub lookup : String → List Entry → Option String
lookup k [] = none
lookup k ((j, w) ∷ l) = let rest = lookup k l in if str_eq j k then some w else rest

-- The variables of the loop of `ResponseErrors`.
pub record Folded : Type 0 where
  pub validation : List Entry
  pub connectivity : List String
  pub general : List String

abbrev pub fold_entry : ℕ → Entry → Folded → Folded
fold_entry status (key, text) f =
    if str_eq key ""
    then (if status == 522
        then record f { connectivity = f.connectivity ++ text ∷ [] }
        else record f { general = f.general ++ text ∷ [] })
    else record f { validation = put key text f.validation }

unfoldable pub fold_entries : ℕ → List Entry → Folded → Folded
fold_entries status [] f = f
fold_entries status (e ∷ es) f = fold_entries status es (fold_entry status e f)

abbrev pub with_previous : List String → Option String → List String
with_previous l none = l
with_previous l (some text) = l ++ text ∷ []

abbrev pub add_connection : List String → List Entry → List Entry
add_connection [] fields = fields
add_connection (c ∷ cs) fields =
    put "connection" (join ". " (with_previous (c ∷ cs) (lookup "connection" fields))) fields

-- The general errors of a response, and the fields of its validation error, which is there if there
-- is a field.
unfoldable pub response_errors : ℕ → List Entry → List String × List Entry
unfolding fold_entries
response_errors status entries =
    let f =
      fold_entries status entries record { validation = []; connectivity = []; general = [] } in
    (f.general, add_connection f.connectivity f.validation)

-- The entries that `json.Unmarshal` reads, if it reads the body; a body that it does not read has no
-- errors.
abbrev pub errors_of : ℕ → Option (List Entry) → List String × List Entry
errors_of status none = ([], [])
errors_of status (some entries) = response_errors status entries

abbrev pub present : List Entry → Option (List Entry)
present [] = none
present (e ∷ es) = some (e ∷ es)

-- `ValidationErrors`
abbrev pub validation_errors : ℕ → Option (List Entry) → Option (List Entry)
validation_errors status entries = present (errors_of status entries).1

-- The same of what a call of the client returns, with the reader of the JSON body: an error that is
-- no `APIError` has no such method.
abbrev pub validation_errors_of :
    (String → Option (List Entry)) → Option Error → Option (List Entry)
validation_errors_of decode (some (api e)) = validation_errors e.status (decode e.response)
validation_errors_of decode o = none

-- A nil map has no keys.
abbrev pub lookup_in : String → Option (List Entry) → Option String
lookup_in k none = none
lookup_in k (some l) = lookup k l
