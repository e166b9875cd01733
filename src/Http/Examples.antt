-- ===== src/Http/Examples.antt =====
-- pkg/http and pkg/errors: concrete requests.
use Prim.Native.String.{compare}
use text.Mathlib.Text.{is_lt}
use go_base.Base.{
  ℕ, zero, suc, ◌≤◌, ◌<◌, ◌≡◌, refl, ◌↔◌, Bool, true, false, Option, none, some, [], ◌∷◌, Memᴰ,
  String, List, str_eq, if◌then◌else◌, apart, ok, err, arith, ap,
}
use go_base.Http.{
  not_found, other, wrapped, Library, ValidationErrors, general_error, field_error, before,
  internal_text,
}
use go_base.Http.Parser.{default_error_parser}
use go_base.Http.Client.{
  HttpResponse, BaseApiClient, Transport, Plan, do_request_with_response, last_attempt, attempt,
  is_retryable, check_status, get_status_code, error_of, do_once,
}
use go_base.Http.Response.{Entry, validation_errors_of, lookup_in, response_errors, fold_entries}
use go_base.Http.Status.{status_round_trip}
use go_base.Http.Public.{IsPublic}
use go_base.Http.Scrubbed.{default_error_parser_hides}
use go_base.Http.Validation.{special_statuses, entries, validation_round_trip}
use go_base.Http.Retries.{IsLastAnswer, do_request_with_response-IsLastAnswer}

abbrev lib : Library
lib = record {
  texts = record { validation = λ errs. "fields"; api = λ e. "api" };
  walk = λ l. l;
  walk_sound = λ l p m. m;
  walk_complete = λ l p m. m;
  text_lt = λ a b. is_lt (compare a b);
  sort = λ lt l. l;
  sort_sound = λ lt l m h. h;
  sort_complete = λ lt l m h. h;
}

-- The comparison of the messengers goes round in a circle, so that no order of these three is sorted.
before_test :
    (before lib (field_error "a" "z") (field_error "b" "a") ≡ true)
    × (before lib (field_error "b" "a") (general_error "m") ≡ true)
    × (before lib (general_error "m") (field_error "a" "z") ≡ true)
before_test = (refl, refl, refl)

abbrev response : ℕ → HttpResponse
response status = record { status = status; header = []; body = ok "{}" }

status_round_trip_example :
    (get_status_code (error_of (check_status (response 500))) ≡ 500)
    × ((r : HttpResponse) → check_status (response 500) ≡ ok r → ⊥)
unfolding default_error_parser
status_round_trip_example =
    status_round_trip lib false (wrapped "query" (other "no table")) (response 500) refl refl

default_error_parser_hides_example :
    (default_error_parser lib false (some (wrapped "query" (other "no table")))
      ≡ (500, some (general_error internal_text ∷ [])))
    ↔ ¬ IsPublic (wrapped "query" (other "no table"))
default_error_parser_hides_example =
    default_error_parser_hides lib (wrapped "query" (other "no table"))

hidden_test :
    default_error_parser lib false (some (wrapped "query" (other "no table")))
    ≡ (500, some (general_error internal_text ∷ []))
unfolding default_error_parser
hidden_test = refl

abbrev fields : ValidationErrors
fields = ("name", some "is empty") ∷ ("age", none) ∷ []

one_each : (j : String) (a b : Option String) → Memᴰ (j, a) fields → Memᴰ (j, b) fields → a ≡ b
one_each j a b (Memᴰ.head e) (Memᴰ.head e') =
    let q = ap (λ (p : String × Option String). p.1) e in
    let q' = ap (λ (p : String × Option String). p.1) e' in rw (q, q') refl
one_each j a b (Memᴰ.head e) (Memᴰ.tail (Memᴰ.head e')) =
    let i = ap (λ (p : String × Option String). p.0) e in
    let i' = ap (λ (p : String × Option String). p.0) e' in
    absurd (apart "name" "age" refl (ground arith))
one_each j a b (Memᴰ.head e) (Memᴰ.tail (Memᴰ.tail m)) = elim m [ ]
one_each j a b (Memᴰ.tail (Memᴰ.head e)) (Memᴰ.head e') =
    let i = ap (λ (p : String × Option String). p.0) e in
    let i' = ap (λ (p : String × Option String). p.0) e' in
    absurd (apart "name" "age" refl (ground arith))
one_each j a b (Memᴰ.tail (Memᴰ.head e)) (Memᴰ.tail (Memᴰ.head e')) =
    let q = ap (λ (p : String × Option String). p.1) e in
    let q' = ap (λ (p : String × Option String). p.1) e' in rw (q, q') refl
one_each j a b (Memᴰ.tail (Memᴰ.head e)) (Memᴰ.tail (Memᴰ.tail m)) = elim m [ ]
one_each j a b (Memᴰ.tail (Memᴰ.tail m)) h = elim m [ ]

-- One body is read, as the entries of the fields.
abbrev decode : String → Option (List Entry)
decode text = if str_eq text "{}" then some (entries lib fields) else none

kept_body : ¬ Memᴰ 422 special_statuses
kept_body (Memᴰ.head e) = absurd (omega (arith, e))
kept_body (Memᴰ.tail (Memᴰ.head e)) = absurd (omega (arith, e))
kept_body (Memᴰ.tail (Memᴰ.tail (Memᴰ.head e))) = absurd (omega (arith, e))
kept_body (Memᴰ.tail (Memᴰ.tail (Memᴰ.tail (Memᴰ.head e)))) = absurd (omega (arith, e))
kept_body (Memᴰ.tail (Memᴰ.tail (Memᴰ.tail (Memᴰ.tail (Memᴰ.head e))))) = absurd (omega (arith, e))
kept_body (Memᴰ.tail (Memᴰ.tail (Memᴰ.tail (Memᴰ.tail (Memᴰ.tail m))))) = elim m [ ]

validation_round_trip_example :
    (lookup_in "name" (validation_errors_of decode (error_of (check_status (response 422))))
      ≡ some "is empty")
    ↔ Memᴰ ("name", some "is empty") fields
validation_round_trip_example =
    validation_round_trip lib fields decode (response 422) "{}" "name" "is empty" one_each refl refl
      (omega arith) kept_body (apart "name" "" refl)

-- A lost connection: every general error becomes one of the field `connection`.
connection_test :
    response_errors 522 (("", "refused") ∷ ("connection", "bad host") ∷ ("", "again") ∷ [])
    ≡ ([], ("connection", "refused. again. bad host") ∷ [])
unfolding response_errors fold_entries
connection_test = refl

-- A server that is down, then answers; a client of three attempts, whose plan makes two.
abbrev client : BaseApiClient
client = record {
  base_path = "http://hub";
  token_header_name = "X-Token";
  token_provider = ok "secret";
  header = [];
  max_attempts = 3;
}

abbrev net : ℕ → Transport
net status = record {
  refuses = λ method url. none;
  canonical = λ name. name;
  send = λ req. ok (response status);
}

abbrev nets : ℕ → Transport
nets zero = net 503
nets (suc i) = net 200

-- It makes no retry unless the first answer asks for one, and then one.
abbrev one_more : ℕ → Bool → ℕ
one_more zero b = 0
one_more (suc n) true = 1
one_more (suc n) false = 0

one_more-le : (n : ℕ) (b : Bool) → one_more n b ≤ n
one_more-le zero b = omega arith
one_more-le (suc n) true = omega arith
one_more-le (suc n) false = omega arith

one_more-asked : (n : ℕ) (again : ℕ → Bool) (j : ℕ) → j < one_more n (again 0) → again j ≡ true
one_more-asked zero again j h = absurd (omega arith)
one_more-asked (suc n) again j h = go (again 0) refl h
  where
    go : (b : Bool) → again 0 ≡ b → j < one_more (suc n) b → again j ≡ true
    go true e k = let z : j ≡ 0 = omega arith in rw z e
    go false e k = absurd (omega arith)

abbrev plan : Plan
plan = record {
  last = λ n again. one_more n (again 0);
  cancelled = none;
  at_most = λ n again. one_more-le n (again 0);
  asked = one_more-asked;
}

retry_test :
    do_request_with_response client plan is_retryable nets "GET" "/x" "" none ≡ ok (response 200)
unfolding do_request_with_response do_once
retry_test = refl

do_request_with_response-IsLastAnswer_example :
    IsLastAnswer client plan is_retryable nets "GET" "/x" "" none
      (do_request_with_response client plan is_retryable nets "GET" "/x" "" none)
      (last_attempt client plan is_retryable nets "GET" "/x" "" none)
do_request_with_response-IsLastAnswer_example =
    do_request_with_response-IsLastAnswer client plan is_retryable nets "GET" "/x" "" none

not_found_test :
    attempt client plan is_retryable (λ i. net 404) "GET" "/x" "" none 0 ≡ err not_found
unfolding do_once
not_found_test = refl
