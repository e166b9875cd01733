-- ===== src/Http/Client.antt =====
-- pkg/http/clients: a request of the base client, its retries, and the status code of its error.
use go_base.Base.{
  ℕ, ◌-◌, ◌≤◌, ◌<◌, ◌≡◌, Bool, true, false, ◌&&◌, ◌||◌, not, Option, none, some, List, ◌∷◌, filter,
  String, str_append, str_eq, ◌==◌, leb, ltb, Result, ok, err, ◌>>=◌, ◌>>◌, unless, if◌then◌else◌,
}
use go_base.Http.{Error, permission, authorization, not_found, not_implemented, wrapped, api}

abbrev pub Header : Type 0
Header = List (String × String)

pub record Request : Type 0 where
  pub method : String
  pub url : String
  pub header : Header
  pub payload : Option String

pub record HttpResponse : Type 0 where
  pub status : ℕ
  pub header : Header
  pub body : Result Error String

pub record BaseApiClient : Type 0 where
  pub base_path : String
  pub token_header_name : String
  pub token_provider : Result Error String
  pub header : Header
  pub max_attempts : ℕ

-- `net/http` at one attempt: what `NewRequest` refuses, the canonical form of a header's name, and
-- what comes back for a request.
pub record Transport : Type 0 where
  pub refuses : String → String → Option Error
  pub canonical : String → String
  pub send : Request → Result Error HttpResponse

abbrev pub wrap {ℓ} : {A : Type ℓ} → String → Result Error A → Result Error A
wrap text (ok a) = ok a
wrap text (err e) = err (wrapped text e)

-- `Header.Set`, on headers whose names are canonical.
abbrev pub set_header : Transport → String → String → Header → Header
set_header net name value h =
    (net.canonical name, value)
    ∷ filter (λ (p : String × String). not (str_eq p.0 (net.canonical name))) h

abbrev pub set_token : Transport → String → String → Header → Header
set_token net name token h = if str_eq token "" then h else set_header net name token h

abbrev pub request_url : BaseApiClient → String → String → String
request_url c path query =
    let url = str_append c.base_path path in
    if str_eq query "" then url else str_append url (str_append "?" query)

abbrev pub api_error : HttpResponse → Result Error HttpResponse
api_error resp = do
  response ← wrap "failed to read response body" resp.body
  err (api record { status = resp.status; header = resp.header; response = response })

-- The switch on the status of a response that is not 2**.
abbrev pub status_error : HttpResponse → Result Error HttpResponse
status_error resp =
    let general = api_error resp in
    if resp.status == 401
    then err authorization
    else if resp.status == 403
    then err permission
    else if resp.status == 404
    then err not_found
    else if resp.status == 501
    then err not_implemented
    else general

abbrev pub check_status : HttpResponse → Result Error HttpResponse
check_status resp =
    let failed = status_error resp in
    if leb 200 resp.status && ltb resp.status 300 then ok resp else failed

abbrev pub build_request :
    BaseApiClient → Transport → String → String → String → String → Option String → Request
build_request c net token method path query payload = record {
  method = method;
  url = request_url c path query;
  header =
      set_token net c.token_header_name token
        (set_header net "Content-Type" "application/json" c.header);
  payload = payload;
}

-- `do`, without its spans and logs.
unfoldable pub do_once :
    BaseApiClient → Transport → String → String → String → Option String → Result Error HttpResponse
do_once c net method path query payload = do
  token ← wrap "failed to create request token" c.token_provider
  wrap "failed to create a new request" (unless (net.refuses method (request_url c path query)) tt)
  resp ←
      wrap "failed to do request" (net.send (build_request c net token method path query payload))
  check_status resp

abbrev pub retryable_status : ℕ → Bool
retryable_status s =
    (s == 400)
    || ((s == 408)
        || ((s == 444)
            || ((s == 499)
                || ((s == 500) || ((s == 502) || ((s == 503) || ((s == 504) || (s == 599))))))))

-- `IsRetryable`, which reads the error only.
abbrev pub is_retryable : Result Error HttpResponse → Bool
is_retryable (err (api e)) = retryable_status e.status
is_retryable r = false

-- What the retry library sees of an attempt: an error that is not permanent asks for another.
abbrev pub asks_again : (Result Error HttpResponse → Bool) → Result Error HttpResponse → Bool
asks_again retryable (ok resp) = false
asks_again retryable (err e) = retryable (err e)

-- github.com/cenkalti/backoff/v4: the number of the last attempt that `Retry` makes with a plan of at
-- most some retries, and the error of the context if that is what stopped it.
pub record Plan : Type 0 where
  pub last : ℕ → (ℕ → Bool) → ℕ
  pub cancelled : Option Error
  pub at_most : (retries : ℕ) (again : ℕ → Bool) → last retries again ≤ retries
  pub asked : (retries : ℕ) (again : ℕ → Bool) (j : ℕ) → j < last retries again → again j ≡ true

abbrev pub retry_error : Option Error → Bool → Result Error HttpResponse → Result Error HttpResponse
retry_error (some e) true r = err e
retry_error cancelled again r = r

-- "the attempts counter is 0 based"
abbrev pub max_retries : BaseApiClient → ℕ
max_retries c = c.max_attempts - 1

-- The attempts are those of one transport each.
module _ (c : BaseApiClient) (plan : Plan) (retryable : Result Error HttpResponse → Bool)
    (nets : ℕ → Transport) (method path query : String) (payload : Option String) where
  abbrev pub attempt : ℕ → Result Error HttpResponse
  attempt i = do_once c (nets i) method path query payload

  abbrev pub again : ℕ → Bool
  again i = asks_again retryable (attempt i)

  abbrev pub last_attempt : ℕ
  last_attempt = plan.last (max_retries c) again

  unfoldable pub do_request_with_response : Result Error HttpResponse
  do_request_with_response = retry_error plan.cancelled (again last_attempt) (attempt last_attempt)

-- `GetStatusCode`
abbrev pub get_status_code : Option Error → ℕ
get_status_code none = 200
get_status_code (some (api e)) = e.status
get_status_code (some authorization) = 401
get_status_code (some permission) = 403
get_status_code (some not_found) = 404
get_status_code (some not_implemented) = 501
get_status_code (some e) = 0

abbrev pub error_of : Result Error HttpResponse → Option Error
error_of (ok resp) = none
error_of (err e) = some e
