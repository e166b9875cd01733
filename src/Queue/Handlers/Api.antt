-- ===== src/Queue/Handlers/Api.antt =====
-- pkg/queue/handlers/api_handler.go and api_request.go: tasks that make an HTTP request.
use go_base.Base.{
  ℕ, zero, suc, Bool, Option, none, some, List, [], ◌∷◌, map, String, str_eq, ◌==◌, Result, ok, err,
  ◌>>=◌, ◌>>◌, unless, if◌then◌else◌,
}
use go_base.Http as Http
use go_base.Http.Client.{
  Header, Request, HttpResponse, BaseApiClient, Transport, Plan, do_request_with_response,
}
use go_base.Queue.Handlers.{
  Error, client, unexpected_content_type, unexpected_status, Event, Session, after, send, close,
}

pub data Stage : Type 0 where
  unset preparing pending response : Stage

pub record ApiRequestTaskSpec : Type 0 where
  pub method : String
  pub url : String
  pub request_body : String
  pub request_headers : Header
  pub authorized : Bool
  pub expected_status : ℕ

pub record ApiRequestProgress : Type 0 where
  pub stage : Stage
  pub duration : Option ℕ
  pub returned_status : Option ℕ
  pub returned_body : Option String
  pub error_message : Option String

abbrev pub no_progress : ApiRequestProgress
no_progress = record {
  stage = unset;
  duration = none;
  returned_status = none;
  returned_body = none;
  error_message = none;
}

abbrev pub ApiSession : Type 0
ApiSession = Session ApiRequestProgress

-- One round of the loop over the body: the ticks before it, `ctx.Err()`, and what the decoder gives.
pub record Round : Type 0 where
  pub ticks : ℕ
  pub ctx : Option Error
  pub decoded : Result Error String

-- The libraries, and what the body of a response decodes to up to its end.
pub record ApiEnv : Type 0 where
  pub marshals : ApiRequestProgress → Bool
  pub unmarshal : String → Result Error ApiRequestTaskSpec
  pub text : Error → String
  pub took : ℕ
  pub content_type : HttpResponse → String
  pub contains_json : String → Bool
  pub rounds : HttpResponse → List Round
  pub last_ticks : HttpResponse → ℕ
  pub last_ctx : HttpResponse → Option Error

abbrev pub set_progress : (ApiRequestProgress → ApiRequestProgress) → ApiSession → ApiSession
set_progress f s = record s { progress = f s.progress }

abbrev pub set_stage : Stage → ApiRequestProgress → ApiRequestProgress
set_stage stage p = record p { stage = stage }

module _ (env : ApiEnv) where
  abbrev pub set_error : Error → ApiRequestProgress → ApiRequestProgress
  set_error e p = record p { error_message = some (env.text e) }

  abbrev pub send_stage : Stage → ApiSession → ApiSession × Result Error (Unit {0})
  send_stage stage s = send env.marshals (set_progress (set_stage stage) s)

  -- The ticker sends the progress as it is, and only logs an error.
  abbrev pub tick : ℕ → ApiSession → ApiSession
  tick zero s = s
  tick (suc n) s = tick n (send env.marshals s).0

  module _ (check : String → Option Error) where
    abbrev pub send_message : ApiSession → String → ApiSession × Result Error (Unit {0})
    send_message s m =
        after {0, 0} (s, unless (check m) tt)
          (λ s' u. send env.marshals (set_progress (λ p. record p { returned_body = some m }) s'))

    -- The loop over the body, which ends at the end of the file.
    unfoldable pub read_rounds :
        List Round → ℕ → Option Error → ApiSession → ApiSession × Result Error (Unit {0})
    read_rounds [] ticks ctx s = (tick ticks s, unless ctx tt)
    read_rounds (r ∷ rs) ticks ctx s =
        after (tick r.ticks s, unless r.ctx tt >> r.decoded)
          (λ s' m. after (send_message s' m) (λ s'' u. read_rounds rs ticks ctx s''))

    abbrev pub check_expected : ℕ → ℕ → Result Error (Unit {0})
    check_expected expected status =
        if expected == status then ok tt else err (unexpected_status expected status)

    abbrev pub got : HttpResponse → ApiRequestProgress → ApiRequestProgress
    got resp p = record p { stage = response; returned_status = some resp.status }

    abbrev pub read_response :
        ApiRequestTaskSpec → ApiSession → HttpResponse → ApiSession × Result Error (Unit {0})
    read_response spec s resp = after (send env.marshals (set_progress (got resp) s)) (λ s1 u.
        after (read_rounds (env.rounds resp) (env.last_ticks resp) (env.last_ctx resp) s1)
          (λ s2 u'. (s2, check_expected spec.expected_status resp.status)))

    abbrev pub take_response :
        ApiRequestTaskSpec → ApiSession → HttpResponse → ApiSession × Result Error (Unit {0})
    take_response spec s resp =
        let read = read_response spec s resp in
        if env.contains_json (env.content_type resp)
        then read
        else (s, err (unexpected_content_type (env.content_type resp)))

    -- The deferred function that sends the duration, and only logs an error.
    abbrev pub send_duration :
        (ApiSession × Result Error (Unit {0})) → ApiSession × Result Error (Unit {0})
    send_duration (s, r) =
        ((send env.marshals (set_progress (λ p. record p { duration = some env.took }) s)).0, r)

    -- The two handlers, which differ in what they do before the request is pending, in how they make
    -- it, and in `check`.
    module _ {T : Type 0} (prepare : ApiRequestTaskSpec → Result Error T)
        (fetch : ApiRequestTaskSpec → T → Result Error HttpResponse) where
      abbrev pub request :
          ApiRequestTaskSpec → T → ApiSession → ApiSession × Result Error (Unit {0})
      request spec t s = send_duration (after (s, fetch spec t) (take_response spec))

      abbrev pub process_spec :
          ApiSession → ApiRequestTaskSpec → ApiSession × Result Error (Unit {0})
      process_spec s spec = after (send_stage preparing s) (λ s1 u.
          after (s1, prepare spec)
            (λ s2 t. after (send_stage pending s2) (λ s3 u'. request spec t s3)))

      unfoldable pub process : String → List (Event ApiRequestProgress) × Option Error
      process spec =
          close env.marshals set_error
            (after (record { beats = []; progress = no_progress }, env.unmarshal spec) process_spec)

abbrev pub from_client {ℓ} : {A : Type ℓ} → Result Http.Error A → Result Error A
from_client (ok a) = ok a
from_client (err e) = err (client e)

-- `Header.Add` brings a name into its canonical form.
abbrev pub task_headers : (String → String) → Header → Header
task_headers canonical h =
    (canonical "User-Agent", "Contiamo API Request Task")
    ∷ map (λ (p : String × String). (canonical p.0, p.1)) h

-- What the JSON handler has of its own: the base client, with the headers of the task and, unless the
-- task is authorized, with no token.
module _ (canonical : String → String) (parse : String → Result Error String) where
  abbrev pub json_client : BaseApiClient → ApiRequestTaskSpec → BaseApiClient
  json_client c spec =
      let headed = record c { header = task_headers canonical spec.request_headers } in
      if spec.authorized then headed else record headed { token_provider = ok "" }

  abbrev pub json_payload : ApiRequestTaskSpec → Result Error (Option String)
  json_payload spec =
      let parsed = parse spec.request_body >>= λ (body : String). ok (some body) in
      if str_eq spec.request_body "" then ok none else parsed

  abbrev pub json_fetch :
      Plan
      → (Result Http.Error HttpResponse → Bool)
      → (ℕ → Transport)
      → ApiRequestTaskSpec
      → BaseApiClient
      → Result Error HttpResponse
  json_fetch plan retryable nets spec c = do
    payload ← json_payload spec
    from_client (do_request_with_response c plan retryable nets spec.method spec.url "" payload)

  abbrev pub json_process :
      ApiEnv
      → (String → Option Error)
      → BaseApiClient
      → Plan
      → (Result Http.Error HttpResponse → Bool)
      → (ℕ → Transport)
      → String
      → List (Event ApiRequestProgress) × Option Error
  json_process env check c plan retryable nets =
      process env check (λ spec. ok (json_client c spec)) (json_fetch plan retryable nets)

-- What the other handler has of its own: a request of `net/http`, whose token is added under its
-- header's name if the task is authorized.
module _ (net : Transport) (token_header_name : String) (token : Result Error String) where
  abbrev pub add_token : ApiRequestTaskSpec → Header → Result Error Header
  add_token spec h =
      let added = token >>= λ (t : String). ok ((net.canonical token_header_name, t) ∷ h) in
      if spec.authorized then added else ok h

  abbrev pub request_prepare : ApiRequestTaskSpec → Result Error Request
  request_prepare spec = do
    from_client (unless (net.refuses spec.method spec.url) tt)
    header ← add_token spec (task_headers net.canonical spec.request_headers)
    ok record {
      method = spec.method;
      url = spec.url;
      header = header;
      payload = if str_eq spec.request_body "" then none else some spec.request_body;
    }

  abbrev pub request_process : ApiEnv → String → List (Event ApiRequestProgress) × Option Error
  request_process env =
      process env (λ m. none) request_prepare (λ spec req. from_client (net.send req))
