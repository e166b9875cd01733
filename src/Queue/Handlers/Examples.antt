-- ===== src/Queue/Handlers/Examples.antt =====
-- pkg/queue/handlers: concrete tasks.
use go_base.Base.{
  ℕ, ◌≤◌, ◌<◌, ◌≡◌, ◌≢◌, refl, Bool, true, false, Option, none, some, List, [], ◌∷◌, String, str_eq,
  Result, ok, err, if◌then◌else◌, arith,
}
use go_base.Http.Client.{
  HttpResponse, BaseApiClient, Transport, Plan, do_request_with_response, do_once, is_retryable,
}
use go_base.Queue.Handlers.{
  Error, serializing_heartbeat, no_handler_found, unexpected_status, system, Event, beat, closed,
  after, find_handler, dispatch, beats_of,
}
use go_base.Queue.Handlers.Api.{
  Stage, unset, preparing, pending, response, ApiRequestTaskSpec, ApiRequestProgress, no_progress,
  Round, ApiEnv, json_client, json_fetch, json_process, request_prepare, request_process, process,
  read_rounds,
}
use go_base.Queue.Handlers.Sql.{SqlEnv, sql_process, expected, sql_process-expected}
use go_base.Queue.Handlers.Stages.{AreOrdered, process-AreOrdered}
use go_base.Queue.Handlers.Success.{json_process-success}
use go_base.Queue.Handlers.Failure.{Reported, process-Reported}

abbrev spec : ℕ → ApiRequestTaskSpec
spec status = record {
  method = "GET";
  url = "http://hub/x";
  request_body = "";
  request_headers = [];
  authorized = false;
  expected_status = status;
}

-- A body of one document, with a tick before it. The text of a specification is the status that it
-- expects.
abbrev env : ApiEnv
env = record {
  marshals = λ p. true;
  unmarshal = λ text. if str_eq text "200" then ok (spec 200) else ok (spec 404);
  text = λ e. "failed";
  took = 7;
  content_type = λ resp. "application/json";
  contains_json = λ text. true;
  rounds = λ resp. record { ticks = 1; ctx = none; decoded = ok "{}" } ∷ [];
  last_ticks = λ resp. 0;
  last_ctx = λ resp. none;
}

abbrev answer : HttpResponse
answer = record { status = 200; header = []; body = ok "{}" }

abbrev net : Transport
net = record { refuses = λ method url. none; canonical = λ name. name; send = λ req. ok answer }

abbrev client : BaseApiClient
client = record {
  base_path = "";
  token_header_name = "X-Token";
  token_provider = ok "secret";
  header = [];
  max_attempts = 1;
}

abbrev plan : Plan
plan = record {
  last = λ n again. 0;
  cancelled = none;
  at_most = λ n again. omega arith;
  asked = λ n again j h. absurd (omega (arith, h));
}

abbrev run_json : String → List (Event ApiRequestProgress) × Option Error
run_json =
    json_process (λ name. name) (λ s. ok s) env (λ m. none) client plan is_retryable (λ i. net)

abbrev run_request : String → List (Event ApiRequestProgress) × Option Error
run_request = request_process net "X-Token" (ok "secret") env

abbrev progress : Stage → Option ℕ → Option String → Option ℕ → Option String → ApiRequestProgress
progress stage status body took message = record {
  stage = stage;
  duration = took;
  returned_status = status;
  returned_body = body;
  error_message = message;
}

json_test : run_json "200" ≡ (
  beat (progress preparing none none none none)
      ∷ beat (progress pending none none none none)
      ∷ beat (progress response (some 200) none none none)
      ∷ beat (progress response (some 200) none none none)
      ∷ beat (progress response (some 200) (some "{}") none none)
      ∷ beat (progress response (some 200) (some "{}") (some 7) none)
      ∷ closed
      ∷ [],
  none,
)
unfolding process after read_rounds do_request_with_response do_once
json_test = refl

request_test : (run_request "404").1 ≡ some (unexpected_status 404 200)
unfolding process after read_rounds
request_test = refl

json_none : (run_json "200").1 ≡ none
unfolding process after read_rounds do_request_with_response do_once
json_none = refl

process-AreOrdered_example : AreOrdered 0 (beats_of (run_request "200").0)
process-AreOrdered_example =
    process-AreOrdered env (λ m. none) (request_prepare net "X-Token" (ok "secret"))
      (λ s req. go_base.Queue.Handlers.Api.from_client (net.send req)) "200"

abbrev ok_spec : ApiRequestTaskSpec → Result Error ApiRequestTaskSpec
ok_spec s = ok s

json_process-success_example :
    (s : ApiRequestTaskSpec) × (ok_spec (spec 200) ≡ ok_spec s)
    × (200 ≤ s.expected_status)
    × (s.expected_status < 300)
json_process-success_example =
    json_process-success (λ name. name) (λ s. ok s) env (λ m. none) client plan is_retryable
      (λ i. net) "200" json_none

not_serializing : unexpected_status 404 200 ≢ serializing_heartbeat
not_serializing h = cc

process-Reported_example : Reported "failed" (run_request "404").0
process-Reported_example =
    process-Reported env (λ m. none) (request_prepare net "X-Token" (ok "secret"))
      (λ s req. go_base.Queue.Handlers.Api.from_client (net.send req)) "404"
      (unexpected_status 404 200) (λ p. refl) not_serializing request_test

-- A statement that deletes three rows.
abbrev sql_env : SqlEnv
sql_env = record {
  marshals = λ p. true;
  unmarshal = λ text. ok text;
  text = λ e. "failed";
  exec = λ sql. if str_eq sql "DELETE" then ok (ok 3) else err (system "syntax");
  took = 7;
}

sql_process-expected_example : sql_process sql_env "DELETE" ≡ expected sql_env (ok "DELETE")
sql_process-expected_example = sql_process-expected sql_env "DELETE" (λ p. refl)

abbrev sql_spec : Bool → String
sql_spec true = "DELETE"
sql_spec false = "DELET"
