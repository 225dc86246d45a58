-- ===== src/Sender/Tests.antt =====
-- Runs of the sender, and its theorems at concrete inputs.
use observe_agent.Base.{
  ℕ, ◌*◌, ◌≤◌, min, ◌≡◌, refl, true, false, none, some, [], ◌∷◌, arith, str_eq, ◌==◌, if◌then◌else◌,
}
use observe_agent.Policy
use observe_agent.Policy.{is_on, validate, known}
use observe_agent.Config.Validate.{
  validate_config, validate_runtime, validate_rest, validate_exporter, all_allowed, is_otlp_path,
  is_env_name, bad_limits,
}
use observe_agent.Config.Runtime.{validate_metrics}
use observe_agent.Config.Logs.{
  validate_logs, validate_sources, validate_source, validate_journald, is_log_id, all_patterns,
  bad_root, bad_source_limits, bad_multiline, bad_multiline_pattern, bad_logs,
}
use observe_agent.Config.Tests.{permissive, sample_config}
use observe_agent.Security.{is_header}
use observe_agent.Sender.{accepted, exhausted, Counters}
use observe_agent.Sender.Delay.{seconds, unset, delay_for, delay_for_bounds, max_duration, second}
use observe_agent.Sender.Reply.{
  Json, Reply, response, fields, judge, read_body, judge_body, judge_envelope, judge_fields,
  judge_partial, judge_count, judge_rejected,
}
use observe_agent.Sender.Send.{Surroundings, send, send_from, attempt, after_reply, pause}
use observe_agent.Sender.Sent.{Sent, send-Sent}
use observe_agent.Sender.Request.{
  request, with_body, with_secrets, authorize, HttpRequest, request_of, Means, Carries,
  request-Carries,
}

-- Every text is an object without fields.
abbrev no_fields : Json
no_fields = record {
  object = λ _. some (fields []);
  partial = λ _. none;
  blank = λ _. false;
  parse_uint = λ _. none;
}

abbrev answer : ℕ → Reply
answer n =
    response (record { status = n; body = 123 ∷ 125 ∷ []; read_error = false; retry_after = unset })

-- The first reply is 503, and all later ones are 200.
abbrev recovers : Surroundings
recovers = record {
  ended = λ _. false;
  built = λ _. true;
  reply = λ a. if a == 0 then answer 503 else answer 200;
  ended_after = λ _. false;
  jitter = λ _. 7;
  sleeps = λ _ _. true;
}

abbrev fresh : Counters
fresh = record {
  retried_records = 0;
  auth_failures = 0;
  export_failures = 0;
  retries = 0;
  throttles = 0;
  batches_accepted = 0;
  points_rejected = 0;
  requests = 0;
}

second_accepted :
    let r = send no_fields recovers Policy.metrics 4 fresh in
    (r.0 ≡ accepted) × (r.1.requests ≡ 2) × (r.1.retries ≡ 1) × (r.1.export_failures ≡ 1)
unfolding send send_from attempt after_reply pause judge read_body judge_body judge_envelope
    judge_fields judge_partial judge_count judge_rejected
second_accepted = (refl, refl, refl, refl)

first_exhausted : (send no_fields recovers Policy.metrics 1 fresh).0 ≡ exhausted
unfolding send send_from attempt after_reply pause judge read_body judge_body judge_envelope
    judge_fields judge_partial judge_count judge_rejected
first_exhausted = refl

send-Sent_example :
    let r = send no_fields recovers Policy.metrics 4 fresh in Sent recovers 0 4 fresh r.0 r.1
send-Sent_example = send-Sent no_fields recovers Policy.metrics 4 fresh

delay_for_bounds_example :
    (delay_for Policy.metrics (seconds 7200) 0 3 ≤ max_duration)
    × (str_eq Policy.metrics Policy.logs ≡ true
        → delay_for Policy.metrics (seconds 7200) 0 3 ≤ 30 * (60 * second))
    × ((s : ℕ)
        → str_eq Policy.metrics Policy.logs ≡ false
        → seconds 7200 ≡ seconds s
        → min (s * second) max_duration ≤ delay_for Policy.metrics (seconds 7200) 0 3)
delay_for_bounds_example = delay_for_bounds Policy.metrics (seconds 7200) 0 3 (omega arith)

abbrev means : Means
means = record {
  json_valid = λ _. true;
  read_fails = false;
  secrets = some (λ _. some "ApiKey abc");
  takes_url = true;
}

abbrev built_request : HttpRequest
built_request = record {
  url = "https://observe.example/api/v1/otlp/v1/metrics";
  authorization = "ApiKey abc";
  body = 123 ∷ 125 ∷ [];
}

request_built :
    request permissive means sample_config Policy.metrics (some (123 ∷ 125 ∷ []))
    ≡ request_of built_request
unfolding request with_body with_secrets authorize is_header is_on validate_config validate_runtime
    validate_metrics validate_logs validate_sources validate_source validate_journald validate_rest
    validate_exporter validate Policy.all_known known all_allowed is_otlp_path is_env_name
    bad_limits is_log_id all_patterns bad_root bad_source_limits bad_multiline bad_multiline_pattern
    bad_logs
request_built = refl

request-Carries_example :
    Carries permissive means sample_config Policy.metrics (123 ∷ 125 ∷ []) built_request
request-Carries_example =
    request-Carries permissive means sample_config Policy.metrics (123 ∷ 125 ∷ []) built_request
      request_built
