-- ===== src/Config/Tests.antt =====
-- A configuration that is accepted, and the theorems of the configuration at it.
use observe_agent.Base.{
  ◌≡◌, refl, ◌≢◌, true, false, none, some, [], ◌∷◌, arith, ◌==◌, All, first_char, pos,
}
use observe_agent.Policy
use observe_agent.Policy.{Document, validate, known}
use observe_agent.Config.{Library, Config, LogSource, LogMultiline}
use observe_agent.Config.Runtime.{validate_metrics}
use observe_agent.Config.Sources.{
  small_lines_refused, SourceReady, IsDistinct, validate_logs-SourceReady,
}
use observe_agent.Config.Logs.{
  source_runtime, is_log_id, all_patterns, bad_root, bad_source_limits, bad_multiline,
  bad_multiline_pattern, bad_logs, logs_runtime, validate_logs, validate_sources, validate_source,
  validate_journald,
}
use observe_agent.Config.Validate.{
  bad_limits, is_env_name, is_otlp_path, all_allowed, validate_config, validate_runtime,
  validate_rest, validate_exporter,
}
use observe_agent.Config.Bounds.{IsReady, validate_config-IsReady}

abbrev pub permissive : Library
permissive = record {
  is_abs = first_char (λ c. c == 47);
  clean = λ s. s;
  pattern_ok = λ _. true;
  regexp_ok = λ _. true;
  url_path = λ _. some "/api/v1/otlp";
}

abbrev no_multiline : LogMultiline
no_multiline = record {
  enabled = false;
  start_pattern = "";
  flush_timeout_millis = pos 0;
  max_lines = pos 0;
  max_bytes = pos 0;
}

abbrev pub syslog : LogSource
syslog = record {
  id = "syslog";
  root = "/var/log";
  include = "*.log" ∷ [];
  exclude = [];
  start_at = "";
  service_name = "";
  environment = "";
  max_open_files = pos 0;
  max_line_bytes = pos 0;
  multiline = no_multiline;
}

-- Everything that has a default is left out.
abbrev pub sample_config : Config
sample_config = record {
  collection = record {
    interval_seconds = pos 0;
    max_points = pos 0;
    max_devices = pos 0;
    max_interfaces = pos 0;
    max_mounts = pos 0;
  };
  logs = record {
    state_directory = "";
    queue_bytes = pos 0;
    queue_items = pos 0;
    overflow_policy = "";
    poll_interval_millis = pos 0;
    max_files = pos 0;
    sources = syslog ∷ [];
    journald = record {
      enabled = false;
      units = [];
      identifiers = [];
      priority = "";
      start_at = "";
    };
  };
  ec2 = record { enabled = none; required = false; timeout_seconds = pos 0 };
  delivery = record {
    state_directory = "";
    overflow_policy = "";
    batch_points = pos 0;
    queue_items = pos 0;
    max_attempts = pos 0;
    request_timeout_seconds = pos 0;
  };
  agent_id = "";
  exporter = record {
    type_name = "otlp_http";
    endpoint = "https://observe.example/api/v1/otlp";
    headers_env = ("Authorization", "OBSERVE_KEY") ∷ [];
  };
  policy = record { version = 1; enabled = ("metrics", true) ∷ ("logs", true) ∷ [] };
  remote_allowed = [];
  limits = record {
    request_bytes = pos 4194304;
    queue_bytes = pos 67108864;
    memory_mib = pos 128;
    shutdown_seconds = pos 15;
  };
}

pub sample_config_ok : validate_config permissive sample_config ≡ none
unfolding validate_config validate_runtime validate_metrics validate_logs validate_sources
    validate_source validate_journald validate_rest validate_exporter validate Policy.all_known
    known all_allowed is_otlp_path is_env_name bad_limits is_log_id all_patterns bad_root
    bad_source_limits bad_multiline bad_multiline_pattern bad_logs
sample_config_ok = refl

validate_config-IsReady_example : IsReady sample_config
validate_config-IsReady_example = validate_config-IsReady permissive sample_config sample_config_ok

sample_logs_ok : validate_logs permissive sample_config.logs ≡ none
unfolding validate_logs validate_sources validate_source validate_journald is_log_id all_patterns
    bad_root bad_source_limits bad_multiline bad_multiline_pattern bad_logs
sample_logs_ok = refl

validate_logs-SourceReady_example :
    All SourceReady (logs_runtime sample_config.logs).sources
    × IsDistinct (logs_runtime sample_config.logs).sources
validate_logs-SourceReady_example =
    validate_logs-SourceReady permissive sample_config.logs sample_logs_ok

small_lines_refused_example :
    validate_source permissive [] (source_runtime (record syslog { max_line_bytes = pos 65536 }))
    ≢ none
small_lines_refused_example =
    small_lines_refused permissive [] (record syslog { max_line_bytes = pos 65536 }) 65536 refl
      (omega arith) (omega arith) refl
