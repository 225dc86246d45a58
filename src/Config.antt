-- ===== src/Config.antt =====
-- internal/config: the configuration, its defaults and its validation.
pub mod Runtime
pub mod Logs
pub mod Validate
pub mod Bounds
pub mod Sources
pub mod Tests
use observe_agent.Base.{String, Bool, Option, List, str_eq, if◌then◌else◌, ℤ}
use observe_agent.Policy.{Document, Capability, Invalid}

-- What the validation asks of path, path/filepath, regexp and net/url. `url_ok` is whether an
-- endpoint parses as https with a host and without user, query, fragment and raw path; then it is
-- the path.
pub record Library : Type 0 where
  pub is_abs : String → Bool
  pub clean : String → String
  pub pattern_ok : String → Bool
  pub regexp_ok : String → Bool
  pub url_path : String → Option String

pub record Collection : Type 0 where
  pub interval_seconds : ℤ
  pub max_points : ℤ
  pub max_devices : ℤ
  pub max_interfaces : ℤ
  pub max_mounts : ℤ

-- `enabled` is a pointer in the source: `none` is nil.
pub record Ec2Metadata : Type 0 where
  pub enabled : Option Bool
  pub required : Bool
  pub timeout_seconds : ℤ

pub record Delivery : Type 0 where
  pub state_directory : String
  pub overflow_policy : String
  pub batch_points : ℤ
  pub queue_items : ℤ
  pub max_attempts : ℤ
  pub request_timeout_seconds : ℤ

pub record LogMultiline : Type 0 where
  pub enabled : Bool
  pub start_pattern : String
  pub flush_timeout_millis : ℤ
  pub max_lines : ℤ
  pub max_bytes : ℤ

pub record LogSource : Type 0 where
  pub id : String
  pub root : String
  pub include : List String
  pub exclude : List String
  pub start_at : String
  pub service_name : String
  pub environment : String
  pub max_open_files : ℤ
  pub max_line_bytes : ℤ
  pub multiline : LogMultiline

pub record JournaldLogSource : Type 0 where
  pub enabled : Bool
  pub units : List String
  pub identifiers : List String
  pub priority : String
  pub start_at : String

pub record LogsConfig : Type 0 where
  pub state_directory : String
  pub queue_bytes : ℤ
  pub queue_items : ℤ
  pub overflow_policy : String
  pub poll_interval_millis : ℤ
  pub max_files : ℤ
  pub sources : List LogSource
  pub journald : JournaldLogSource

pub record Exporter : Type 0 where
  pub type_name : String
  pub endpoint : String
  pub headers_env : List (String × String)

pub record Limits : Type 0 where
  pub request_bytes : ℤ
  pub queue_bytes : ℤ
  pub memory_mib : ℤ
  pub shutdown_seconds : ℤ

-- `Config`, without the credential of a YAML file.
pub record Config : Type 0 where
  pub collection : Collection
  pub logs : LogsConfig
  pub ec2 : Ec2Metadata
  pub delivery : Delivery
  pub agent_id : String
  pub exporter : Exporter
  pub policy : Document
  pub remote_allowed : List Capability
  pub limits : Limits

pub data Error : Type 0 where
  persistent_delivery collection_limits ec2_options delivery_limits : Error
  logs_delivery source_identity source_patterns source_start source_limits : Error
  multiline_pattern multiline_limits journald_limits journald_filter journald_priority : Error
  agent_identity unknown_allowed exporter_type exporter_endpoint headers limits_bounds : Error
  invalid_policy : Invalid → Error

-- `if v == "" { v = d }`
abbrev pub text_default : String → String → String
text_default d v = if str_eq v "" then d else v
