-- ===== src/Config/Validate.antt =====
-- internal/config/config.go and internal/config/runtime.go: the validation of a configuration.
use observe_agent.Base.{
  ◌*◌, ◌^◌, String, Bool, true, false, not, ◌&&◌, ◌||◌, Option, none, some, List, [], ◌∷◌, str_eq,
  ltb, leb, ◌==◌, if◌then◌else◌, length, lookup, len, any_char, all_chars, first_char, is_break,
  is_alphanumeric, outside,
}
use observe_agent.Policy.{Capability, known, validate}
use observe_agent.Config.{
  Library, Config, Limits, Exporter, Error, invalid_policy, agent_identity, unknown_allowed,
  exporter_type, exporter_endpoint, headers, limits_bounds,
}
use observe_agent.Config.Runtime.{validate_metrics}
use observe_agent.Config.Logs.{validate_logs}

-- `ValidateRuntime`
unfoldable pub validate_runtime : Library → Config → Option Error
validate_runtime lib c = elim (validate_metrics lib c) [
  | some e ↦ some e
  | none ↦ validate_logs lib c.logs
]

-- `envName`: ^[A-Za-z_][A-Za-z0-9_]*$
unfoldable pub is_env_name : String → Bool
is_env_name s =
    first_char (λ c. is_alphanumeric c && not (leb 48 c && leb c 57) || c == 95) s
    && all_chars (λ c. is_alphanumeric c || c == 95) s

-- `HeadersEnv["Authorization"]`
abbrev pub authorization_env : Exporter → String
authorization_env x = elim (lookup "Authorization" x.headers_env) [ none ↦ "" | some v ↦ v ]

unfoldable pub all_allowed : List Capability → Bool
all_allowed [] = true
all_allowed (c ∷ cs) = known c && all_allowed cs

-- The path of an endpoint, with one slash at its end cut off.
unfoldable pub is_otlp_path : Option String → Bool
is_otlp_path none = false
is_otlp_path (some p) = str_eq p "/api/v1/otlp" || str_eq p "/api/v1/otlp/"

unfoldable pub bad_limits : Limits → Bool
bad_limits l =
    outside 1024 (4 * 2 ^ 20) l.request_bytes
    || outside (2 ^ 20) (2 ^ 30) l.queue_bytes
    || outside 32 4096 l.memory_mib
    || outside 1 120 l.shutdown_seconds

-- `Validate` from the loop over `RemoteAllowed` on.
unfoldable pub validate_exporter : Library → Config → Option Error
validate_exporter lib c =
    if not (all_allowed c.remote_allowed)
    then some unknown_allowed
    else if not (str_eq c.exporter.type_name "otlp_http")
    then some exporter_type
    else if not (is_otlp_path (lib.url_path c.exporter.endpoint))
    then some exporter_endpoint
    else if not (length c.exporter.headers_env == 1)
        || not (is_env_name (authorization_env c.exporter))
    then some headers
    else if bad_limits c.limits
    then some limits_bounds
    else none

-- `Validate` from the test of the agent's identity on.
unfoldable pub validate_rest : Library → Config → Option Error
validate_rest lib c =
    if ltb 256 (len c.agent_id) || any_char is_break c.agent_id
    then some agent_identity
    else elim (validate c.policy) [
      | some e ↦ some (invalid_policy e)
      | none ↦ validate_exporter lib c
    ]

-- `Config.Validate`
unfoldable pub validate_config : Library → Config → Option Error
validate_config lib c = elim (validate_runtime lib c) [
  | some e ↦ some e
  | none ↦ validate_rest lib c
]
