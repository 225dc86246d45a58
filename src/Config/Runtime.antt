-- ===== src/Config/Runtime.antt =====
-- internal/config/runtime.go: the defaults of the metrics runtime, and their limits.
use observe_agent.Base.{
  Bool, true, false, not, ◌&&◌, ◌||◌, Option, none, some, str_eq, if◌then◌else◌, or_default,
  outside,
}
use observe_agent.Config.{
  Library, Config, Collection, Ec2Metadata, Delivery, Error, text_default, persistent_delivery,
  collection_limits, ec2_options, delivery_limits,
}

abbrev pub is_true : Option Bool → Bool
is_true none = false
is_true (some b) = b

abbrev pub collection_runtime : Collection → Collection
collection_runtime a = record {
  interval_seconds = or_default 15 a.interval_seconds;
  max_points = or_default 4096 a.max_points;
  max_devices = or_default 128 a.max_devices;
  max_interfaces = or_default 64 a.max_interfaces;
  max_mounts = or_default 64 a.max_mounts;
}

abbrev enabled_default : Option Bool → Option Bool
enabled_default none = some true
enabled_default (some b) = some b

abbrev pub ec2_runtime : Ec2Metadata → Ec2Metadata
ec2_runtime b = record {
  enabled = enabled_default b.enabled;
  required = b.required;
  timeout_seconds = or_default 2 b.timeout_seconds;
}

abbrev pub delivery_runtime : Delivery → Delivery
delivery_runtime d = record {
  state_directory = text_default "/var/lib/observe-agent/metrics" d.state_directory;
  overflow_policy = text_default "reject_new" d.overflow_policy;
  batch_points = or_default 500 d.batch_points;
  queue_items = or_default 64 d.queue_items;
  max_attempts = or_default 4 d.max_attempts;
  request_timeout_seconds = or_default 15 d.request_timeout_seconds;
}

-- `Runtime`
abbrev pub runtime : Config → Collection × Ec2Metadata × Delivery
runtime c = (collection_runtime c.collection, ec2_runtime c.ec2, delivery_runtime c.delivery)

abbrev pub bad_collection : Collection → Bool
bad_collection a =
    outside 5 3600 a.interval_seconds
    || outside 32 16384 a.max_points
    || outside 1 256 a.max_devices
    || outside 1 256 a.max_interfaces
    || outside 1 128 a.max_mounts

abbrev pub bad_delivery : Delivery → Bool
bad_delivery d =
    outside 1 1000 d.batch_points
    || outside 1 1024 d.queue_items
    || outside 1 8 d.max_attempts
    || outside 1 60 d.request_timeout_seconds

-- `ValidateRuntime` up to its call of `validateLogs`.
unfoldable pub validate_metrics : Library → Config → Option Error
validate_metrics lib c =
    let (a, b, d) = runtime c in
    if not (str_eq d.overflow_policy "reject_new")
      || (not (str_eq d.state_directory "/var/lib/observe-agent/metrics")
          && not (lib.is_abs d.state_directory))
    then some persistent_delivery
    else if bad_collection a
    then some collection_limits
    else if outside 1 10 b.timeout_seconds || (b.required && not (is_true b.enabled))
    then some ec2_options
    else if bad_delivery d
    then some delivery_limits
    else none
