-- ===== src/Config/Bounds.antt =====
-- internal/config: what a valid configuration guarantees to the parts that it configures.
use observe_agent.Base.{
  ℕ, ◌*◌, ◌^◌, ◌≤◌, ◌≡◌, Bool, true, false, not, ◌&&◌, ◌||◌, none, arith, str_eq, ltb, length,
  ||-parts, ||-parts4, ||-parts5, guard-none, any_char, is_break, outside, Within, outside-Within,
}
use observe_agent.Policy.{validate}
use observe_agent.Config.{Library, Config, Collection, Delivery, Limits, LogsConfig}
use observe_agent.Config.Runtime.{runtime, validate_metrics, bad_collection, bad_delivery, is_true}
use observe_agent.Config.Logs.{validate_logs, logs_runtime, bad_logs}
use observe_agent.Config.Validate.{
  validate_config, validate_runtime, validate_rest, validate_exporter, bad_limits,
}

-- The delivery options, with their defaults, are ones that the spool, the batches and the sender
-- accept.
pub record DeliveryReady (d : Delivery) : Type 0 where
  pub batch_points : Within 1 1000 d.batch_points
  pub queue_items : Within 1 1024 d.queue_items
  pub max_attempts : Within 1 8 d.max_attempts
  pub request_timeout : Within 1 60 d.request_timeout_seconds

pub record CollectionReady (a : Collection) : Type 0 where
  pub interval : Within 5 3600 a.interval_seconds
  pub points : Within 32 16384 a.max_points
  pub devices : Within 1 256 a.max_devices
  pub interfaces : Within 1 256 a.max_interfaces
  pub mounts : Within 1 128 a.max_mounts

pub record LimitsReady (l : Limits) : Type 0 where
  pub request_bytes : Within 1024 (4 * 2 ^ 20) l.request_bytes
  pub queue_bytes : Within (2 ^ 20) (2 ^ 30) l.queue_bytes
  pub memory : Within 32 4096 l.memory_mib
  pub shutdown : Within 1 120 l.shutdown_seconds

pub record LogsReady (l : LogsConfig) : Type 0 where
  pub queue_bytes : Within (2 ^ 20) (2 ^ 30) l.queue_bytes
  pub queue_items : Within 1 4096 l.queue_items
  pub poll_interval : Within 200 60000 l.poll_interval_millis
  pub max_files : Within 1 1024 l.max_files
  pub few_sources : length l.sources ≤ 16

pub record IsReady (c : Config) : Type 0 where
  pub collection : CollectionReady (runtime c).0
  pub metadata_timeout : Within 1 10 (runtime c).1.timeout_seconds
  pub metadata_on : (runtime c).1.required ≡ true → is_true (runtime c).1.enabled ≡ true
  pub delivery : DeliveryReady (runtime c).2
  pub logs : LogsReady (logs_runtime c.logs)
  pub limits : LimitsReady c.limits
  pub policy : validate c.policy ≡ none

delivery-DeliveryReady : (d : Delivery) → bad_delivery d ≡ false → DeliveryReady d
delivery-DeliveryReady d h =
    let p =
      ||-parts4 (outside 1 1000 d.batch_points) (outside 1 1024 d.queue_items)
        (outside 1 8 d.max_attempts) (outside 1 60 d.request_timeout_seconds) h in
    record {
      batch_points = outside-Within 1 1000 d.batch_points p.0;
      queue_items = outside-Within 1 1024 d.queue_items p.1;
      max_attempts = outside-Within 1 8 d.max_attempts p.2;
      request_timeout = outside-Within 1 60 d.request_timeout_seconds p.3;
    }

collection-CollectionReady : (a : Collection) → bad_collection a ≡ false → CollectionReady a
collection-CollectionReady a h =
    let p =
      ||-parts5 (outside 5 3600 a.interval_seconds) (outside 32 16384 a.max_points)
        (outside 1 256 a.max_devices) (outside 1 256 a.max_interfaces) (outside 1 128 a.max_mounts)
        h in
    record {
      interval = outside-Within 5 3600 a.interval_seconds p.0;
      points = outside-Within 32 16384 a.max_points p.1;
      devices = outside-Within 1 256 a.max_devices p.2;
      interfaces = outside-Within 1 256 a.max_interfaces p.3;
      mounts = outside-Within 1 128 a.max_mounts p.4;
    }

limits-LimitsReady : (l : Limits) → bad_limits l ≡ false → LimitsReady l
unfolding bad_limits
limits-LimitsReady l h =
    let p =
      ||-parts4 (outside 1024 (4 * 2 ^ 20) l.request_bytes)
        (outside (2 ^ 20) (2 ^ 30) l.queue_bytes) (outside 32 4096 l.memory_mib)
        (outside 1 120 l.shutdown_seconds) h in
    record {
      request_bytes = outside-Within 1024 (4 * 2 ^ 20) l.request_bytes p.0;
      queue_bytes = outside-Within (2 ^ 20) (2 ^ 30) l.queue_bytes p.1;
      memory = outside-Within 32 4096 l.memory_mib p.2;
      shutdown = outside-Within 1 120 l.shutdown_seconds p.3;
    }

logs-LogsReady : (lib : Library) (l : LogsConfig) → bad_logs lib l ≡ false → LogsReady l
unfolding bad_logs
logs-LogsReady lib l h =
    let p =
      ||-parts5
        (not (lib.is_abs l.state_directory)
          || any_char is_break l.state_directory
          || outside (2 ^ 20) (2 ^ 30) l.queue_bytes
          || outside 1 4096 l.queue_items)
        (not (str_eq l.overflow_policy "reject_new")) (outside 200 60000 l.poll_interval_millis)
        (outside 1 1024 l.max_files) (ltb 16 (length l.sources)) h in
    let r =
      ||-parts4 (not (lib.is_abs l.state_directory)) (any_char is_break l.state_directory)
        (outside (2 ^ 20) (2 ^ 30) l.queue_bytes) (outside 1 4096 l.queue_items) p.0 in
    record {
      queue_bytes = outside-Within (2 ^ 20) (2 ^ 30) l.queue_bytes r.2;
      queue_items = outside-Within 1 4096 l.queue_items r.3;
      poll_interval = outside-Within 200 60000 l.poll_interval_millis p.2;
      max_files = outside-Within 1 1024 l.max_files p.3;
      few_sources = not_less 16 (length l.sources) p.4;
    }
  where
    not_less : (a b : ℕ) → ltb a b ≡ false → b ≤ a
    not_less a b e = ground arith

module _ (lib : Library) (c : Config) where
  metrics_ready :
      validate_metrics lib c ≡ none
      → (bad_collection (runtime c).0 ≡ false)
        × ((outside 1 10 (runtime c).1.timeout_seconds
              || ((runtime c).1.required && not (is_true (runtime c).1.enabled)))
            ≡ false)
        × (bad_delivery (runtime c).2 ≡ false)
  unfolding validate_metrics
  metrics_ready h =
      let (_, h1) = guard-none _ _ _ h in
      let (a, h2) = guard-none _ _ _ h1 in
      let (b, h3) = guard-none _ _ _ h2 in (a, b, (guard-none _ _ _ h3).0)

  logs_ready : validate_logs lib c.logs ≡ none → bad_logs lib (logs_runtime c.logs) ≡ false
  unfolding validate_logs
  logs_ready h = (guard-none _ _ _ h).0

  rest_ready :
      validate_rest lib c ≡ none → (validate c.policy ≡ none) × (validate_exporter lib c ≡ none)
  unfolding validate_rest
  rest_ready h = ground arith

  exporter_ready : validate_exporter lib c ≡ none → bad_limits c.limits ≡ false
  unfolding validate_exporter
  exporter_ready h = ground arith

  config_parts :
      validate_config lib c ≡ none
      → (validate_metrics lib c ≡ none)
        × (validate_logs lib c.logs ≡ none)
        × (validate_rest lib c ≡ none)
  unfolding validate_config validate_runtime
  config_parts h = ground arith

  -- A configuration that `Validate` accepts has, with its defaults, all of its limits in the bounds
  -- that the spools, the batches, the sender and the collectors rely on, and its policy is valid.
  pub validate_config-IsReady : validate_config lib c ≡ none → IsReady c
  validate_config-IsReady h =
      let (m, l, r) = config_parts h in
      let (a, b, d) = metrics_ready m in
      let (p, x) = rest_ready r in
      let (t, on) = ||-parts (outside 1 10 (runtime c).1.timeout_seconds) _ b in
      record {
        collection = collection-CollectionReady (runtime c).0 a;
        metadata_timeout = outside-Within 1 10 (runtime c).1.timeout_seconds t;
        metadata_on = λ q. switched_on (runtime c).1.required (is_true (runtime c).1.enabled) q on;
        delivery = delivery-DeliveryReady (runtime c).2 d;
        logs = logs-LogsReady lib (logs_runtime c.logs) (logs_ready l);
        limits = limits-LimitsReady c.limits (exporter_ready x);
        policy = p;
      }
    where
      switched_on :
          (required enabled : Bool)
          → required ≡ true
          → (required && not enabled) ≡ false
          → enabled ≡ true
      switched_on required enabled q h = ground arith
