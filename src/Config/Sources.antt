-- ===== src/Config/Sources.antt =====
-- internal/config/runtime.go: what the validation of the log sources guarantees to the tailers.
use observe_agent.Base.{
  ℕ, ◌*◌, ◌^◌, ◌≤◌, ◌<◌, String, ◌≡◌, ◌≢◌, true, false, ◌||◌, none, List, [], ◌∷◌, arith, str_eq,
  eq_iff, eq_refl, ltb, contains, All, ||-parts, ||-parts4, ||-parts5, len, any_char, is_break, ℤ,
  pos, or_default, outside, above, Within, outside-Within,
}
use observe_agent.Config.{Library, LogSource, LogsConfig}
use observe_agent.Config.Logs.{
  validate_source, validate_sources, validate_logs, logs_runtime, source_runtime, is_log_id,
  bad_source_limits, bad_multiline,
}

-- The limits of a source are ones that its tailer relies on, and a multiline record may be no
-- longer than a line.
pub record SourceReady (s : LogSource) : Type 0 where
  pub id : is_log_id s.id ≡ true
  pub open_files : Within 1 128 s.max_open_files
  pub line_bytes : Within 256 (2 ^ 20) s.max_line_bytes
  pub flush_timeout : Within 100 60000 s.multiline.flush_timeout_millis
  pub record_lines : Within 1 1000 s.multiline.max_lines
  pub record_bytes : Within 256 (2 ^ 20) s.multiline.max_bytes
  pub record_fits : record_bytes.value ≤ line_bytes.value

-- No two sources have the same identifier.
abbrev pub IsDistinct : List LogSource → Type 0
IsDistinct [] = Unit
IsDistinct (s ∷ ss) = All (λ (t : LogSource). str_eq t.id s.id ≡ false) ss × IsDistinct ss

module _ (lib : Library) where
  source_checks :
      (seen : List String) (s : LogSource)
      → validate_source lib seen s ≡ none
      → (is_log_id s.id ≡ true)
        × (contains s.id seen ≡ false)
        × (bad_source_limits s ≡ false)
        × (bad_multiline s.multiline s ≡ false)
  unfolding validate_source
  source_checks seen s h = ground arith

  limits_ready :
      (s : LogSource)
      → bad_source_limits s ≡ false
      → Within 1 128 s.max_open_files × Within 256 (2 ^ 20) s.max_line_bytes
  unfolding bad_source_limits
  limits_ready s h =
      let r =
        ||-parts
          (outside 1 128 s.max_open_files
            || outside 256 (2 ^ 20) s.max_line_bytes
            || ltb 256 (len s.service_name)
            || ltb 256 (len s.environment)
            || any_char is_break s.service_name)
          (any_char is_break s.environment) h in
      let p =
        ||-parts5 (outside 1 128 s.max_open_files) (outside 256 (2 ^ 20) s.max_line_bytes)
          (ltb 256 (len s.service_name)) (ltb 256 (len s.environment))
          (any_char is_break s.service_name) r.0 in
      (outside-Within 1 128 s.max_open_files p.0, outside-Within 256 (2 ^ 20) s.max_line_bytes p.1)

  not_above : (a b : ℤ) (m n : ℕ) → a ≡ pos m → b ≡ pos n → above a b ≡ false → m ≤ n
  not_above a b m n ea eb h = under (rw (ea, eb) at h)
    where
      under : above (pos m) (pos n) ≡ false → m ≤ n
      under x = ground arith

  source-SourceReady :
      (seen : List String) (s : LogSource) → validate_source lib seen s ≡ none → SourceReady s
  unfolding bad_multiline
  source-SourceReady seen s h =
      let k = source_checks seen s h in
      let (o, l) = limits_ready s k.2 in
      let p =
        ||-parts4 (outside 100 60000 s.multiline.flush_timeout_millis)
          (outside 1 1000 s.multiline.max_lines) (outside 256 (2 ^ 20) s.multiline.max_bytes)
          (above s.multiline.max_bytes s.max_line_bytes) k.3 in
      let b = outside-Within 256 (2 ^ 20) s.multiline.max_bytes p.2 in
      record {
        id = k.0;
        open_files = o;
        line_bytes = l;
        flush_timeout = outside-Within 100 60000 s.multiline.flush_timeout_millis p.0;
        record_lines = outside-Within 1 1000 s.multiline.max_lines p.1;
        record_bytes = b;
        record_fits =
            not_above s.multiline.max_bytes s.max_line_bytes b.value l.value b.same l.same p.3;
      }

  sources_parts :
      (seen : List String) (s : LogSource) (ss : List LogSource)
      → validate_sources lib seen (s ∷ ss) ≡ none
      → (validate_source lib seen s ≡ none) × (validate_sources lib (s.id ∷ seen) ss ≡ none)
  unfolding validate_sources
  sources_parts seen s ss h = ground arith

  sources-SourceReady :
      (seen : List String) (ss : List LogSource)
      → validate_sources lib seen ss ≡ none
      → All SourceReady ss
  sources-SourceReady seen [] h = tt
  sources-SourceReady seen (s ∷ ss) h =
      let (a, b) = sources_parts seen s ss h in
      (source-SourceReady seen s a, sources-SourceReady (s.id ∷ seen) ss b)

  -- Accepted sources have identifiers that were not seen before.
  sources_unseen :
      (x : String) (seen : List String) (ss : List LogSource)
      → contains x seen ≡ true
      → validate_sources lib seen ss ≡ none
      → All (λ (t : LogSource). str_eq t.id x ≡ false) ss
  sources_unseen x seen [] mem h = tt
  sources_unseen x seen (s ∷ ss) mem h =
      let (a, b) = sources_parts seen s ss h in
      let new = (source_checks seen s a).1 in
      (ground (arith, eq_iff s.id x), sources_unseen x (s.id ∷ seen) ss (ground arith) b)

  sources-IsDistinct :
      (seen : List String) (ss : List LogSource)
      → validate_sources lib seen ss ≡ none
      → IsDistinct ss
  sources-IsDistinct seen [] h = tt
  sources-IsDistinct seen (s ∷ ss) h =
      let (a, b) = sources_parts seen s ss h in
      (
        sources_unseen s.id (s.id ∷ seen) ss (ground (arith, eq_refl s.id)) b,
        sources-IsDistinct (s.id ∷ seen) ss b,
      )

  logs_sources :
      (l : LogsConfig)
      → validate_logs lib l ≡ none
      → validate_sources lib [] (logs_runtime l).sources ≡ none
  unfolding validate_logs
  logs_sources l h = ground arith

  -- If the log options are accepted, then every source, with its defaults, has limits that its
  -- tailer relies on, and no two sources have the same identifier.
  pub validate_logs-SourceReady :
      (l : LogsConfig)
      → validate_logs lib l ≡ none
      → All SourceReady (logs_runtime l).sources × IsDistinct (logs_runtime l).sources
  validate_logs-SourceReady l h =
      let k = logs_sources l h in
      (
        sources-SourceReady [] (logs_runtime l).sources k,
        sources-IsDistinct [] (logs_runtime l).sources k,
      )

  -- A source whose line limit is set below 256 KiB, and which leaves the limit of multiline records
  -- to its default, is refused, even with multiline off.
  pub small_lines_refused :
      (seen : List String) (s : LogSource) (n : ℕ)
      → s.max_line_bytes ≡ pos n
      → 0 < n
      → n < 256 * 2 ^ 10
      → s.multiline.max_bytes ≡ pos 0
      → validate_source lib seen (source_runtime s) ≢ none
  small_lines_refused seen s n line some_bytes small unset h =
      let r = source-SourceReady seen (source_runtime s) h in
      let v = positive (256 * 2 ^ 10) r.record_bytes.value (rw unset at r.record_bytes.same) in
      let w = positive n r.line_bytes.value (kept (rw line at r.line_bytes.same)) in
      omega (arith, v, w, r.record_fits, small)
    where
      positive : (a b : ℕ) → pos a ≡ pos b → a ≡ b
      positive a b e = cc

      kept : {w : ℕ} → or_default (256 * 2 ^ 10) (pos n) ≡ pos w → pos n ≡ pos w
      kept e = ground arith
