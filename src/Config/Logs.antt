-- ===== src/Config/Logs.antt =====
-- internal/config/runtime.go: the defaults and the limits of log collection.
use observe_agent.Base.{
  ◌*◌, ◌^◌, String, Bool, true, false, not, ◌&&◌, ◌||◌, Option, none, some, List, [], ◌∷◌, ◌++◌,
  map, str_eq, ltb, leb, ◌==◌, if◌then◌else◌, length, contains, len, any_char, all_chars,
  first_char, is_break, is_alphanumeric, or_default, outside, above,
}
use observe_agent.Config.{
  Library, LogsConfig, LogSource, LogMultiline, JournaldLogSource, Error, text_default,
  logs_delivery, source_identity, source_patterns, source_start, source_limits, multiline_pattern,
  multiline_limits, journald_limits, journald_filter, journald_priority,
}

abbrev pub multiline_runtime : LogMultiline → LogMultiline
multiline_runtime m = record {
  enabled = m.enabled;
  start_pattern = m.start_pattern;
  flush_timeout_millis = or_default 5000 m.flush_timeout_millis;
  max_lines = or_default 200 m.max_lines;
  max_bytes = or_default (256 * 2 ^ 10) m.max_bytes;
}

abbrev pub source_runtime : LogSource → LogSource
source_runtime s = record s {
  start_at = text_default "end" s.start_at;
  max_open_files = or_default 32 s.max_open_files;
  max_line_bytes = or_default (256 * 2 ^ 10) s.max_line_bytes;
  multiline = multiline_runtime s.multiline;
}

-- `LogsRuntime`; it also changes the sources of its receiver, to the same defaults.
abbrev pub logs_runtime : LogsConfig → LogsConfig
logs_runtime l = record {
  state_directory = text_default "/var/lib/observe-agent/logs" l.state_directory;
  queue_bytes = or_default (64 * 2 ^ 20) l.queue_bytes;
  queue_items = or_default 1024 l.queue_items;
  overflow_policy = text_default "reject_new" l.overflow_policy;
  poll_interval_millis = or_default 1000 l.poll_interval_millis;
  max_files = or_default 256 l.max_files;
  sources = map source_runtime l.sources;
  journald = record l.journald { start_at = text_default "end" l.journald.start_at };
}

-- `logID`: ^[A-Za-z0-9][A-Za-z0-9._-]{0,63}$
unfoldable pub is_log_id : String → Bool
is_log_id s =
    first_char is_alphanumeric s
    && all_chars (λ c. is_alphanumeric c || c == 46 || c == 95 || c == 45) s
    && leb (len s) 64

-- `journalFilter`: ^[A-Za-z0-9][A-Za-z0-9_.@:-]{0,255}$
abbrev pub is_journal_filter : String → Bool
is_journal_filter s =
    first_char is_alphanumeric s
    && all_chars (λ c. is_alphanumeric c || c == 95 || c == 46 || c == 64 || c == 58 || c == 45) s
    && leb (len s) 256

-- `validateLogPattern`
abbrev pub is_log_pattern : Library → String → Bool
is_log_pattern lib v =
    if str_eq v ""
      || ltb 256 (len v)
      || any_char (λ c. c == 92 || c == 47 || is_break c) v
      || str_eq v "."
      || str_eq v ".."
    then false
    else lib.pattern_ok v

unfoldable pub all_patterns : Library → List String → Bool
all_patterns lib [] = true
all_patterns lib (v ∷ vs) = is_log_pattern lib v && all_patterns lib vs

abbrev all_filters : List String → Bool
all_filters [] = true
all_filters (v ∷ vs) = is_journal_filter v && all_filters vs

unfoldable pub bad_root : Library → String → Bool
bad_root lib root =
    not (lib.is_abs root)
    || not (str_eq (lib.clean root) root)
    || str_eq root "/"
    || any_char is_break root
    || ltb 4096 (len root)

unfoldable pub bad_multiline_pattern : Library → LogMultiline → Bool
bad_multiline_pattern lib m =
    m.enabled
    && (str_eq m.start_pattern ""
        || ltb 1024 (len m.start_pattern)
        || not (lib.regexp_ok m.start_pattern))

unfoldable pub bad_source_limits : LogSource → Bool
bad_source_limits s =
    outside 1 128 s.max_open_files
    || outside 256 (2 ^ 20) s.max_line_bytes
    || ltb 256 (len s.service_name)
    || ltb 256 (len s.environment)
    || any_char is_break s.service_name
    || any_char is_break s.environment

unfoldable pub bad_multiline : LogMultiline → LogSource → Bool
bad_multiline m s =
    outside 100 60000 m.flush_timeout_millis
    || outside 1 1000 m.max_lines
    || outside 256 (2 ^ 20) m.max_bytes
    || above m.max_bytes s.max_line_bytes

-- The body of the loop over the sources; `seen` are the identifiers of those before.
unfoldable pub validate_source : Library → List String → LogSource → Option Error
validate_source lib seen s =
    if not (is_log_id s.id) || contains s.id seen || bad_root lib s.root
    then some source_identity
    else if length s.include == 0 || ltb 32 (length s.include) || ltb 32 (length s.exclude)
    then some source_patterns
    else if not (all_patterns lib (s.include ++ s.exclude))
    then some source_patterns
    else if not (str_eq s.start_at "beginning") && not (str_eq s.start_at "end")
    then some source_start
    else if bad_source_limits s
    then some source_limits
    else if bad_multiline_pattern lib s.multiline
    then some multiline_pattern
    else if bad_multiline s.multiline s
    then some multiline_limits
    else none

unfoldable pub validate_sources : Library → List String → List LogSource → Option Error
validate_sources lib seen [] = none
validate_sources lib seen (s ∷ ss) =
    let rest = validate_sources lib (s.id ∷ seen) ss in
    elim (validate_source lib seen s) [ none ↦ rest | some e ↦ some e ]

abbrev priorities : List String
priorities =
    "0" ∷ "1" ∷ "2" ∷ "3" ∷ "4" ∷ "5" ∷ "6" ∷ "7" ∷ "emerg" ∷ "alert" ∷ "crit" ∷ "err" ∷ "warning"
    ∷ "notice" ∷ "info" ∷ "debug" ∷ []

unfoldable pub validate_journald : JournaldLogSource → Option Error
validate_journald j =
    if ltb 64 (length j.units)
      || ltb 64 (length j.identifiers)
      || (not (str_eq j.start_at "beginning") && not (str_eq j.start_at "end"))
    then some journald_limits
    else if not (all_filters (j.units ++ j.identifiers))
    then some journald_filter
    else if not (str_eq j.priority "") && not (contains j.priority priorities)
    then some journald_priority
    else none

unfoldable pub bad_logs : Library → LogsConfig → Bool
bad_logs lib l =
    not (lib.is_abs l.state_directory)
    || any_char is_break l.state_directory
    || outside (2 ^ 20) (2 ^ 30) l.queue_bytes
    || outside 1 4096 l.queue_items
    || not (str_eq l.overflow_policy "reject_new")
    || outside 200 60000 l.poll_interval_millis
    || outside 1 1024 l.max_files
    || ltb 16 (length l.sources)

-- `validateLogs`
unfoldable pub validate_logs : Library → LogsConfig → Option Error
validate_logs lib logs =
    let l = logs_runtime logs in
    if bad_logs lib l then some logs_delivery else elim (validate_sources lib [] l.sources) [
      | some e ↦ some e
      | none ↦ validate_journald l.journald
    ]
