-- ===== src/Journal/Parse.antt =====
-- internal/journaltail/reader_linux.go: the parsing of a line of the journal.
use observe_agent.Base.{
  ℕ, ◌-◌, ◌^◌, String, ◌&&◌, ◌||◌, Option, none, some, List, [], ◌∷◌, ◌++◌, str_eq, ltb, leb, ◌==◌,
  if◌then◌else◌, length, lookup, Bytes, slice, text_append, len, any_char,
}

-- A value of the JSON object: a text or something else.
pub data Value : Type 0 where
  text : String → Value
  other : Value

-- The time of a record: the journal's microseconds, or the time of the reading.
pub data Observed : Type 0 where
  micros : ℕ → Observed
  reading : Observed

-- `Record`
pub record Record : Type 0 where
  pub admission_id : String
  pub body : String
  pub observed_at : Observed
  pub service_name : String
  pub severity_text : String
  pub attributes : List (String × String)

-- json.Unmarshal into a map, strconv.ParseInt if it gives a positive number, and sha256 with its
-- hexadecimal text.
pub record Parser : Type 0 where
  pub unmarshal : Bytes → Option (List (String × Value))
  pub parse_positive : String → Option ℕ
  pub digest : String → String

abbrev pub max_record_bytes : ℕ
max_record_bytes = 2 ^ 20

abbrev pub string_value : Option Value → String
string_value none = ""
string_value (some (text s)) = s
string_value (some other) = ""

-- `bounded`
unfoldable pub bounded : String → ℕ → String
bounded v max = if ltb max (len v) || any_char (λ c. c == 0) v then "" else v

-- `severity`
unfoldable pub severity : String → String
severity p =
    if str_eq p "0" || str_eq p "1" || str_eq p "2"
    then "FATAL"
    else if str_eq p "3"
    then "ERROR"
    else if str_eq p "4"
    then "WARN"
    else if str_eq p "5" || str_eq p "6"
    then "INFO"
    else if str_eq p "7"
    then "DEBUG"
    else ""

-- strings.TrimSuffix(s, ".service")
abbrev pub trim_service : String → String
trim_service s =
    if leb 8 (len s) && str_eq (slice s (len s - 8) (len s)) ".service"
    then slice s 0 (len s - 8)
    else s

abbrev pub observed : Option ℕ → Observed
observed none = reading
observed (some n) = micros n

-- The entry of an attribute, if its value is not empty.
abbrev pub attribute : String → String → List (String × String)
attribute key v = if str_eq v "" then [] else (key, v) ∷ []

module _ (p : Parser) where
  abbrev pub attributes_of : (String → String) → List (String × String)
  attributes_of value =
      attribute "systemd.unit" (bounded (value "_SYSTEMD_UNIT") 256)
      ++ attribute "log.syslog.identifier" (bounded (value "SYSLOG_IDENTIFIER") 256)
      ++ attribute "log.syslog.priority" (bounded (value "PRIORITY") 8)
      ++ attribute "process.pid" (bounded (value "_PID") 32)
      ++ attribute "process.executable.name" (bounded (value "_COMM") 256)
      ++ attribute "journald.transport" (bounded (value "_TRANSPORT") 64)

  abbrev pub service_of : (String → String) → String
  service_of value =
      let identifier = bounded (value "SYSLOG_IDENTIFIER") 256 in
      if str_eq identifier ""
      then trim_service (bounded (value "_SYSTEMD_UNIT") 256)
      else identifier

  -- `parseRecord` from the decoded object on.
  unfoldable pub build_record : (String → String) → Option (Record × String)
  build_record value =
      let cursor = value "__CURSOR" in
      let body = value "MESSAGE" in
      if str_eq cursor ""
        || ltb 4096 (len cursor)
        || str_eq body ""
        || ltb max_record_bytes (len body)
      then none
      else some (
        record {
          admission_id = p.digest (text_append "observe-journald-admission-v1\0journald\0" cursor);
          body = body;
          observed_at = observed (p.parse_positive (value "__REALTIME_TIMESTAMP"));
          service_name = service_of value;
          severity_text = severity (value "PRIORITY");
          attributes = attributes_of value;
        },
        cursor,
      )

  -- `parseRecord`
  unfoldable pub parse_record : Bytes → Option (Record × String)
  parse_record raw =
      if length raw == 0 || ltb max_record_bytes (length raw)
      then none
      else elim (p.unmarshal raw) [
        | none ↦ none
        | some values ↦ build_record (λ k. string_value (lookup k values))
      ]
