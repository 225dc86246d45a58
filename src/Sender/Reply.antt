-- ===== src/Sender/Reply.antt =====
-- internal/exporter/sender.go: what `Send` makes of a reply.
use observe_agent.Base.{
  ℕ, ◌+◌, ◌%◌, ◌^◌, String, Bool, not, ◌&&◌, ◌||◌, Option, none, some, List, [], ◌++◌, str_eq, ltb,
  leb, ◌==◌, if◌then◌else◌, length, take, lookup, Bytes,
}
use observe_agent.Policy
use observe_agent.Policy.{Capability}
use observe_agent.Sender.{Outcome, accepted, rejected, unauthorized, Counters}
use observe_agent.Sender.Delay.{RetryAfter}

-- A JSON text that encoding/json reads as a map of raw values.
pub data Fields : Type 0 where
  null_value : Fields
  fields : List (String × Bytes) → Fields

-- What the sender takes from encoding/json, bytes and strconv: json.Unmarshal into a map, and of a
-- partial success as the two numbers' texts; whether bytes.TrimSpace leaves nothing;
-- strconv.ParseUint.
pub record Json : Type 0 where
  pub object : Bytes → Option Fields
  pub partial : Bytes → Option (String × String)
  pub blank : Bytes → Bool
  pub parse_uint : String → Option ℕ

-- json.Unmarshal into a map that has entries keeps those that it does not replace.
abbrev pub merged : List (String × Bytes) → Fields → List (String × Bytes)
merged old null_value = []
merged old (fields new) = new ++ old

pub record Response : Type 0 where
  pub status : ℕ
  pub body : Bytes
  pub read_error : Bool
  pub retry_after : RetryAfter

-- `permanent`: a refused redirect, or an error of the peer's certificate.
pub data Reply : Type 0 where
  broken : Bool → Reply
  response : Response → Reply

pub data Verdict : Type 0 where
  final : Outcome → Verdict
  retry : Verdict

abbrev pub failure : Counters → Counters
failure s = record s { export_failures = s.export_failures + 1 }

abbrev accept : Counters → Outcome × Counters
accept s = (accepted, record s { batches_accepted = s.batches_accepted + 1 })

abbrev reject : Counters → Outcome × Counters
reject s = (rejected, failure s)

-- The number of rejected points or records.
unfoldable pub judge_rejected : Capability → ℕ → Counters → Outcome × Counters
judge_rejected signal n s =
    let counted = record s { points_rejected = (s.points_rejected + n) % 2 ^ 64 } in
    if n == 0
    then accept s
    else if str_eq signal Policy.logs
    then accept counted
    else reject counted

abbrev pub is_success : ℕ → Bool
is_success status = leb 200 status && ltb status 300

abbrev pub is_transient : ℕ → Bool
is_transient status =
    status == 429 || (leb 500 status && not (status == 501) && not (status == 505))

module _ (j : Json) (signal : Capability) where
  unfoldable pub judge_count : String → Counters → Outcome × Counters
  judge_count text s =
      if str_eq text ""
      then accept s
      else elim (j.parse_uint text) [ none ↦ reject s | some n ↦ judge_rejected signal n s ]

  unfoldable pub judge_partial : Bytes → Counters → Outcome × Counters
  judge_partial part s = elim (j.partial part) [
    | none ↦ reject s
    | some (points, records) ↦ judge_count (if str_eq signal Policy.logs then records else points) s
  ]

  unfoldable pub judge_fields : List (String × Bytes) → Counters → Outcome × Counters
  judge_fields body s = elim (lookup "partialSuccess" body) [
    | none ↦ accept s
    | some part ↦ judge_partial part s
  ]

  -- The envelope: the fields of "data" stand beside those around it.
  unfoldable pub judge_envelope : List (String × Bytes) → Counters → Outcome × Counters
  judge_envelope body s = elim (lookup "data" body) [
    | none ↦ judge_fields body s
    | some wrapped ↦ elim (j.object wrapped) [
      | none ↦ reject s
      | some inner ↦ judge_fields (merged body inner) s
    ]
  ]

  unfoldable pub judge_body : Bytes → Counters → Outcome × Counters
  judge_body raw s =
      if j.blank raw
      then accept s
      else elim (j.object raw) [ none ↦ reject s | some f ↦ judge_envelope (merged [] f) s ]

  -- The body of a response of success.
  unfoldable pub read_body : Response → Counters → Outcome × Counters
  read_body r s =
      let raw = take 65537 r.body in
      if r.read_error || ltb 65536 (length raw) then reject s else judge_body raw s

  -- The handling of a response, from io.ReadAll to the test of `retry`.
  unfoldable pub judge : Response → Counters → Verdict × Counters
  judge r s =
      let (o, s') = read_body r s in
      let failed = failure s in
      if r.status == 401 || r.status == 403
      then (final unauthorized, record failed { auth_failures = failed.auth_failures + 1 })
      else if is_success r.status
      then (final o, s')
      else if r.status == 429
      then (retry, record failed { throttles = failed.throttles + 1 })
      else if is_transient r.status
      then (retry, failed)
      else (final rejected, failed)
