-- ===== src/Queue/Logs/Record.antt =====
-- internal/queue/logs_disk_linux.go: the records and the manifest of the logs spool. What
-- encoding/json and crypto/sha256 do to them is a parameter.
use observe_agent.Base.{
  ℕ, ◌*◌, ◌^◌, ◌≤◌, ◌≡◌, Bool, true, false, not, ◌&&◌, ◌||◌, Option, none, some, [], ◌∷◌, leb, ◌==◌,
  if◌then◌else◌, length, Bytes, bytes_eq,
}

-- `logRecord`
pub record LogRecord : Type 0 where
  pub version : ℕ
  pub admission_id : Bytes
  pub ready : Bool
  pub hash : Bytes
  pub payload : Bytes

-- `logManifest`
pub record LogManifest : Type 0 where
  pub version : ℕ
  pub scope : Bytes
  pub next : ℕ

-- json.Valid; json.Marshal of a json.RawMessage; hex.EncodeToString of sha256.Sum256; json.Marshal
-- and json.Unmarshal of the two structs.
pub record LogCodec : Type 0 where
  pub valid : Bytes → Bool
  pub normalize : Bytes → Option Bytes
  pub digest : Bytes → Bytes
  pub encode : LogRecord → Bytes
  pub parse : Bytes → Option LogRecord
  pub encode_manifest : LogManifest → Bytes
  pub parse_manifest : Bytes → Option LogManifest

-- A compact text is valid and stays as it is; a record that holds one survives a round trip, and
-- is not longer with `true` for its `ready` than with `false`.
pub record LogCodecLaws (c : LogCodec) : Type 0 where
  pub valid-normalize : (b p : Bytes) → c.normalize b ≡ some p → c.valid p ≡ true
  pub normalize_twice : (b p : Bytes) → c.normalize b ≡ some p → c.normalize p ≡ some p
  pub parse-encode :
      (r : LogRecord) → c.normalize r.payload ≡ some r.payload → c.parse (c.encode r) ≡ some r
  pub shorter_ready :
      (r : LogRecord) → length (c.encode (record r { ready = true })) ≤ length (c.encode r)

-- A digit that hex.DecodeString takes.
abbrev pub is_hex : ℕ → Bool
is_hex d = (leb 48 d && leb d 57) || (leb 97 d && leb d 102) || (leb 65 d && leb d 70)

abbrev pub all_hex : Bytes → Bool
all_hex [] = true
all_hex (d ∷ ds) = is_hex d && all_hex ds

-- `validAdmission`
unfoldable pub valid_admission : Bytes → Bool
valid_admission v = if not (length v == 64) then false else all_hex v

abbrev pub max_payload : ℕ
max_payload = 4 * 2 ^ 20

-- The limits of the reads of records and of manifests.
abbrev pub max_record : ℕ
max_record = 5 * 2 ^ 20

abbrev pub max_manifest : ℕ
max_manifest = 2 ^ 20

module _ (c : LogCodec) where
  abbrev pub checked : Option LogRecord → Option LogRecord
  checked none = none
  checked (some r) =
      if not (r.version == 1) || not (valid_admission r.admission_id) || not (c.valid r.payload)
      then none
      else if bytes_eq (c.digest r.payload) r.hash
      then some r
      else none

  -- `decodeLogRecord`
  unfoldable pub decode : Bytes → Option LogRecord
  decode b = checked (c.parse b)

  abbrev pub in_scope : Bytes → Option LogManifest → Option LogManifest
  in_scope scope none = none
  in_scope scope (some m) =
      if not (m.version == 1) || not (bytes_eq m.scope scope) || m.next == 0 then none else some m

  -- `decodeLogManifest`
  unfoldable pub decode_manifest : Bytes → Bytes → Option LogManifest
  decode_manifest raw scope = in_scope scope (c.parse_manifest raw)
