-- ===== src/Queue/Codec.antt =====
-- What internal/queue takes from encoding/json and crypto/sha256: the encodings of its records, and
-- the laws of them that it relies on.
use observe_agent.Base.{ℕ, ◌≡◌, Bool, true, Option, some, Bytes}

-- `valid` is json.Valid. `normalize` is json.Marshal of a json.RawMessage: `none` if the text is no
-- JSON. `digest` is hex.EncodeToString of sha256.Sum256. The others are json.Marshal and
-- json.Unmarshal of the structs: a record is its version, its hash and its payload; a manifest its
-- version, its scope and its next sequence number.
pub record Codec : Type 0 where
  pub valid : Bytes → Bool
  pub normalize : Bytes → Option Bytes
  pub digest : Bytes → Bytes
  pub encode_record : ℕ → Bytes → Bytes → Bytes
  pub decode_record : Bytes → Option (ℕ × Bytes × Bytes)
  pub encode_manifest : ℕ → Bytes → ℕ → Bytes
  pub decode_manifest : Bytes → Option (ℕ × Bytes × ℕ)

-- Compact JSON is valid, and structs that hold it survive a round trip.
pub record CodecLaws (c : Codec) : Type 0 where
  pub valid-normalize : (b p : Bytes) → c.normalize b ≡ some p → c.valid p ≡ true
  pub normalize_total : (b : Bytes) → c.valid b ≡ true → (p : Bytes) × (c.normalize b ≡ some p)
  pub decode-encode_record :
      (b p : Bytes) (v : ℕ) (h : Bytes)
      → c.normalize b ≡ some p
      → c.decode_record (c.encode_record v h p) ≡ some (v, h, p)
  pub decode-encode_manifest :
      (v : ℕ) (s : Bytes) (n : ℕ) → c.decode_manifest (c.encode_manifest v s n) ≡ some (v, s, n)
