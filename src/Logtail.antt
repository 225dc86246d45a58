-- ===== src/Logtail.antt =====
-- internal/logtail/tailer_linux.go: the tailing of one file, between its opening and its closing.
-- A method returns its result and the state. `calls` counts the calls of the admission, the
-- checkpoint and the activation, whose results the surroundings give by their numbers.
pub mod Line
pub mod Consume
pub mod Covers
pub mod Fuel
mod Tests
use observe_agent.Base.{
  ℕ, ◌+◌, String, Bool, true, false, Option, some, List, [], ◌∷◌, ltb, ◌==◌, if◌then◌else◌, Bytes,
}

-- `Record`, without the names of the source and the file.
pub record Record : Type 0 where
  pub id : String
  pub body : Bytes
  pub start : ℕ
  pub end : ℕ

-- `pending`
pub record Pending : Type 0 where
  pub body : Bytes
  pub start : ℕ
  pub end : ℕ
  pub lines : ℕ
  pub since : ℕ

pub record Checkpoint : Type 0 where
  pub offset : ℕ
  pub generation : ℕ
  pub admission_id : String

-- `openState` of the file, its saved checkpoint, and the counters; `admitted` are the records that
-- were admitted, latest first.
pub record Tail : Type 0 where
  pub generation : ℕ
  pub committed : ℕ
  pub read_offset : ℕ
  pub pending : Pending
  pub checkpoint : Option Checkpoint
  pub admitted : List Record
  pub calls : ℕ
  pub records_read : ℕ
  pub rejected_local : ℕ
  pub checkpoint_errors : ℕ
  pub multiline_flushes : ℕ

-- The options of the source, and the parameters: the start pattern, the strings functions on UTF-8,
-- the hash that makes an admission's identifier, and the results of the calls.
pub record Source : Type 0 where
  pub max_line_bytes : ℕ
  pub multiline : Bool
  pub max_lines : ℕ
  pub max_bytes : ℕ
  pub flush_timeout : ℕ
  pub has_activate : Bool
  pub starts : Bytes → Bool
  pub to_valid_utf8 : Bytes → Bytes
  pub admission_id : ℕ → ℕ → ℕ → String
  pub admits : ℕ → Bool
  pub saves : ℕ → Bool
  pub activates : ℕ → Bool

abbrev pub no_pending : Pending
no_pending = record { body = []; start = 0; end = 0; lines = 0; since = 0 }

module _ (src : Source) where
  -- `commit`
  unfoldable pub commit : Tail → ℕ → String → Bool × Tail
  commit t offset id =
      let saved = record t {
        checkpoint =
            some (record { offset = offset; generation = t.generation; admission_id = id });
        committed = offset;
        read_offset = if ltb t.read_offset offset then offset else t.read_offset;
        calls = t.calls + 1;
      } in
      if src.saves t.calls
      then (true, saved)
      else (false, record t { calls = t.calls + 1; checkpoint_errors = t.checkpoint_errors + 1 })

  -- The end of `emit`, by whether there is an activation.
  unfoldable pub activate : Bool → Tail → Bool × Tail
  activate true t = (src.activates t.calls, record t { calls = t.calls + 1 })
  activate false t = (true, t)

  -- `emit`: admission, then the checkpoint, then the activation.
  unfoldable pub emit : Tail → ℕ → ℕ → Bytes → Bool × Tail
  emit t start end body =
      let id = src.admission_id t.generation start end in
      let r : Record = record { id = id; body = body; start = start; end = end } in
      let t1 = record t { admitted = r ∷ t.admitted; calls = t.calls + 1 } in
      let (saved, t2) = commit t1 end id in
      if src.admits t.calls
      then (if saved then activate src.has_activate t2 else (false, t2))
      else (false, record t { calls = t.calls + 1 })

  -- `flush`
  unfoldable pub flush : Tail → Bool × Tail
  flush t =
      let (done, t1) = emit t t.pending.start t.pending.end t.pending.body in
      if t.pending.lines == 0
      then (true, t)
      else if done
      then (true, record t1 { pending = no_pending; multiline_flushes = t1.multiline_flushes + 1 })
      else (false, t1)
