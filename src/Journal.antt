-- ===== src/Journal.antt =====
-- internal/journaltail/reader_linux.go: the reader of the journal, with its checkpoint file. The
-- output of journalctl is a list of lines; encoding/json, sha256, the clock, the calls of the
-- collector and the number formats of strconv are parameters.
pub mod Parse
pub mod Run
pub mod Save
pub mod Progress
pub mod Restart
mod Tests
use observe_agent.Base.{
  ◌/◌, ℕ, ◌+◌, String, Bool, true, false, not, ◌&&◌, Option, none, some, List, [], ◌∷◌, ◌++◌, map,
  str_eq, ltb, ◌==◌, if◌then◌else◌, Bytes, text_append, len, ℤ, pos, negsuc,
}
use observe_agent.Queue.Files.{
  Name, control, Dir, Faults, Io, ok, err, crashed, M, ◌>>=◌, ◌>>◌, Answer, got, refused, ask, give,
  raise, conflict, open_truncated, install, read,
}
use observe_agent.Queue.Logs.Open.{is_missing}
use observe_agent.Config.{JournaldLogSource}
use observe_agent.Journal.Parse.{Record, Parser, parse_record}

-- `checkpoint`
pub record Checkpoint : Type 0 where
  pub version : ℕ
  pub source_id : String
  pub cursor : String
  pub since_micros : ℤ
  pub admission_id : String
  pub updated_at : ℕ

-- The parameters: json.Marshal and json.Unmarshal of a checkpoint, the results of the calls of the
-- admission and the activation, and of the
-- clock, by the number of the call, and strconv.FormatInt.
pub record Outside : Type 0 where
  pub parser : Parser
  pub encode : Checkpoint → Bytes
  pub decode : Bytes → Option Checkpoint
  pub has_activate : Bool
  pub admits : ℕ → Bool
  pub activates : ℕ → Bool
  pub now : ℕ → ℕ
  pub format : ℕ → String

-- `Reader`; `admitted` are the records that the admission has accepted, in order, with their
-- cursors, and `calls` counts the calls of the outside.
pub record Reader : Type 0 where
  pub dir : Dir
  pub cp : Checkpoint
  pub admitted : List (Record × String)
  pub calls : ℕ
  pub records_read : ℕ
  pub rejected_local : ℕ
  pub permission_errors : ℕ
  pub checkpoint_errors : ℕ
  pub reader_errors : ℕ

-- What a call returns; `died` is a crash.
pub data Result : Type 0 where
  done failed died : Result

abbrev pub target : Name
target = control "journald.json"

abbrev pub pending : Name
pending = control "journald.json.pending"

-- The limit of a checkpoint file.
abbrev pub max_checkpoint : ℕ
max_checkpoint = 16384

abbrev pub no_checkpoint : Checkpoint
no_checkpoint = record {
  version = 1;
  source_id = "journald";
  cursor = "";
  since_micros = pos 0;
  admission_id = "";
  updated_at = 0;
}

abbrev pub is_negative : ℤ → Bool
is_negative (pos n) = false
is_negative (negsuc n) = true

module _ (out : Outside) (env : Faults) where
  -- `saveCheckpoint`
  unfoldable pub save_checkpoint : Checkpoint → M (Unit {0})
  save_checkpoint cp = do open_truncated env pending; install env pending target (out.encode cp)

  -- The test of a checkpoint that was read.
  abbrev pub is_valid : Checkpoint → Bool
  is_valid cp =
      cp.version == 1
      && str_eq cp.source_id "journald"
      && not (ltb 4096 (len cp.cursor))
      && not (is_negative cp.since_micros)

  unfoldable pub accept_checkpoint : Answer Bytes → M Checkpoint
  accept_checkpoint (refused e) = if is_missing e then give no_checkpoint else raise e
  accept_checkpoint (got raw) = elim (out.decode raw) [
    | none ↦ raise conflict
    | some cp ↦ if is_valid cp then give cp else raise conflict
  ]

  -- `loadCheckpoint`
  unfoldable pub load_checkpoint : M Checkpoint
  load_checkpoint = ask (read env target max_checkpoint) >>= accept_checkpoint

  abbrev pub checkpoint_of : Record → String → ℕ → Checkpoint
  checkpoint_of r cursor t = record {
    version = 1;
    source_id = "journald";
    cursor = cursor;
    since_micros = pos 0;
    admission_id = r.admission_id;
    updated_at = t;
  }

  -- The end of the body for one record: the activation, and the counter.
  unfoldable pub activate : Bool → Reader → Result × Reader
  activate false q = (done, record q { records_read = q.records_read + 1 })
  activate true q =
      if out.activates q.calls
      then (done, record q { calls = q.calls + 1; records_read = q.records_read + 1 })
      else (failed, record q { calls = q.calls + 1 })

  -- The checkpoint behind an admitted record, by what the save returns.
  unfoldable pub saved : Checkpoint → Io (Unit {0}) → Reader → Result × Reader
  saved cp (ok _) q = activate out.has_activate (record q { cp = cp })
  saved cp (err e) q = (failed, record q { checkpoint_errors = q.checkpoint_errors + 1 })
  saved cp crashed q = (died, q)

  -- The body of `consume` for a parsed record: admission, then the checkpoint, then the activation.
  unfoldable pub take_record : Record → String → Reader → Result × Reader
  take_record r cursor q =
      let cp = checkpoint_of r cursor (out.now q.calls) in
      let (x, d) = save_checkpoint cp q.dir in
      let after = record q {
        dir = d;
        admitted = q.admitted ++ ((r, cursor) ∷ []);
        calls = q.calls + 1;
      } in
      if out.admits q.calls then saved cp x after else (failed, record q { calls = q.calls + 1 })

  abbrev pub take_line : Option (Record × String) → Reader → Result × Reader
  take_line none q = (done, record q { rejected_local = q.rejected_local + 1 })
  take_line (some (r, cursor)) q = take_record r cursor q

  -- The rest of a loop, if the body has ended without an error.
  abbrev pub go_on : Result × Reader → Result × Reader → Result × Reader
  go_on (done, q) next = next
  go_on (failed, q) next = (failed, q)
  go_on (died, q) next = (died, q)

  -- `consume`; `whole` says whether the scanner ends without an error.
  unfoldable pub consume : List Bytes → Bool → Reader → Result × Reader
  consume [] whole q = (if whole then done else failed, q)
  consume (l ∷ ls) whole q =
      let here = take_line (parse_record out.parser l) q in
      let rest = consume ls whole here.1 in go_on here rest

  -- The argument for the place to read from, without a cursor.
  abbrev pub since : String → ℤ → String
  since start_at (negsuc n) = if str_eq start_at "beginning" then "--lines=all" else "--lines=0"
  since start_at (pos n) =
      if ltb 0 n
      then text_append "--since=@" (out.format (n / 1000000))
      else if str_eq start_at "beginning"
      then "--lines=all"
      else "--lines=0"

  -- `arguments`
  unfoldable pub arguments : JournaldLogSource → Checkpoint → List String
  arguments cfg cp =
      let place : String =
        if not (str_eq cp.cursor "")
        then text_append "--after-cursor=" cp.cursor
        else since cfg.start_at cp.since_micros in
      ("--output=json" ∷ "--follow" ∷ "--no-pager" ∷ "--quiet" ∷ place ∷ [])
      ++ map (text_append "--unit=") cfg.units
      ++ map (text_append "--identifier=") cfg.identifiers
      ++ (if str_eq cfg.priority "" then [] else text_append "--priority=" cfg.priority ∷ [])
