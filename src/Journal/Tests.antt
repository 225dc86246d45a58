-- ===== src/Journal/Tests.antt =====
-- Reads of the journal at concrete lines.
use observe_agent.Base.{
  arith, All, ℕ, ◌≡◌, refl, String, true, Option, none, some, List, [], ◌∷◌, Bytes, length, ◌==◌,
  if◌then◌else◌,
}
use observe_agent.Queue.Files.{name_eq}
use observe_agent.Queue.Disk.Tests.{calm, crash_at}
use observe_agent.Journal.Restart.{Fits, Restarts, consume-Restarts}
use observe_agent.Journal.{
  Checkpoint, Outside, Reader, Result, done, died, no_checkpoint, consume, take_record,
  save_checkpoint, saved, activate,
}
use observe_agent.Journal.Parse.{Value, text, parse_record, build_record, bounded, severity}
use observe_agent.Journal.Progress.{Consumed, consume-Consumed, parsed}

-- An object with a cursor and a message, for the lines that begin with a 1.
abbrev object_of : Bytes → Option (List (String × Value))
object_of [] = none
object_of (n ∷ b) =
    if n == 1
    then some (
        ("__CURSOR", text "c")
        ∷ ("MESSAGE", text "m")
        ∷ ("_SYSTEMD_UNIT", text "sshd.service")
        ∷ [])
    else none

-- The checkpoints of the one cursor of these lines differ by their times.
abbrev checkpoint_at : Bytes → Option Checkpoint
checkpoint_at [] = none
checkpoint_at (t ∷ b) = some (record no_checkpoint {
  cursor = "c";
  admission_id = "observe-journald-admission-v1\0journald\0c";
  updated_at = t;
})

abbrev sample_outside : Outside
sample_outside = record {
  parser = record { unmarshal = object_of; parse_positive = λ s. none; digest = λ s. s };
  encode = λ cp. cp.updated_at ∷ [];
  decode = checkpoint_at;
  has_activate = true;
  admits = λ n. true;
  activates = λ n. true;
  now = λ n. n;
  format = λ n. "0";
}

abbrev new_reader : Reader
new_reader = record {
  dir = record { files = λ n. none; ticks = 0 };
  cp = no_checkpoint;
  admitted = [];
  calls = 0;
  records_read = 0;
  rejected_local = 0;
  permission_errors = 0;
  checkpoint_errors = 0;
  reader_errors = 0;
}

abbrev sample_lines : List Bytes
sample_lines = (1 ∷ 2 ∷ []) ∷ (3 ∷ []) ∷ (1 ∷ []) ∷ []

abbrev counts : Result × Reader → Result × ℕ × ℕ × ℕ
counts (x, q) = (x, length q.admitted, q.records_read, q.rejected_local)

reads_all : counts (consume sample_outside calm sample_lines true new_reader) ≡ (done, 2, 2, 1)
unfolding consume take_record save_checkpoint saved activate parse_record build_record bounded
    severity name_eq
reads_all = refl

-- A crash in the second save leaves the record admitted and not counted.
crash_in_save :
    counts (consume sample_outside (crash_at 9) sample_lines true new_reader) ≡ (died, 2, 1, 1)
unfolding consume take_record save_checkpoint saved activate parse_record build_record bounded
    severity name_eq
crash_in_save = refl

consume-Consumed_example :
    Consumed sample_outside
      (crash_at 9)
      sample_lines
      new_reader
      (consume sample_outside (crash_at 9) sample_lines true new_reader)
consume-Consumed_example =
    consume-Consumed sample_outside (crash_at 9) sample_lines true new_reader refl refl

sample_fits : All (Fits sample_outside (crash_at 9)) (parsed sample_outside.parser sample_lines)
unfolding parse_record build_record bounded severity
sample_fits = (λ t. (omega arith, refl), (λ t. (omega arith, refl), tt))

consume-Restarts_example :
    Restarts sample_outside calm new_reader
      (consume sample_outside (crash_at 9) sample_lines true new_reader)
consume-Restarts_example =
    consume-Restarts sample_outside (crash_at 9) calm sample_lines true new_reader refl refl
      sample_fits refl
