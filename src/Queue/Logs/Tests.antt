-- ===== src/Queue/Logs/Tests.antt =====
-- A codec, runs of the logs spool, and its theorems at concrete inputs.
use observe_agent.Base.{
  ℕ, zero, suc, ◌≤◌, ◌≡◌, refl, Bool, true, false, Option, none, some, [], ◌∷◌, ◌++◌, arith, ◌==◌,
  if◌then◌else◌, length, take, drop, Bytes,
}
use observe_agent.Queue.Files.{name_eq}
use observe_agent.Queue.Disk.{max_record, done, charge}
use observe_agent.Queue.Disk.Tests.{calm, crash_at, fail_at, take-append, drop-append}
use observe_agent.Queue.Logs.{
  fresh, LogDisk, put_admission, admit_new, admit, save_manifest, write, activate, activate_name,
  make_ready, write_replacement, next, next_from, quarantine, ack, ack_head, drop_head,
}
use observe_agent.Queue.Logs.Record.{
  LogCodec, LogCodecLaws, LogRecord, LogManifest, decode, valid_admission,
}
use observe_agent.Queue.Logs.Rows.{Row}
use observe_agent.Queue.Logs.Held.{IsLogs}
use observe_agent.Queue.Logs.Admit.{Puts, put_admission-Puts}
use observe_agent.Queue.Logs.Activate.{Activates, activate-Activates}
use observe_agent.Queue.Logs.Deliver.{Acks, Shows, next-Shows}
use observe_agent.Queue.Logs.Acked.{ack-Acks}

abbrev parse_record : Bytes → Option LogRecord
parse_record (v ∷ r ∷ a ∷ b ∷ rest) = some (record {
  version = v;
  admission_id = take a rest;
  ready = r == 1;
  hash = take b (drop a rest);
  payload = drop b (drop a rest);
})
parse_record _ = none

abbrev parse_log_manifest : Bytes → Option LogManifest
parse_log_manifest (v ∷ n ∷ s) = some (record { version = v; scope = s; next = n })
parse_log_manifest _ = none

abbrev is_full : Bytes → Bool
is_full [] = false
is_full (x ∷ xs) = true

abbrev whole_text : Bytes → Option Bytes
whole_text [] = none
whole_text (x ∷ xs) = some (x ∷ xs)

-- A codec whose texts are the byte sequences but the empty one.
abbrev pub plain_logs : LogCodec
plain_logs = record {
  valid = is_full;
  normalize = whole_text;
  digest = λ p. length p ∷ [];
  encode = λ r.
      r.version
      ∷ (if r.ready then 1 else 0)
      ∷ length r.admission_id
      ∷ length r.hash
      ∷ (r.admission_id ++ (r.hash ++ r.payload));
  parse = parse_record;
  encode_manifest = λ m. m.version ∷ m.next ∷ m.scope;
  parse_manifest = parse_log_manifest;
}

whole_text-is_full : (b p : Bytes) → whole_text b ≡ some p → is_full p ≡ true
whole_text-is_full [] p h = cc
whole_text-is_full (x ∷ xs) p h = ground arith

whole_text_twice : (b p : Bytes) → whole_text b ≡ some p → whole_text p ≡ some p
whole_text_twice [] p h = cc
whole_text_twice (x ∷ xs) p h = ground arith

flag_back : (b : Bool) → ((if b then 1 else 0) == 1) ≡ b
flag_back true = refl
flag_back false = refl

pub plain_logs-LogCodecLaws : LogCodecLaws plain_logs
plain_logs-LogCodecLaws = record {
  valid-normalize = whole_text-is_full;
  normalize_twice = whole_text_twice;
  parse-encode = λ r h. rw (
    take-append r.admission_id (r.hash ++ r.payload),
    drop-append r.admission_id (r.hash ++ r.payload),
    take-append r.hash r.payload,
    drop-append r.hash r.payload,
    flag_back r.ready,
  );
  shorter_ready = λ r. omega arith;
}

abbrev empty_logs : LogDisk
empty_logs = record {
  dir = record { files = λ _. none; ticks = 0 };
  manifest = record { version = 1; scope = 7 ∷ []; next = 1 };
  names = [];
  admissions = [];
  bytes = 0;
  count = 0;
  max_bytes = 16384;
  max_items = 2;
  closed = false;
  wake = false;
  corrupt = 0;
  open_lock = true;
}

abbrev repeat : ℕ → Bytes
repeat zero = []
repeat (suc n) = 97 ∷ repeat n

abbrev pub sample_id : Bytes
sample_id = repeat 64

abbrev pub log_payload : Bytes
log_payload = 123 ∷ 125 ∷ []

empty-IsLogs : IsLogs plain_logs empty_logs []
empty-IsLogs = record {
  settled = λ n. refl;
  held = tt;
  ascending = omega arith;
  admitted = refl;
  delivery = refl;
  distinct = tt;
  counted = omega arith;
  charged = omega arith;
  within = (omega arith, omega arith);
}

record_fits :
    (p : Bytes)
    → whole_text log_payload ≡ some p
    → length (plain_logs.encode (fresh plain_logs sample_id p)) ≤ max_record
record_fits p h = let same : log_payload ≡ p = ground arith in rw (← same) (omega arith)

put_admission-Puts_example :
    Puts plain_logs sample_id log_payload []
      (put_admission plain_logs (crash_at 5) false sample_id log_payload empty_logs).0
      (put_admission plain_logs (crash_at 5) false sample_id log_payload empty_logs).1
put_admission-Puts_example =
    put_admission-Puts plain_logs (crash_at 5) false sample_id log_payload empty_logs []
      plain_logs-LogCodecLaws (omega arith) record_fits empty-IsLogs

abbrev put_one : LogDisk
put_one = (put_admission plain_logs calm false sample_id log_payload empty_logs).1

abbrev put_row : Row
put_row = record { seq = 1; id = sample_id; ready = false; payload = log_payload }

put_calm :
    (put_admission plain_logs calm false sample_id log_payload empty_logs).0 ≡ done (1, false)
unfolding put_admission admit_new admit save_manifest write charge name_eq valid_admission
put_calm = refl

one-IsLogs : IsLogs plain_logs put_one (put_row ∷ [])
one-IsLogs = added (
    put_admission-Puts plain_logs calm false sample_id log_payload empty_logs []
      plain_logs-LogCodecLaws (omega arith) record_fits empty-IsLogs)
  where
    added :
        Puts plain_logs sample_id log_payload []
          (put_admission plain_logs calm false sample_id log_payload empty_logs).0
          put_one
        → IsLogs plain_logs put_one (put_row ∷ [])
    added = rw put_calm (λ h. same_text h.1.0 h.1.1 h.1.2)
      where
        same_text :
            (p : Bytes)
            → whole_text log_payload ≡ some p
            → IsLogs plain_logs put_one
                (record { seq = 1; id = sample_id; ready = false; payload = p } ∷ [])
            → IsLogs plain_logs put_one (put_row ∷ [])
        same_text p e i = let same : log_payload ≡ p = ground arith in rw same i

activate-Activates_example :
    Activates plain_logs sample_id
      (put_row ∷ [])
      (activate plain_logs (fail_at 14) false sample_id put_one).0
      (activate plain_logs (fail_at 14) false sample_id put_one).1
activate-Activates_example =
    activate-Activates plain_logs plain_logs-LogCodecLaws (fail_at 14) sample_id put_one
      (put_row ∷ []) one-IsLogs false

abbrev ready_one : LogDisk
ready_one = (activate plain_logs calm false sample_id put_one).1

calm_activation : (activate plain_logs calm false sample_id put_one).0 ≡ done tt
unfolding put_admission admit_new admit save_manifest write charge name_eq valid_admission activate
    activate_name make_ready write_replacement decode
calm_activation = refl

ready-IsLogs : IsLogs plain_logs ready_one (record put_row { ready = true } ∷ [])
ready-IsLogs = made (
    activate-Activates plain_logs plain_logs-LogCodecLaws calm sample_id put_one (put_row ∷ [])
      one-IsLogs false)
  where
    made :
        Activates plain_logs sample_id
          (put_row ∷ [])
          (activate plain_logs calm false sample_id put_one).0
          ready_one
        → IsLogs plain_logs ready_one (record put_row { ready = true } ∷ [])
    made = rw calm_activation (λ h. h)

next-Shows_example :
    Shows plain_logs
      (record put_row { ready = true } ∷ [])
      (next plain_logs calm false ready_one).0
      (next plain_logs calm false ready_one).1
next-Shows_example =
    next-Shows plain_logs calm ready_one (record put_row { ready = true } ∷ []) ready-IsLogs false

shown_one : (next plain_logs calm false ready_one).0 ≡ done (1, log_payload)
unfolding put_admission admit_new admit save_manifest write charge name_eq valid_admission activate
    activate_name make_ready write_replacement decode next next_from quarantine
shown_one = refl

ack-Acks_example :
    Acks plain_logs 1
      (record put_row { ready = true } ∷ [])
      (ack plain_logs (crash_at 22) false 1 ready_one).0
      (ack plain_logs (crash_at 22) false 1 ready_one).1
ack-Acks_example =
    ack-Acks plain_logs (crash_at 22) ready_one (record put_row { ready = true } ∷ []) ready-IsLogs
      1 false

acked_one : (ack plain_logs calm false 1 ready_one).0 ≡ done tt
unfolding put_admission admit_new admit save_manifest write charge name_eq valid_admission activate
    activate_name make_ready write_replacement decode ack ack_head drop_head
acked_one = refl
