-- ===== src/Queue/Disk/Tests.antt =====
-- A codec, runs of the metrics spool, and its theorems at concrete inputs.
use observe_agent.Base.{
  inl, ℕ, ◌≡◌, refl, ap, Bool, true, false, [], ◌∷◌, ◌++◌, Option, none, some, ◌⊎◌, arith, Bytes,
  length, take, drop, ◌==◌, if◌then◌else◌,
}
use observe_agent.Queue.Files.{io_error, rec, name_eq, Faults, pass, fail, crash}
use observe_agent.Queue.Files.Steps.{settled_file}
use observe_agent.Queue.Files.Laws.{control-rec}
use observe_agent.Queue.Codec.{Codec, CodecLaws}
use observe_agent.Queue.Disk.{
  decode, quarantine, next_from, io, failed, Disk, done, died, put, next, ack, write, save_manifest,
  admit, charge, drop_head, record_of,
}
use observe_agent.Queue.Disk.Accept.{put_files}
use observe_agent.Queue.Disk.Fifo.{IsQueue}
use observe_agent.Queue.Disk.Refine.{accepted, put_keeps, put_appends}
use observe_agent.Queue.Disk.Deliver.{Peeks, next-Peeks, next_delivers}
use observe_agent.Queue.Disk.Run.{Run, accepts, shows, acknowledges, stays}
use observe_agent.Queue.Disk.Ack.{ack_keeps, Dropped, ack-Dropped}

abbrev is_full : Bytes → Bool
is_full [] = false
is_full (x ∷ xs) = true

abbrev whole_text : Bytes → Option Bytes
whole_text [] = none
whole_text (x ∷ xs) = some (x ∷ xs)

abbrev parse_record : Bytes → Option (ℕ × Bytes × Bytes)
parse_record (v ∷ k ∷ b) = some (v, take k b, drop k b)
parse_record _ = none

abbrev parse_manifest : Bytes → Option (ℕ × Bytes × ℕ)
parse_manifest (v ∷ n ∷ s) = some (v, s, n)
parse_manifest _ = none

-- A codec whose texts are the byte sequences but the empty one.
abbrev pub plain : Codec
plain = record {
  valid = is_full;
  normalize = whole_text;
  digest = λ p. length p ∷ [];
  encode_record = λ v h p. v ∷ length h ∷ (h ++ p);
  decode_record = parse_record;
  encode_manifest = λ v s n. v ∷ n ∷ s;
  decode_manifest = parse_manifest;
}

pub take-append : (xs ys : Bytes) → take (length xs) (xs ++ ys) ≡ xs
take-append [] ys = refl
take-append (x ∷ xs) ys = ap (λ r. x ∷ r) (take-append xs ys)

pub drop-append : (xs ys : Bytes) → drop (length xs) (xs ++ ys) ≡ ys
drop-append [] ys = refl
drop-append (x ∷ xs) ys = drop-append xs ys

whole_text-is_full : (b p : Bytes) → whole_text b ≡ some p → is_full p ≡ true
whole_text-is_full [] p h = cc
whole_text-is_full (x ∷ xs) p h = ground arith

whole_text_total : (b : Bytes) → is_full b ≡ true → (p : Bytes) × (whole_text b ≡ some p)
whole_text_total [] h = cc
whole_text_total (x ∷ xs) h = (x ∷ xs, refl)

pub plain-CodecLaws : CodecLaws plain
plain-CodecLaws = record {
  valid-normalize = whole_text-is_full;
  normalize_total = whole_text_total;
  decode-encode_record = λ b p v h e. rw (take-append h p, drop-append h p);
  decode-encode_manifest = λ v s n. refl;
}

abbrev pub empty : Disk
empty = record {
  dir = record { files = λ _. none; ticks = 0 };
  version = 2;
  scope = 7 ∷ [];
  next = 1;
  names = [];
  bytes = 0;
  count = 0;
  max_bytes = 16384;
  max_items = 2;
  closed = false;
  wake = false;
  corrupt = 0;
  open_lock = true;
}

-- Every operation succeeds.
abbrev pub calm : Faults
calm = record { fault = λ _. pass; cut = λ _. 0 }

-- The process crashes at one file operation, or that operation fails.
abbrev pub crash_at : ℕ → Faults
crash_at n = record { fault = λ k. if k == n then crash else pass; cut = λ _. 0 }

abbrev pub fail_at : ℕ → Faults
fail_at n = record { fault = λ k. if k == n then fail else pass; cut = λ _. 0 }

abbrev pub sample : Bytes
sample = 123 ∷ 125 ∷ []

pub empty-IsQueue : IsQueue plain empty []
empty-IsQueue = record {
  settled = record { durable = λ k ne. refl };
  held = tt;
  ascending = omega arith;
  counted = omega arith;
  charged = omega arith;
  within = (omega arith, omega arith);
}

abbrev pub one : Disk
one = (put plain calm false sample empty).1

put-calm : (put plain calm false sample empty).0 ≡ done 1
unfolding put admit save_manifest write charge name_eq
put-calm = refl

pub one-IsQueue : IsQueue plain one (sample ∷ [])
one-IsQueue =
    put_appends plain calm false sample empty 1 [] sample plain-CodecLaws empty-IsQueue refl
      (omega arith) put-calm

one_names : (one.names ≡ 1 ∷ []) × (one.closed ≡ false) × (one.bytes ≡ 4096)
unfolding put admit save_manifest write charge name_eq
one_names = (refl, refl, refl)

one_acked : (ack calm false 1 one).0 ≡ done tt
unfolding put admit save_manifest write charge name_eq ack drop_head
one_acked = refl

put_crashes : (put plain (crash_at 3) false sample empty).0 ≡ died
unfolding put admit save_manifest write charge name_eq
put_crashes = refl

put_files_example :
    let d = (put plain (crash_at 3) false sample empty).1.dir in
    (d.files (rec 1) ≡ none)
    ⊎ ((p : Bytes) × (plain.normalize sample ≡ some p)
        × (name_eq (rec 1) (rec 1) ≡ true)
        × (d.files (rec 1) ≡ some (settled_file (record_of plain p))))
put_files_example =
    put_files plain (crash_at 3) (rec 1) none refl (control-rec ".pending" 1)
      (control-rec "manifest.json" 1) (control-rec "manifest.backup" 1) false sample empty refl

put_keeps_example : IsQueue plain (put plain (crash_at 3) false sample empty).1 []
put_keeps_example =
    put_keeps plain (crash_at 3) false sample empty [] empty-IsQueue (ap accepted put_crashes)

put_appends_example : IsQueue plain one (sample ∷ [])
put_appends_example =
    put_appends plain calm false sample empty 1 [] sample plain-CodecLaws empty-IsQueue refl
      (omega arith) put-calm

next-Peeks_example :
    Peeks plain one (sample ∷ []) (next plain calm false one).0 (next plain calm false one).1
next-Peeks_example = next-Peeks plain calm false one (sample ∷ []) one-IsQueue

next_delivers_example : (next plain calm false one).0 ≡ done (1, sample)
next_delivers_example =
    next_delivers plain calm one 1 [] sample [] one-IsQueue one_names.0 one_names.1 refl

ack-Dropped_example : Dropped plain 1 one (sample ∷ []) (ack calm false 1 one).1
ack-Dropped_example = ack-Dropped plain calm false 1 one (sample ∷ []) one-IsQueue one_acked

abbrev shown : Disk
shown = (next plain calm false one).1

shown_item : (next plain calm false one).0 ≡ done (1, sample)
unfolding put admit save_manifest write charge name_eq next next_from quarantine decode
shown_item = refl

-- Another payload is accepted between the `Next` and the `Ack` of the first one.
abbrev crowded : Disk
crowded = (put plain calm false sample shown).1

put-shown : (put plain calm false sample shown).0 ≡ done 2
unfolding put admit save_manifest write charge name_eq next next_from quarantine decode
put-shown = refl

crowded_acked : (ack calm false 1 crowded).0 ≡ done tt
unfolding put admit save_manifest write charge name_eq next next_from quarantine decode ack
    drop_head
crowded_acked = refl

abbrev sample_run :
    Run plain calm [] empty (sample ∷ sample ∷ []) (sample ∷ []) (ack calm false 1 crowded).1
sample_run = accepts false sample sample 1 refl (omega arith) put-calm (
    shows false 1 sample shown_item (
      accepts false sample sample 2 refl (omega arith) put-shown
        (acknowledges false 1 sample (inl (refl, refl)) crowded_acked stays)))

ack_refused : (ack (fail_at 22) false 1 one).0 ≡ failed (io io_error)
unfolding put admit save_manifest write charge name_eq ack drop_head
ack_refused = refl

still_open : (ack (fail_at 22) false 1 one).1.closed ≡ false
unfolding put admit save_manifest write charge name_eq ack drop_head
still_open = refl

ack_keeps_example : IsQueue plain (ack (fail_at 22) false 1 one).1 (sample ∷ [])
ack_keeps_example =
    ack_keeps plain (fail_at 22) false 1 one (io io_error) (sample ∷ []) one-IsQueue ack_refused
      still_open
