-- ===== src/Queue/Migration/Tests.antt =====
-- A control codec, and loads of the manifest of the metrics spool at concrete directories.
use observe_agent.Base.{
  ◌≡◌, refl, Bool, true, false, Option, none, some, [], ◌∷◌, ◌++◌, Bytes, length, take, drop, ◌||◌,
  if◌then◌else◌,
}
use observe_agent.Queue.Files.{Files, Dir, Io, ok, rec, manifest, backup, name_eq}
use observe_agent.Queue.Files.Steps.{IsDurable, settled_file}
use observe_agent.Queue.Disk.Tests.{plain, calm, crash_at}
use observe_agent.Queue.Migration.{
  Manifest, Migration, ScopeUpgrade, ControlCodec, load_manifest, no_pending, absent_pending,
  by_journal, or_backup, from_copy, manifest_valid, scoped, migrate, scope_write, scope_place,
  finish_migration, journaled, resume, control_copy, check_copy,
}
use observe_agent.Queue.Migration.Scoped.{Loaded}
use observe_agent.Queue.Migration.Loaded.{load_manifest-Loaded}

abbrev is_hash : Bytes → Bool
is_hash [] = false
is_hash (x ∷ xs) = true

abbrev parse_journal : Bytes → Option Migration
parse_journal (v ∷ n ∷ k ∷ b) =
    some (record { version = v; old_scope = take k b; new_scope = drop k b; next = n })
parse_journal _ = none

abbrev pub plain_control : ControlCodec
plain_control = record {
  encode_migration = λ t. t.version ∷ t.next ∷ length t.old_scope ∷ (t.old_scope ++ t.new_scope);
  parse_migration = parse_journal;
  scope_hash_valid = is_hash;
}

abbrev pub upgrade : ScopeUpgrade
upgrade = record { hash = 9 ∷ []; legacy = 7 ∷ [] }

-- A spool of version 1 with one record.
abbrev old_files : Files
old_files n =
    if name_eq n manifest || name_eq n backup
    then some (settled_file (1 ∷ 2 ∷ 7 ∷ []))
    else if name_eq n (rec 1)
    then some (settled_file (1 ∷ 1 ∷ 1 ∷ 5 ∷ []))
    else none

abbrev old_dir : Dir
old_dir = record { files = old_files; ticks = 0 }

abbrev loaded_of : Io Manifest → Option Manifest
loaded_of (ok m) = some m
loaded_of _ = none

-- The spool is migrated to the scope of version 2.
migrates :
    loaded_of (load_manifest plain plain_control calm false (7 ∷ []) (some upgrade) old_dir).0
    ≡ some (record { version = 2; scope = 9 ∷ []; next = 2 })
unfolding load_manifest no_pending absent_pending by_journal or_backup from_copy manifest_valid
    scoped migrate scope_write scope_place finish_migration name_eq
migrates = refl

-- A migration that a crash cuts is completed by the next load.
resumes :
    loaded_of
      (load_manifest plain plain_control calm false
        (7 ∷ [])
        (some upgrade)
        (load_manifest plain plain_control (crash_at 18) false (7 ∷ []) (some upgrade) old_dir).1).0
    ≡ some (record { version = 2; scope = 9 ∷ []; next = 2 })
unfolding load_manifest no_pending absent_pending by_journal or_backup from_copy manifest_valid
    scoped migrate scope_write scope_place finish_migration name_eq journaled resume control_copy
    check_copy
resumes = refl

record_synced : IsDurable (old_files (rec 1))
unfolding name_eq
record_synced = refl

manifest_synced : IsDurable (old_files manifest)
unfolding name_eq
manifest_synced = refl

backup_synced : IsDurable (old_files backup)
unfolding name_eq
backup_synced = refl

load_manifest-Loaded_example :
    ((load_manifest plain plain_control (crash_at 18) false (7 ∷ []) (some upgrade) old_dir).1.files
        (rec 1)
      ≡ old_files (rec 1))
    × ((m : Manifest)
        → (load_manifest plain plain_control (crash_at 18) false (7 ∷ []) (some upgrade) old_dir).0
          ≡ ok m
        → Loaded plain plain_control false
            (7 ∷ [])
            (some upgrade)
            (old_files manifest)
            (old_files backup)
            m)
load_manifest-Loaded_example =
    load_manifest-Loaded plain plain_control (crash_at 18) false (7 ∷ []) (some upgrade) old_dir 1
      record_synced manifest_synced backup_synced
