-- ===== src/Queue/Disk/OpenTests.antt =====
-- Openings of the metrics spool at concrete directories.
use observe_agent.Base.{ℕ, ◌≡◌, refl, true, ◌||◌, Option, none, some, List, [], ◌∷◌, if◌then◌else◌}
use observe_agent.Queue.Files.{Name, control, Files, Dir, Io, ok, rec, manifest, backup, name_eq}
use observe_agent.Queue.Files.Steps.{settled_file}
use observe_agent.Queue.Disk.{Disk, charge, decode, record_of}
use observe_agent.Queue.Disk.Open.{open_disk, index_record, scan_pending, scan_entry, scan, opened}
use observe_agent.Queue.Disk.Reopened.{open_disk-keeps}
use observe_agent.Queue.Disk.Tests.{plain, calm, sample}
use observe_agent.Queue.Logs.Names.{holds_name}
use observe_agent.Queue.Migration.{
  load_manifest, no_pending, absent_pending, by_journal, or_backup, from_copy, manifest_valid,
  scoped, migrate, scope_write, scope_place, finish_migration,
}
use observe_agent.Queue.Migration.Tests.{plain_control, upgrade}

-- A spool of version 1 with a record, a broken record, and the lock.
abbrev stored_files : Files
stored_files n =
    if name_eq n manifest || name_eq n backup
    then some (settled_file (1 ∷ 3 ∷ 7 ∷ []))
    else if name_eq n (rec 1)
    then some (settled_file (record_of plain sample))
    else if name_eq n (rec 2)
    then some (settled_file [])
    else none

abbrev stored_dir : Dir
stored_dir = record { files = stored_files; ticks = 0 }

abbrev entries : Files → List Name
entries fs = control "lock" ∷ rec 2 ∷ manifest ∷ rec 1 ∷ []

abbrev opened_with : Io Disk → Option (List ℕ × ℕ × ℕ)
opened_with (ok q) = some (q.names, q.count, q.corrupt)
opened_with _ = none

abbrev opening : Io Disk × Dir
opening =
    open_disk plain plain_control calm entries true (λ b. b) (7 ∷ []) 40000 2 (some upgrade)
      stored_dir

-- The scope is migrated, the broken record is quarantined, and the other one is listed.
opens : opened_with opening.0 ≡ some (1 ∷ [], 2, 1)
unfolding open_disk index_record scan_pending scan_entry scan opened charge decode load_manifest
    no_pending absent_pending by_journal or_backup from_copy manifest_valid scoped migrate
    scope_write scope_place finish_migration name_eq
opens = refl

stored_1 : stored_files (rec 1) ≡ some (settled_file (record_of plain sample))
unfolding name_eq
stored_1 = refl

sample-decodes : decode plain (record_of plain sample) ≡ some sample
unfolding decode
sample-decodes = refl

open_disk-keeps_example :
    (opening.1.files (rec 1) ≡ some (settled_file (record_of plain sample)))
    × ((q : Disk) → opening.0 ≡ ok q → holds_name 1 q.names ≡ true)
open_disk-keeps_example =
    open_disk-keeps plain plain_control calm entries true (λ b. b) (7 ∷ []) 40000 2 (some upgrade)
      stored_dir 1 (settled_file (record_of plain sample)) sample stored_1 refl sample-decodes
      (λ fs h. refl)
