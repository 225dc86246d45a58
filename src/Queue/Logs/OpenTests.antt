-- ===== src/Queue/Logs/OpenTests.antt =====
-- Openings of the logs spool at concrete directories.
use observe_agent.Base.{ℕ, ◌≡◌, refl, true, none, some, List, [], ◌∷◌, if◌then◌else◌, Bytes}
use observe_agent.Queue.Files.{Name, Files, Dir, Io, ok, rec, manifest, name_eq}
use observe_agent.Queue.Files.Steps.{IsDurable, settled_file}
use observe_agent.Queue.Disk.{charge}
use observe_agent.Queue.Disk.Tests.{calm, crash_at}
use observe_agent.Queue.Logs.{LogDisk, fresh, replace_pending}
use observe_agent.Queue.Logs.Record.{decode, decode_manifest, valid_admission}
use observe_agent.Queue.Logs.Open.{
  open_log_disk, open_records, opened, load_manifest, recover_manifest, pending_manifest,
  replace_manifest, recover_record, pending_record, place_record, scan, scan_entry, index_record,
  recover_activation, pending_activation, finish_activation,
}
use observe_agent.Queue.Logs.Tests.{plain_logs, sample_id, log_payload}
use observe_agent.Queue.Logs.Completed.{Kept}
use observe_agent.Queue.Logs.Reopened.{open_log_disk-keeps}

abbrev stored_bytes : Bytes
stored_bytes = plain_logs.encode (fresh plain_logs sample_id log_payload)

abbrev ready_stored : Bytes
ready_stored = plain_logs.encode (record (fresh plain_logs sample_id log_payload) { ready = true })

-- A directory with a manifest, a record that is not ready, and its pending replacement.
abbrev crashed_files : Files
crashed_files n =
    if name_eq n manifest
    then some (
        settled_file
          (plain_logs.encode_manifest (record { version = 1; scope = 7 ∷ []; next = 2 })))
    else if name_eq n (rec 1)
    then some (settled_file stored_bytes)
    else if name_eq n replace_pending
    then some (settled_file ready_stored)
    else none

abbrev crashed_dir : Dir
crashed_dir = record { files = crashed_files; ticks = 0 }

abbrev listed : Files → List Name
listed fs = manifest ∷ replace_pending ∷ rec 1 ∷ []

abbrev opened_names : Io LogDisk → List ℕ
opened_names (ok q) = q.names
opened_names _ = []

-- The activation that a crash cut is completed.
completed :
    opened_names (open_log_disk plain_logs calm listed true (some (7 ∷ [])) 40000 2 crashed_dir).0
    ≡ 1 ∷ []
unfolding open_log_disk open_records opened load_manifest recover_manifest pending_manifest
    replace_manifest recover_record pending_record place_record scan scan_entry index_record
    recover_activation pending_activation finish_activation name_eq decode decode_manifest
    valid_admission charge
completed = refl

stored_1 : crashed_files (rec 1) ≡ some (settled_file stored_bytes)
unfolding name_eq
stored_1 = refl

stored-decodes : decode plain_logs stored_bytes ≡ some (fresh plain_logs sample_id log_payload)
unfolding decode valid_admission
stored-decodes = refl

replacement_synced : IsDurable (crashed_files replace_pending)
unfolding name_eq
replacement_synced = refl

open_log_disk-keeps_example :
    Kept plain_logs 1 log_payload
      (open_log_disk plain_logs (crash_at 6) listed true (some (7 ∷ [])) 40000 2 crashed_dir).1
open_log_disk-keeps_example =
    open_log_disk-keeps plain_logs (crash_at 6) listed true (some (7 ∷ [])) 40000 2 crashed_dir 1
      (settled_file stored_bytes) (fresh plain_logs sample_id log_payload) stored_1 refl
      stored-decodes replacement_synced
