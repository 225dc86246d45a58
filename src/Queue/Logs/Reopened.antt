-- ===== src/Queue/Logs/Reopened.antt =====
-- internal/queue/logs_disk_linux.go, `OpenLogDisk`: what becomes of a stored record.
use observe_agent.Base.{
  ℕ, ◌+◌, ◌≡◌, refl, inl, inr, Bool, true, false, not, ◌||◌, Option, none, some, List, ltb,
  if◌then◌else◌, Bool-cases, length, Bytes,
}
use observe_agent.Queue.Files.{
  Name, rec, manifest, File, Files, Dir, Faults, conflict, M, ◌>>=◌, Answer, got, refused, ask,
  give, raise, read, name_eq,
}
use observe_agent.Queue.Files.Laws.{control-rec}
use observe_agent.Queue.Files.Logic.{Assertion, Triple, Triple-bind}
use observe_agent.Queue.Files.Steps.{IsDurable, Has}
use observe_agent.Queue.Files.Keeps.{
  Ensures-all, Keeps, Keeps-bind, Keeps-ask, Keeps-give, Keeps-raise, Keeps-if, Keeps-both,
  open_truncated-Keeps, install-Keeps,
}
use observe_agent.Queue.Logs.{replace_pending, manifest_pending, save_manifest}
use observe_agent.Queue.Logs.Record.{
  LogRecord, LogManifest, LogCodec, decode, decode_manifest, max_manifest,
}
use observe_agent.Queue.Logs.Open.{
  recover_manifest, is_missing, load_manifest, opened, open_records, open_log_disk, Index,
  start_index,
}
use observe_agent.Queue.Logs.Recovery.{recover_record-Here, scan-Here}
use observe_agent.Queue.Logs.Looked.{Here, look-Here, recover_manifest-Here}
use observe_agent.Queue.Logs.Completed.{Kept, loose, keep_old, recover_activation-Kept}

module _ (c : LogCodec) (env : Faults) (k : ℕ) (f : File) (r : LogRecord) (o : Option File)
    (synced : f.synced ≡ true) (durable : IsDurable o)
    (decodes : decode c f.contents ≡ some r) where
  abbrev Start : Assertion
  Start = Here c env k f r o synced durable decodes

  abbrev End : Assertion
  End = Kept c k r.payload

  save_manifest-Start : (m : LogManifest) → Keeps Start (save_manifest c env m)
  unfolding save_manifest
  save_manifest-Start m =
      Keeps-both (Has (rec k) (some f)) (Has replace_pending o)
        (Keeps-bind (Has (rec k) (some f))
          (open_truncated-Keeps env (rec k) (some f) synced manifest_pending
            (control-rec ".manifest.pending" k))
          (λ _.
            install-Keeps env (rec k) (some f) synced manifest_pending
              (control-rec ".manifest.pending" k) manifest (c.encode_manifest m)
              (control-rec "manifest.json" k)))
        (Keeps-bind (Has replace_pending o)
          (open_truncated-Keeps env replace_pending o durable manifest_pending
            (unfold name_eq in refl))
          (λ _.
            install-Keeps env replace_pending o durable manifest_pending (unfold name_eq in refl)
              manifest (c.encode_manifest m) (unfold name_eq in refl)))

  load_manifest-Start :
      (scope : Bytes) (a : Answer Bytes) → Keeps Start (load_manifest c env scope a)
  unfolding load_manifest
  load_manifest-Start scope (refused e) =
      Keeps-if Start (is_missing e)
        (Keeps-bind Start (save_manifest-Start _) (λ _. Keeps-give Start _)) (Keeps-raise Start e)
  load_manifest-Start scope (got raw) = go (decode_manifest c raw scope)
    where
      go :
          (m : Option LogManifest)
          → Keeps Start (elim m as (λ _. M LogManifest) [ none ↦ raise conflict | some m ↦ give m ])
      go none = Keeps-raise Start conflict
      go (some m) = Keeps-give Start m

  opened-Kept :
      (m : LogManifest) (max_bytes max_items : ℕ) (x : Index)
      → Triple End (opened c env m max_bytes max_items x) (λ _. End) End End
  unfolding opened
  opened-Kept m max_bytes max_items x = record {
    at = λ d h. elim (Bool-cases (ltb max_bytes x.bytes || ltb max_items x.count)) [
      | inl t ↦ rw t h
      | inr t ↦ rw t h
    ];
  }

  open_records-Kept :
      (listing : Files → List Name) (max_bytes max_items : ℕ) (m : LogManifest)
      → Triple Start (open_records c env listing max_bytes max_items m) (λ _. End) End End
  unfolding open_records
  open_records-Kept listing max_bytes max_items m =
      Triple-bind (λ _. Start)
        (loose c env k f r o synced durable decodes
          (recover_record-Here c env k f r o synced durable decodes m.next))
        (λ _.
          Triple-bind (λ _. Start)
            (loose c env k f r o synced durable decodes
              (look-Here c env k f r o synced durable decodes _))
            (λ entries.
              Triple-bind (λ _. Start)
                (loose c env k f r o synced durable decodes (
                  Keeps-if Start (ltb (max_items + 16) (length entries))
                    (Keeps-raise Start conflict)
                    (scan-Here c env k f r o synced durable decodes entries
                      (start_index c env max_items))))
                (λ x.
                  Triple-bind (λ _. End)
                    (recover_activation-Kept c env k f r o synced durable decodes x)
                    (λ y. opened-Kept m max_bytes max_items y))))

  open_log_disk-Kept :
      (listing : Files → List Name) (prepared : Bool) (scope : Option Bytes)
      (max_bytes max_items : ℕ)
      → Triple Start
          (open_log_disk c env listing prepared scope max_bytes max_items)
          (λ _. End)
          End
          End
  unfolding open_log_disk
  open_log_disk-Kept listing prepared none max_bytes max_items =
      keep_old c env k f r o synced durable decodes (Keeps-raise Start conflict)
  open_log_disk-Kept listing prepared (some scope) max_bytes max_items =
      go (ltb max_bytes 32768 || ltb max_items 1 || ltb 4096 max_items || not prepared)
    where
      go :
          (b : Bool)
          → Triple Start
              (if b
                then raise conflict
                else (recover_manifest c env scope >>= λ _.
                    ask (read env manifest max_manifest) >>= λ raw.
                    load_manifest c env scope raw >>= λ m.
                    open_records c env listing max_bytes max_items m))
              (λ _. End)
              End
              End
      go true = keep_old c env k f r o synced durable decodes (Keeps-raise Start conflict)
      go false =
          Triple-bind (λ _. Start)
            (loose c env k f r o synced durable decodes
              (recover_manifest-Here c env k f r o synced durable decodes scope))
            (λ _.
              Triple-bind (λ _. Start)
                (loose c env k f r o synced durable decodes
                  (Keeps-ask Start (look-Here c env k f r o synced durable decodes _)))
                (λ raw.
                  Triple-bind (λ _. Start)
                    (loose c env k f r o synced durable decodes (load_manifest-Start scope raw))
                    (λ m. open_records-Kept listing max_bytes max_items m)))

-- If a record is stored in a synced file, and the pending replacement, if there is one, is synced,
-- then on every outcome of `OpenLogDisk`, each error and a crash included, the same number holds a
-- synced record with the same payload.
pub open_log_disk-keeps :
    (c : LogCodec) (env : Faults) (listing : Files → List Name) (prepared : Bool)
    (scope : Option Bytes) (max_bytes max_items : ℕ) (d : Dir) (k : ℕ) (f : File) (r : LogRecord)
    → d.files (rec k) ≡ some f
    → f.synced ≡ true
    → decode c f.contents ≡ some r
    → IsDurable (d.files replace_pending)
    → Kept c k r.payload (open_log_disk c env listing prepared scope max_bytes max_items d).1
open_log_disk-keeps c env listing prepared scope max_bytes max_items d k f r h s e durable =
    let run = open_log_disk c env listing prepared scope max_bytes max_items d in
    Ensures-all (Kept c k r.payload) run.0 run.1 (
      (open_log_disk-Kept c env k f r (d.files replace_pending) s durable e listing prepared scope
          max_bytes max_items).at
        d (h, refl))
