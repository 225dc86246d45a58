-- ===== src/Queue/Logs.antt =====
-- internal/queue/logs_disk_linux.go: the logs spool, whose records are admitted first and
-- made deliverable by a later activation.
-- A method returns its result and the queue. Sequence numbers stand for the names of the records.
pub mod Record
pub mod Names
pub mod Rows
pub mod Held
pub mod Written
pub mod Admit
pub mod Mark
pub mod Replaced
pub mod Activate
pub mod Dropped
pub mod Deliver
pub mod Acked
pub mod Open
pub mod Looked
pub mod Recovery
pub mod Completed
pub mod Reopened
pub mod Tests
pub mod OpenTests
use observe_agent.Base.{
  ℕ, ◌+◌, ◌-◌, ◌%◌, ◌^◌, Bool, true, false, not, ◌||◌, none, some, List, [], ◌∷◌, ◌++◌, ltb, leb,
  ◌==◌, if◌then◌else◌, length, Bytes,
}
use observe_agent.Queue.Files.{
  Name, control, rec, bad, pending, manifest, Dir, Faults, Io, ok, err, crashed, M, ◌>>=◌, ◌>>◌,
  create, open_truncated, install, close_file, sync_dir, rename, remove, read,
}
use observe_agent.Queue.Disk.{
  cancelled, spool_closed, invalid_payload, full, not_head, corrupt_record, io, Result, done,
  failed, waiting, died, charge,
}
use observe_agent.Queue.Logs.Names.{sort_names, holds_name, find_admission, forget, forget_name}
use observe_agent.Queue.Logs.Record.{
  LogRecord, LogManifest, LogCodec, valid_admission, decode, max_payload, max_record,
}

abbrev pub replace_pending : Name
replace_pending = control ".replace.pending"

abbrev pub manifest_pending : Name
manifest_pending = control ".manifest.pending"

-- `LogDisk`; `manifest` holds the version, the scope and the next sequence number, and
-- `admissions` is a map. `open_lock` is `lock != nil`.
pub record LogDisk : Type 0 where
  pub dir : Dir
  pub manifest : LogManifest
  pub names : List ℕ
  pub admissions : List (Bytes × ℕ)
  pub bytes : ℕ
  pub count : ℕ
  pub max_bytes : ℕ
  pub max_items : ℕ
  pub closed : Bool
  pub wake : Bool
  pub corrupt : ℕ
  pub open_lock : Bool

module _ (env : Faults) where
  -- `write`
  unfoldable pub write : Name → Bytes → M (Unit {0})
  write name b = do create env pending; install env pending name b

  -- `writeReplacement`
  unfoldable pub write_replacement : Name → Bytes → M (Unit {0})
  write_replacement name b = do create env replace_pending; install env replace_pending name b

  unfoldable pub quarantine : ℕ → LogDisk → Io (Unit {0}) × LogDisk
  quarantine n q =
      let (r, d) = rename env (rec n) (bad n) q.dir in
      let (s, d') = sync_dir env d in
      elim r [
        | ok _ ↦ (s, record q { dir = d'; corrupt = q.corrupt + 1 })
        | err e ↦ (err e, record q { dir = d })
        | crashed ↦ (crashed, record q { dir = d })
      ]

  -- `Close`
  unfoldable pub close : LogDisk → Result (Unit {0}) × LogDisk
  close q =
      let shut = record q { closed = true; wake = true } in
      let (r, d) = close_file env q.dir in
      let freed = record shut { dir = d; open_lock = false } in
      if q.open_lock
      then elim r [
        | ok _ ↦ (done tt, freed)
        | err e ↦ (failed (io e), freed)
        | crashed ↦ (died, freed)
      ]
      else (done tt, shut)

  -- `Ack` from the os.Remove on, for a head of `size` bytes that was admitted as `id`.
  unfoldable pub drop_head : ℕ → List ℕ → Bytes → ℕ → LogDisk → Result (Unit {0}) × LogDisk
  drop_head n rest id size q =
      let (removed, d1) = remove env (rec n) q.dir in
      let (synced, d2) = sync_dir env d1 in
      elim removed [
        | crashed ↦ (died, record q { dir = d1 })
        | err e ↦ (failed (io e), record q { dir = d1 })
        | ok _ ↦ elim synced [
          | crashed ↦ (died, record q { dir = d2 })
          | err e ↦ (failed (io e), record q { dir = d2; closed = true })
          | ok _ ↦ (
            done tt,
            record q {
              dir = d2;
              admissions = forget id q.admissions;
              names = rest;
              count = q.count - 1;
              bytes = q.bytes - charge size;
            },
          )
        ]
      ]

module _ (c : LogCodec) where
  -- The record that `PutAdmission` writes for a normalized payload.
  abbrev pub fresh : Bytes → Bytes → LogRecord
  fresh id p = record {
    version = 1;
    admission_id = id;
    ready = false;
    hash = c.digest p;
    payload = p;
  }

module _ (c : LogCodec) (env : Faults) where
  -- `saveManifest`
  unfoldable pub save_manifest : LogManifest → M (Unit {0})
  save_manifest m = do
    open_truncated env manifest_pending
    install env manifest_pending manifest (c.encode_manifest m)

  -- `PutAdmission` from the sequence number on, which wraps around at 64 bits.
  unfoldable pub admit : Bytes → Bytes → ℕ → LogDisk → Result (ℕ × Bool) × LogDisk
  admit id b cost q =
      let n = q.manifest.next in
      let m = record q.manifest { next = (n + 1) % 2 ^ 64 } in
      let (saved, d) = save_manifest m q.dir in
      let (written, d') = write env (rec n) b d in
      elim saved [
        | crashed ↦ (died, record q { dir = d; manifest = m })
        | err e ↦ (failed (io e), record q { dir = d; manifest = m; closed = true })
        | ok _ ↦ elim written [
          | crashed ↦ (died, record q { dir = d'; manifest = m })
          | err e ↦ (failed (io e), record q { dir = d'; manifest = m; closed = true })
          | ok _ ↦ (
            done (n, false),
            record q {
              dir = d';
              manifest = m;
              admissions = q.admissions ++ ((id, n) ∷ []);
              count = q.count + 1;
              bytes = q.bytes + cost;
            },
          )
        ]
      ]

  -- `PutAdmission` of a new identifier.
  unfoldable pub admit_new : Bytes → Bytes → LogDisk → Result (ℕ × Bool) × LogDisk
  admit_new id payload q = elim (c.normalize payload) [
    | none ↦ (failed invalid_payload, q)
    | some p ↦
        let b = c.encode (fresh c id p) in
        let cost = charge (length b) in
        if leb q.max_items q.count || ltb q.max_bytes (q.bytes + cost)
        then (failed full, q)
        else admit id b cost q
  ]

  -- `PutAdmission`: the receipt, and whether the identifier was known.
  unfoldable pub put_admission : Bool → Bytes → Bytes → LogDisk → Result (ℕ × Bool) × LogDisk
  put_admission ended id payload q =
      if ended
      then (failed cancelled, q)
      else if q.closed
      then (failed spool_closed, q)
      else if not (valid_admission id) || ltb max_payload (length payload) || not (c.valid payload)
      then (failed invalid_payload, q)
      else elim (find_admission id q.admissions) [
        | some n ↦ (done (n, true), q)
        | none ↦ admit_new id payload q
      ]

  -- `Activate` from the writeReplacement on, for the record that was read.
  unfoldable pub make_ready : ℕ → LogRecord → LogDisk → Result (Unit {0}) × LogDisk
  make_ready n r q =
      let (written, d) =
        write_replacement env (rec n) (c.encode (record r { ready = true })) q.dir in
      elim written [
        | crashed ↦ (died, record q { dir = d })
        | err e ↦ (failed (io e), record q { dir = d; closed = true })
        | ok _ ↦
            (done tt, record q { dir = d; names = sort_names (q.names ++ (n ∷ [])); wake = true })
      ]

  -- `Activate` of an admitted record that is not ready, from the read on.
  unfoldable pub activate_name : ℕ → LogDisk → Result (Unit {0}) × LogDisk
  activate_name n q =
      let (raw, d) = read env (rec n) max_record q.dir in
      let here = record q { dir = d } in
      elim raw [
        | crashed ↦ (died, here)
        | err e ↦ (failed (io e), here)
        | ok b ↦ elim (decode c b) [
          | none ↦ (failed corrupt_record, here)
          | some r ↦ make_ready n r here
        ]
      ]

  -- `Activate`
  unfoldable pub activate : Bool → Bytes → LogDisk → Result (Unit {0}) × LogDisk
  activate ended id q =
      if ended then (failed cancelled, q) else elim (find_admission id q.admissions) [
        | none ↦ (done tt, q)
        | some n ↦ if holds_name n q.names then (done tt, q) else activate_name n q
      ]

  -- The loop of `Next` over the names: records that do not decode are quarantined.
  unfoldable pub next_from : List ℕ → LogDisk → Result (ℕ × Bytes) × LogDisk
  next_from [] q = (waiting, record q { names = [] })
  next_from (n ∷ ns) q =
      let (raw, d) = read env (rec n) max_record q.dir in
      let here = record q { dir = d; names = n ∷ ns } in
      let (s, q') = quarantine env n here in
      elim raw [
        | err e ↦ (failed (io e), here)
        | crashed ↦ (died, here)
        | ok b ↦ elim (decode c b) [
          | some r ↦ (done (n, r.payload), here)
          | none ↦ elim s [
            | err e ↦ (failed (io e), q')
            | crashed ↦ (died, q')
            | ok _ ↦ next_from ns (record q' {
              admissions = forget_name n q'.admissions;
              count = q'.count - 1;
              bytes = q'.bytes - charge (length b);
            })
          ]
        ]
      ]

  -- `Next`
  unfoldable pub next : Bool → LogDisk → Result (ℕ × Bytes) × LogDisk
  next ended q =
      if ended
      then (failed cancelled, q)
      else if q.closed
      then (failed spool_closed, q)
      else next_from q.names q

  -- `Ack` of the head, from the read on.
  unfoldable pub ack_head : ℕ → List ℕ → LogDisk → Result (Unit {0}) × LogDisk
  ack_head n rest q =
      let (raw, d) = read env (rec n) max_record q.dir in
      let here = record q { dir = d } in
      elim raw [
        | crashed ↦ (died, here)
        | err e ↦ (failed (io e), here)
        | ok b ↦ elim (decode c b) [
          | none ↦ (failed corrupt_record, here)
          | some r ↦ drop_head env n rest r.admission_id (length b) here
        ]
      ]

  -- `Ack`
  unfoldable pub ack : Bool → ℕ → LogDisk → Result (Unit {0}) × LogDisk
  ack ended receipt q =
      if ended
      then (failed cancelled, q)
      else if q.closed
      then (failed not_head, q)
      else elim q.names [
        | [] ↦ (failed not_head, q)
        | n ∷ rest ↦ if n == receipt then ack_head n rest q else (failed not_head, q)
      ]
