-- ===== src/Queue/Logs/Open.antt =====
-- internal/queue/logs_disk_linux.go: the opening of the logs spool and its recovery. The checks of
-- the path, of the directory and of the lock are a parameter, and so is the listing of the
-- directory; `rec n` stands for the names of records that the spool makes, and a directory with
-- another name of 25 bytes that ends in .lrec, which the source reads as a record, is left out. The descriptor of the
-- lock, which a failed opening closes, is not part of the directory.
use observe_agent.Base.{
  ℕ, ◌+◌, ◌-◌, ◌*◌, String, Bool, true, false, not, ◌&&◌, ◌||◌, Option, none, some, List, [], ◌∷◌,
  ◌++◌, str_eq, ltb, leb, if◌then◌else◌, length, Bytes, bytes_eq, slice, len,
}
use observe_agent.Queue.Files.{
  err, Name, control, rec, bad, pending, manifest, Files, Faults, ok, IoError, io_error, not_exist,
  already_exists, unsafe_file, conflict, M, ◌>>=◌, ◌>>◌, Answer, got, refused, ask, give, raise,
  perform, unchanged, sync_dir, rename, remove, read,
}
use observe_agent.Queue.Disk.{charge}
use observe_agent.Queue.Logs.{LogDisk, replace_pending, manifest_pending, save_manifest}
use observe_agent.Queue.Logs.Names.{find_admission, sort_names}
use observe_agent.Queue.Logs.Record.{
  LogRecord, LogManifest, LogCodec, decode, decode_manifest, max_record, max_manifest,
}

-- os.IsNotExist
abbrev pub is_missing : IoError → Bool
is_missing not_exist = true
is_missing io_error = false
is_missing already_exists = false
is_missing unsafe_file = false
is_missing conflict = false

-- What the scan of the directory gathers.
pub record Index : Type 0 where
  pub names : List ℕ
  pub admissions : List (Bytes × ℕ)
  pub bytes : ℕ
  pub count : ℕ
  pub corrupt : ℕ

abbrev pub ends_in_bad : String → Bool
ends_in_bad s = leb 4 (len s) && str_eq (slice s (len s - 4) (len s)) ".bad"

-- The control files that the scan passes.
abbrev pub is_passed : String → Bool
is_passed s =
    str_eq s "lock" || str_eq s "manifest.json" || str_eq s ".replace.pending" || ends_in_bad s

abbrev pub same_content : LogRecord → LogRecord → Bool
same_content r s = bytes_eq r.hash s.hash && bytes_eq r.payload s.payload

module _ (c : LogCodec) (env : Faults) where
  -- os.Rename over the manifest, and the sync of the directory.
  abbrev pub finish_manifest : M (Unit {0})
  finish_manifest = do rename env manifest_pending manifest; sync_dir env

  -- `recoverLogManifest` from the read of the current manifest on.
  unfoldable pub replace_manifest : Bytes → LogManifest → Answer Bytes → M (Unit {0})
  replace_manifest scope p (refused e) = if is_missing e then finish_manifest else raise e
  replace_manifest scope p (got raw) = elim (decode_manifest c raw scope) [
    | none ↦ raise conflict
    | some current ↦ if ltb p.next current.next then raise conflict else finish_manifest
  ]

  unfoldable pub pending_manifest : Bytes → Answer Bytes → M (Unit {0})
  pending_manifest scope (refused e) = if is_missing e then give tt else raise e
  pending_manifest scope (got raw) = elim (decode_manifest c raw scope) [
    | none ↦ raise conflict
    | some p ↦ ask (read env manifest max_manifest) >>= replace_manifest scope p
  ]

  -- `recoverLogManifest`
  unfoldable pub recover_manifest : Bytes → M (Unit {0})
  recover_manifest scope = ask (read env manifest_pending max_manifest) >>= pending_manifest scope

  -- `recoverPendingRecord` from the read of the reserved record on.
  unfoldable pub place_record : ℕ → LogRecord → Answer Bytes → M (Unit {0})
  place_record n p (refused e) =
      if is_missing e then (do rename env pending (rec n); sync_dir env) else raise e
  place_record n p (got raw) = elim (decode c raw) [
    | none ↦ raise conflict
    | some t ↦
        if bytes_eq t.admission_id p.admission_id && same_content t p
        then (do remove env pending; sync_dir env)
        else raise conflict
  ]

  unfoldable pub pending_record : ℕ → Answer Bytes → M (Unit {0})
  pending_record next (refused e) = if is_missing e then give tt else raise e
  pending_record next (got raw) = elim (decode c raw) [
    | none ↦ raise conflict
    | some p ↦
        if leb next 1
        then raise conflict
        else ask (read env (rec (next - 1)) max_record) >>= place_record (next - 1) p
  ]

  -- `recoverPendingRecord`
  unfoldable pub recover_record : ℕ → M (Unit {0})
  recover_record next = ask (read env pending max_record) >>= pending_record next

  -- The body of the scan for a record, by what its file decodes to; one that does not is quarantined.
  unfoldable pub index_record : ℕ → ℕ → Index → Option LogRecord → M Index
  index_record n size x none = do
    rename env (rec n) (bad n)
    sync_dir env
    give (record x { corrupt = x.corrupt + 1 })
  index_record n size x (some r) = elim (find_admission r.admission_id x.admissions) [
    | some _ ↦ raise conflict
    | none ↦ give (record x {
      names = if r.ready then x.names ++ (n ∷ []) else x.names;
      admissions = x.admissions ++ ((r.admission_id, n) ∷ []);
      bytes = x.bytes + charge size;
      count = x.count + 1;
    })
  ]

  unfoldable pub scan_entry : Name → Index → M Index
  scan_entry (control s) x = if is_passed s then give x else raise conflict
  scan_entry (bad n) x = give x
  scan_entry (rec n) x =
      read env (rec n) max_record >>= λ raw. index_record n (length raw) x (decode c raw)

  -- The loop over the entries.
  unfoldable pub scan : List Name → Index → M Index
  scan [] x = give x
  scan (n ∷ ns) x = scan_entry n x >>= scan ns

  -- `recoverPendingActivation` from the read of the admitted record on.
  unfoldable pub finish_activation : ℕ → LogRecord → Index → Option LogRecord → M Index
  finish_activation n p x none = raise conflict
  finish_activation n p x (some current) =
      if same_content current p
      then (do
        rename env replace_pending (rec n)
        sync_dir env
        give (record x { names = if current.ready then x.names else x.names ++ (n ∷ []) }))
      else raise conflict

  unfoldable pub pending_activation : Index → Answer Bytes → M Index
  pending_activation x (refused e) = if is_missing e then give x else raise e
  pending_activation x (got raw) = elim (decode c raw) [
    | none ↦ raise conflict
    | some p ↦
        if not p.ready then raise conflict else elim (find_admission p.admission_id x.admissions) [
          | none ↦ raise conflict
          | some n ↦ read env (rec n) max_record >>= λ b. finish_activation n p x (decode c b)
        ]
  ]

  -- `recoverPendingActivation`
  unfoldable pub recover_activation : Index → M Index
  recover_activation x = ask (read env replace_pending max_record) >>= pending_activation x

  -- The manifest of the spool, which a new spool saves first.
  unfoldable pub load_manifest : Bytes → Answer Bytes → M LogManifest
  load_manifest scope (refused e) =
      if is_missing e
      then (do
        save_manifest c env (record { version = 1; scope = scope; next = 1 })
        give (record { version = 1; scope = scope; next = 1 }))
      else raise e
  load_manifest scope (got raw) = elim (decode_manifest c raw scope) [
    | none ↦ raise conflict
    | some m ↦ give m
  ]

  -- The end of the opening.
  unfoldable pub opened : LogManifest → ℕ → ℕ → Index → M LogDisk
  opened m max_bytes max_items x d =
      if ltb max_bytes x.bytes || ltb max_items x.count then (err conflict, d) else (
        ok (record {
          dir = d;
          manifest = m;
          names = sort_names x.names;
          admissions = x.admissions;
          bytes = x.bytes;
          count = x.count;
          max_bytes = max_bytes;
          max_items = max_items;
          closed = false;
          wake = false;
          corrupt = x.corrupt;
          open_lock = true;
        }),
        d,
      )

  abbrev pub start_index : ℕ → Index
  start_index max_items = record {
    names = [];
    admissions = [];
    bytes = 16384 + charge (max_items * 256);
    count = 0;
    corrupt = 0;
  }

  module _ (listing : Files → List Name) where
    -- The part of `OpenLogDisk` behind the reading of the manifest.
    unfoldable pub open_records : ℕ → ℕ → LogManifest → M LogDisk
    open_records max_bytes max_items m = do
      recover_record m.next
      entries ← perform env (λ fs. ok (listing fs)) unchanged unchanged
      x ←
          (if ltb (max_items + 16) (length entries)
            then raise conflict
            else scan entries (start_index max_items))
      y ← recover_activation x
      opened m max_bytes max_items y

    -- `OpenLogDisk`; `prepared` says whether the path, the directory and the lock pass the checks.
    unfoldable pub open_log_disk : Bool → Option Bytes → ℕ → ℕ → M LogDisk
    open_log_disk prepared none max_bytes max_items = raise conflict
    open_log_disk prepared (some scope) max_bytes max_items =
        if ltb max_bytes 32768 || ltb max_items 1 || ltb 4096 max_items || not prepared
        then raise conflict
        else (do
          recover_manifest scope
          raw ← ask (read env manifest max_manifest)
          m ← load_manifest scope raw
          open_records max_bytes max_items m)
