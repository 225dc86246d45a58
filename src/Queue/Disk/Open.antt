-- ===== src/Queue/Disk/Open.antt =====
-- internal/queue/disk_linux.go: the opening of the metrics spool. The checks of the path, of the
-- directory and of the lock are a parameter, and so is the listing of the directory; `rec n` and
-- `bad n` stand for the names that the spool makes. The descriptor of the lock, which a failed
-- opening closes, is not part of the directory.
use observe_agent.Base.{
  ℕ, ◌+◌, ◌*◌, String, Bool, true, false, not, ◌&&◌, ◌||◌, Option, none, some, List, [], ◌∷◌, ◌++◌,
  str_eq, ltb, leb, ◌==◌, if◌then◌else◌, length, Bytes,
}
use observe_agent.Queue.Files.{
  Name, control, rec, bad, pending, Files, Faults, Io, ok, err, conflict, M, ◌>>=◌, ◌>>◌, give,
  raise, perform, unchanged, sync_dir, rename, remove, read,
}
use observe_agent.Queue.Codec.{Codec}
use observe_agent.Queue.Disk.{Disk, charge, decode, max_record}
use observe_agent.Queue.Logs.Names.{sort_names}
use observe_agent.Queue.Migration.{Manifest, ScopeUpgrade, ControlCodec, load_manifest}

-- What the scan of the directory gathers.
pub record Found : Type 0 where
  pub names : List ℕ
  pub bytes : ℕ
  pub count : ℕ
  pub corrupt : ℕ

-- The control files that the scan passes.
abbrev pub is_control : String → Bool
is_control s = str_eq s "lock" || str_eq s "manifest.json" || str_eq s "manifest.backup"

abbrev pub is_upgrade : Option ScopeUpgrade → Bool
is_upgrade none = false
is_upgrade (some u) = true

-- Whether the directory holds nothing but the lock.
abbrev pub holds_only_lock : List Name → Bool
holds_only_lock [] = true
holds_only_lock (control s ∷ ns) = str_eq s "lock" && holds_only_lock ns
holds_only_lock (rec n ∷ ns) = false
holds_only_lock (bad n ∷ ns) = false

abbrev pub bounded : List Name → Io (List Name)
bounded ns = if ltb 4096 (length ns) then err conflict else ok ns

-- A record or a quarantined one of this many bytes is counted.
abbrev pub counted : ℕ → Found → Found
counted size x = record x { bytes = x.bytes + charge size; count = x.count + 1 }

abbrev pub start : Bool → ℕ → Found
start upgrading max_items = record {
  names = [];
  bytes = 16384 + charge (max_items * 256) + (if upgrading then 8192 else 0);
  count = 0;
  corrupt = 0;
}

module _ (c : Codec) (k : ControlCodec) (env : Faults) where
  -- A record is listed, or quarantined if it does not decode.
  unfoldable pub index_record : ℕ → Found → Option Bytes → M Found
  index_record n x none = do
    rename env (rec n) (bad n)
    sync_dir env
    give (record x { corrupt = x.corrupt + 1 })
  index_record n x (some p) = give (record x { names = x.names ++ (n ∷ []) })

  -- A pending file is read and removed, but not on the way to a scope of version 2.
  unfoldable pub scan_pending : Bool → Found → M Found
  scan_pending upgrading x =
      if upgrading
      then raise conflict
      else (do raw ← read env pending max_record; remove env pending; give x)

  -- The body of the loop; `next` is the sequence number of the manifest.
  unfoldable pub scan_entry : Bool → ℕ → Name → Found → M Found
  scan_entry upgrading next (control s) x =
      if is_control s
      then give x
      else if str_eq s ".pending"
      then scan_pending upgrading x
      else raise conflict
  scan_entry upgrading next (rec n) x =
      if n == 0 || leb next n
      then raise conflict
      else read env (rec n) max_record >>= λ raw.
          index_record n (counted (length raw) x) (decode c raw)
  scan_entry upgrading next (bad n) x =
      if n == 0 || leb next n
      then raise conflict
      else read env (bad n) max_record >>= λ raw.
          give (record (counted (length raw) x) { corrupt = x.corrupt + 1 })

  -- The loop over the entries.
  unfoldable pub scan : Bool → ℕ → List Name → Found → M Found
  scan upgrading next [] x = give x
  scan upgrading next (n ∷ ns) x = scan_entry upgrading next n x >>= scan upgrading next ns

  -- The `Disk` that the opening returns.
  abbrev pub disk_of : Manifest → ℕ → ℕ → Found → M Disk
  disk_of m max_bytes max_items x d = (
    ok (record {
      dir = d;
      version = m.version;
      scope = m.scope;
      next = m.next;
      names = sort_names x.names;
      bytes = x.bytes;
      count = x.count;
      max_bytes = max_bytes;
      max_items = max_items;
      closed = false;
      wake = false;
      corrupt = x.corrupt;
      open_lock = true;
    }),
    d,
  )

  -- The end of the opening: the budget, and the sync of the directory.
  unfoldable pub opened : Manifest → ℕ → ℕ → Found → M Disk
  opened m max_bytes max_items x =
      if ltb max_bytes x.bytes || ltb max_items x.count
      then raise conflict
      else (do sync_dir env; disk_of m max_bytes max_items x)

  module _ (listing : Files → List Name) where
    -- directory.ReadDir(4097)
    abbrev pub list_entries : M (List Name)
    list_entries = perform env (λ fs. bounded (listing fs)) unchanged unchanged

    -- `openDisk`; `prepared` says whether the path, the directory and the lock pass the checks, and
    -- `digest` is hashScope.
    unfoldable pub open_disk : Bool → (Bytes → Bytes) → Bytes → ℕ → ℕ → Option ScopeUpgrade → M Disk
    open_disk prepared digest scope max_bytes max_items u =
        if length scope == 0
          || ltb max_bytes 32768
          || ltb max_items 1
          || ltb 1024 max_items
          || not prepared
        then raise conflict
        else (do
          entries ← list_entries
          m ← load_manifest c k env (holds_only_lock entries) (digest scope) u
          again ← list_entries
          x ← scan (is_upgrade u) m.next again (start (is_upgrade u) max_items)
          opened m max_bytes max_items x)

    -- `OpenDisk`
    abbrev pub open_legacy : Bool → (Bytes → Bytes) → Bytes → ℕ → ℕ → M Disk
    open_legacy prepared digest scope max_bytes max_items =
        open_disk prepared digest scope max_bytes max_items none

    -- `openScopedDisk`; no upgrade is given if `Scope.Hash` fails.
    unfoldable pub open_scoped : Bool → (Bytes → Bytes) → Option ScopeUpgrade → ℕ → ℕ → M Disk
    open_scoped prepared digest none max_bytes max_items = raise conflict
    open_scoped prepared digest (some u) max_bytes max_items =
        open_disk prepared digest u.hash max_bytes max_items (some u)
