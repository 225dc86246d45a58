-- ===== src/Queue/Migration.antt =====
-- internal/queue/migration_linux.go: the loading of the manifest of the metrics spool, and its
-- migration to a scope of version 2. The hooks, which only tests set, are left out.
pub mod Retained
pub mod Gives
pub mod Copies
pub mod Scoped
pub mod Loaded
pub mod Tests
use observe_agent.Base.{
  ℕ, String, Bool, true, false, not, ◌&&◌, ◌||◌, Option, none, some, ltb, ◌==◌, if◌then◌else◌,
  Bytes, bytes_eq, text_append,
}
use observe_agent.Queue.Files.{
  Name, control, pending, manifest, backup, Faults, conflict, M, ◌>>=◌, ◌>>◌, Answer, got, refused,
  ask, give, raise, create, install, stat, sync_dir, rename, remove, read,
}
use observe_agent.Queue.Codec.{Codec}
use observe_agent.Queue.Disk.{save_manifest}
use observe_agent.Queue.Logs.Open.{is_missing}

-- `diskManifest`
pub record Manifest : Type 0 where
  pub version : ℕ
  pub scope : Bytes
  pub next : ℕ

-- `migration`
pub record Migration : Type 0 where
  pub version : ℕ
  pub old_scope : Bytes
  pub new_scope : Bytes
  pub next : ℕ

-- `scopeUpgrade`
pub record ScopeUpgrade : Type 0 where
  pub hash : Bytes
  pub legacy : Bytes

-- json.Marshal and json.Unmarshal of a `migration`, and `scopeHashValid`, which is
-- hex.DecodeString with a test of the length.
pub record ControlCodec : Type 0 where
  pub encode_migration : Migration → Bytes
  pub parse_migration : Bytes → Option Migration
  pub scope_hash_valid : Bytes → Bool

abbrev pub journal : Name
journal = control "migration.json"

-- The limit of the reads of control files.
abbrev pub max_control : ℕ
max_control = 4096

-- The name of the stage of a control file.
abbrev pub stage : String → Name
stage s = control (text_append s ".next")

abbrev pub same_manifest : Manifest → Manifest → Bool
same_manifest m o = m.version == o.version && bytes_eq m.scope o.scope && m.next == o.next

module _ (c : Codec) (k : ControlCodec) where
  abbrev pub manifest_of : Option (ℕ × Bytes × ℕ) → Option Manifest
  manifest_of none = none
  manifest_of (some (v, s, n)) = some (record { version = v; scope = s; next = n })

  abbrev pub encoded : Manifest → Bytes
  encoded m = c.encode_manifest m.version m.scope m.next

  -- json.Unmarshal into a `diskManifest`.
  abbrev pub parsed : Bytes → Option Manifest
  parsed b = manifest_of (c.decode_manifest b)

  abbrev pub if_valid : Option Manifest → Option Manifest
  if_valid none = none
  if_valid (some m) =
      if ltb 0 m.next && (m.version == 1 || m.version == 2) && k.scope_hash_valid m.scope
      then some m
      else none

  -- The manifest, if `manifestValid` holds.
  unfoldable pub manifest_valid : Bytes → Option Manifest
  manifest_valid b = if_valid (parsed b)

  module _ (env : Faults) where
    -- `scopeWrite` from the read of the stage on: only the same bytes are resumed.
    unfoldable pub scope_place : String → Bytes → Answer Bytes → M (Unit {0})
    scope_place s b (refused e) =
        if is_missing e
        then (do create env (stage s); install env (stage s) (control s) b)
        else raise e
    scope_place s b (got staged) =
        if bytes_eq staged b
        then (do rename env (stage s) (control s); sync_dir env)
        else raise conflict

    -- `scopeWrite`
    unfoldable pub scope_write : String → Bytes → M (Unit {0})
    scope_write s b = ask (read env (stage s) max_control) >>= scope_place s b

    -- `finishMigration`
    unfoldable pub finish_migration : Migration → M Manifest
    finish_migration tx = do
      scope_write "manifest.backup" (c.encode_manifest 2 tx.new_scope tx.next)
      scope_write "manifest.json" (c.encode_manifest 2 tx.new_scope tx.next)
      remove env journal
      sync_dir env
      give (record { version = 2; scope = tx.new_scope; next = tx.next })

    -- Whether a manifest fits the journal.
    abbrev pub fits : Migration → Manifest → Bool
    fits tx m =
        m.next == tx.next
        && ((m.version == 1 && bytes_eq m.scope tx.old_scope)
            || (m.version == 2 && bytes_eq m.scope tx.new_scope))

    -- The check of one control copy: whether it counts as valid.
    unfoldable pub check_copy : Migration → Option Manifest → M Bool
    check_copy tx none = give false
    check_copy tx (some m) = if fits tx m then give true else raise conflict

    unfoldable pub control_copy : Migration → Answer Bytes → M Bool
    control_copy tx (refused e) = raise conflict
    control_copy tx (got b) = check_copy tx (manifest_valid b)

    -- A migration that was cut is resumed, if a control copy confirms its journal.
    unfoldable pub resume : Migration → M Manifest
    resume tx = do
      main ← ask (read env manifest max_control)
      x ← control_copy tx main
      second ← ask (read env backup max_control)
      y ← control_copy tx second
      if x || y then finish_migration tx else raise conflict

    abbrev pub bad_journal : ScopeUpgrade → Migration → Bool
    bad_journal u tx =
        not (tx.version == 2)
        || tx.next == 0
        || not (k.scope_hash_valid tx.old_scope)
        || not (bytes_eq tx.new_scope u.hash)

    unfoldable pub journaled : Option ScopeUpgrade → Bytes → M Manifest
    journaled none raw = raise conflict
    journaled (some u) raw = elim (k.parse_migration raw) [
      | none ↦ raise conflict
      | some tx ↦ if bad_journal u tx then raise conflict else resume tx
    ]

    -- Without control files: a new spool, if the directory holds only the lock.
    unfoldable pub fresh : Bool → Bytes → Option ScopeUpgrade → M Manifest
    fresh only_lock legacy u =
        let m : Manifest = elim u [
          | none ↦ record { version = 1; scope = legacy; next = 1 }
          | some x ↦ record { version = 2; scope = x.hash; next = 1 }
        ] in
        if only_lock
        then (do save_manifest c env m.version m.scope m.next; give m)
        else raise conflict

    abbrev pub migration_to : ScopeUpgrade → Manifest → Migration
    migration_to u m = record {
      version = 2;
      old_scope = m.scope;
      new_scope = u.hash;
      next = m.next;
    }

    -- The migration of a manifest of version 1, by what the backup holds.
    unfoldable pub migrate : ScopeUpgrade → Manifest → Answer Bytes → M Manifest
    migrate u m (refused e) = raise conflict
    migrate u m (got b) = elim (parsed b) [
      | none ↦ raise conflict
      | some other ↦
          if same_manifest other m
          then (do
            scope_write "migration.json" (k.encode_migration (migration_to u m))
            finish_migration (migration_to u m))
          else raise conflict
    ]

    -- A valid manifest is used, refused or migrated, by its scope.
    unfoldable pub scoped : Bytes → Option ScopeUpgrade → Manifest → M Manifest
    scoped legacy none m =
        if not (m.version == 1) || not (bytes_eq m.scope legacy) then raise conflict else give m
    scoped legacy (some u) m =
        if m.version == 2
        then (if bytes_eq m.scope u.hash then give m else raise conflict)
        else if not (bytes_eq m.scope u.legacy)
        then raise conflict
        else ask (read env backup max_control) >>= migrate u m

    -- The manifest file, or the backup if it cannot be read or parsed.
    unfoldable pub or_backup : Answer Bytes → M (Answer Bytes)
    or_backup (refused e) = ask (read env backup max_control)
    or_backup (got raw) = elim (parsed raw) [
      | none ↦ ask (read env backup max_control)
      | some _ ↦ give (got raw)
    ]

    unfoldable pub from_copy : Bool → Bytes → Option ScopeUpgrade → Answer Bytes → M Manifest
    from_copy only_lock legacy u (refused e) =
        if is_missing e then fresh only_lock legacy u else raise e
    from_copy only_lock legacy u (got raw) = elim (manifest_valid raw) [
      | none ↦ raise conflict
      | some m ↦ scoped legacy u m
    ]

    -- `loadManifest` from the read of the journal on.
    unfoldable pub by_journal : Bool → Bytes → Option ScopeUpgrade → Answer Bytes → M Manifest
    by_journal only_lock legacy u (got raw) = journaled u raw
    by_journal only_lock legacy u (refused e) =
        if is_missing e
        then (do
          main ← ask (read env manifest max_control)
          raw ← or_backup main
          from_copy only_lock legacy u raw)
        else raise conflict

    -- An upgrade refuses a pending file; os.Lstat finds it.
    unfoldable pub absent_pending : Answer ℕ → M (Unit {0})
    absent_pending (got n) = raise conflict
    absent_pending (refused e) = if is_missing e then give tt else raise e

    unfoldable pub no_pending : Option ScopeUpgrade → M (Unit {0})
    no_pending none = give tt
    no_pending (some u) = ask (stat env pending) >>= absent_pending

    -- `loadManifest`; `only_lock` says whether the directory holds nothing but the lock.
    unfoldable pub load_manifest : Bool → Bytes → Option ScopeUpgrade → M Manifest
    load_manifest only_lock legacy u = do
      no_pending u
      j ← ask (read env journal max_control)
      by_journal only_lock legacy u j
