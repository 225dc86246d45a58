-- ===== src/Queue/Migration/Retained.antt =====
-- internal/queue/migration_linux.go: the loading and the migration leave the records alone.
use observe_agent.Base.{
  ℕ, String, Bool, true, false, not, ◌||◌, Option, none, some, ◌==◌, if◌then◌else◌, Bytes, bytes_eq,
}
use observe_agent.Queue.Files.{
  control, rec, backup, File, Files, Faults, M, conflict, ◌>>=◌, Answer, got, refused, ask, give,
  raise, read, perform, unchanged,
}
use observe_agent.Queue.Files.Laws.{control-rec}
use observe_agent.Queue.Files.Logic.{Assertion}
use observe_agent.Queue.Files.Steps.{IsDurable, Has}
use observe_agent.Queue.Files.Keeps.{
  Keeps, Keeps-bind, Keeps-ask, Keeps-give, Keeps-raise, Keeps-if, look-Keeps, create-Keeps,
  rename-Keeps, remove-Keeps, install-Keeps,
}
use observe_agent.Queue.Codec.{Codec}
use observe_agent.Queue.Disk.Put.{save_manifest-Triple}
use observe_agent.Queue.Logs.Open.{is_missing}
use observe_agent.Queue.Migration.{
  Manifest, Migration, ScopeUpgrade, ControlCodec, journal, stage, max_control, parsed,
  manifest_valid, scope_place, scope_write, finish_migration, fits, check_copy, control_copy,
  resume, bad_journal, journaled, fresh, migration_to, migrate, same_manifest, scoped, or_backup,
  from_copy, by_journal, absent_pending, no_pending, load_manifest,
}

module _ (c : Codec) (k : ControlCodec) (env : Faults) (n : ℕ) (o : Option File)
    (durable : IsDurable o) where
  abbrev Record : Assertion
  Record = Has (rec n) o

  abbrev Stays : {A : Type 0} → M A → Type 0
  Stays m = Keeps Record m

  look :
      {A : Type 0} (result : Files → observe_agent.Queue.Files.Io A)
      → Stays (perform env result unchanged unchanged)
  look result = look-Keeps env (rec n) o durable result

  scope_place-Stays :
      (s : String) (b : Bytes) (a : Answer Bytes) → Stays (scope_place c k env s b a)
  unfolding scope_place
  scope_place-Stays s b (refused e) =
      Keeps-if Record (is_missing e)
        (Keeps-bind Record (create-Keeps env (rec n) o durable (stage s) (control-rec _ n)) (λ _.
          install-Keeps env (rec n) o durable (stage s) (control-rec _ n) (control s) b
            (control-rec s n)))
        (Keeps-raise Record e)
  scope_place-Stays s b (got staged) =
      Keeps-if Record (bytes_eq staged b)
        (Keeps-bind Record
          (rename-Keeps env (rec n) o durable (stage s) (control-rec _ n) (control s)
            (control-rec s n))
          (λ _. look _))
        (Keeps-raise Record conflict)

  scope_write-Stays : (s : String) (b : Bytes) → Stays (scope_write c k env s b)
  unfolding scope_write
  scope_write-Stays s b =
      Keeps-bind Record (Keeps-ask Record (look _)) (λ a. scope_place-Stays s b a)

  finish_migration-Stays : (tx : Migration) → Stays (finish_migration c k env tx)
  unfolding finish_migration
  finish_migration-Stays tx = Keeps-bind Record (scope_write-Stays _ _) (λ _.
      Keeps-bind Record (scope_write-Stays _ _) (λ _.
        Keeps-bind Record (remove-Keeps env (rec n) o durable journal (control-rec _ n))
          (λ _. Keeps-bind Record (look _) (λ _. Keeps-give Record _))))

  control_copy-Stays : (tx : Migration) (a : Answer Bytes) → Stays (control_copy c k env tx a)
  unfolding control_copy check_copy
  control_copy-Stays tx (refused e) = Keeps-raise Record conflict
  control_copy-Stays tx (got b) = go (manifest_valid c k b)
    where
      go : (m : Option Manifest) → Stays (check_copy c k env tx m)
      go none = Keeps-give Record false
      go (some m) =
          Keeps-if Record (fits c k env tx m) (Keeps-give Record true) (Keeps-raise Record conflict)

  resume-Stays : (tx : Migration) → Stays (resume c k env tx)
  unfolding resume
  resume-Stays tx = Keeps-bind Record (Keeps-ask Record (look _)) (λ main.
      Keeps-bind Record (control_copy-Stays tx main) (λ x.
        Keeps-bind Record (Keeps-ask Record (look _)) (λ second.
          Keeps-bind Record (control_copy-Stays tx second) (λ y.
            Keeps-if Record (x || y) (finish_migration-Stays tx) (Keeps-raise Record conflict)))))

  journaled-Stays : (u : Option ScopeUpgrade) (raw : Bytes) → Stays (journaled c k env u raw)
  unfolding journaled
  journaled-Stays none raw = Keeps-raise Record conflict
  journaled-Stays (some u) raw = go (k.parse_migration raw)
    where
      go :
          (t : Option Migration)
          → Stays (elim t as (λ _. M Manifest) [
            | none ↦ raise conflict
            | some tx ↦ if bad_journal c k env u tx then raise conflict else resume c k env tx
          ])
      go none = Keeps-raise Record conflict
      go (some tx) =
          Keeps-if Record (bad_journal c k env u tx) (Keeps-raise Record conflict) (resume-Stays tx)

  fresh-Stays :
      (only_lock : Bool) (legacy : Bytes) (u : Option ScopeUpgrade)
      → Stays (fresh c k env only_lock legacy u)
  unfolding fresh
  fresh-Stays only_lock legacy u =
      Keeps-if Record only_lock
        (Keeps-bind Record
          (save_manifest-Triple env (rec n) o durable (control-rec _ n) c _ _ _ (control-rec _ n)
            (control-rec _ n))
          (λ _. Keeps-give Record _))
        (Keeps-raise Record conflict)

  migrate-Stays :
      (u : ScopeUpgrade) (m : Manifest) (a : Answer Bytes) → Stays (migrate c k env u m a)
  unfolding migrate
  migrate-Stays u m (refused e) = Keeps-raise Record conflict
  migrate-Stays u m (got b) = go (parsed c k b)
    where
      go :
          (p : Option Manifest)
          → Stays (elim p as (λ _. M Manifest) [
            | none ↦ raise conflict
            | some other ↦
                if same_manifest other m
                then (scope_write c k env "migration.json"
                      (k.encode_migration (migration_to c k env u m))
                    >>= λ _. finish_migration c k env (migration_to c k env u m))
                else raise conflict
          ])
      go none = Keeps-raise Record conflict
      go (some other) =
          Keeps-if Record (same_manifest other m)
            (Keeps-bind Record (scope_write-Stays _ _) (λ _. finish_migration-Stays _))
            (Keeps-raise Record conflict)

  scoped-Stays :
      (legacy : Bytes) (u : Option ScopeUpgrade) (m : Manifest) → Stays (scoped c k env legacy u m)
  unfolding scoped
  scoped-Stays legacy none m =
      Keeps-if Record (not (m.version == 1) || not (bytes_eq m.scope legacy))
        (Keeps-raise Record conflict) (Keeps-give Record m)
  scoped-Stays legacy (some u) m =
      Keeps-if Record (m.version == 2)
        (Keeps-if Record (bytes_eq m.scope u.hash) (Keeps-give Record m)
          (Keeps-raise Record conflict))
        (Keeps-if Record (not (bytes_eq m.scope u.legacy)) (Keeps-raise Record conflict)
          (Keeps-bind Record (Keeps-ask Record (look _)) (λ a. migrate-Stays u m a)))

  or_backup-Stays : (a : Answer Bytes) → Stays (or_backup c k env a)
  unfolding or_backup
  or_backup-Stays (refused e) = Keeps-ask Record (look _)
  or_backup-Stays (got raw) = go (parsed c k raw)
    where
      go :
          (p : Option Manifest)
          → Stays (elim p as (λ _. M (Answer Bytes)) [
            | none ↦ ask (read env backup max_control)
            | some _ ↦ give (got raw)
          ])
      go none = Keeps-ask Record (look _)
      go (some m) = Keeps-give Record (got raw)

  from_copy-Stays :
      (only_lock : Bool) (legacy : Bytes) (u : Option ScopeUpgrade) (a : Answer Bytes)
      → Stays (from_copy c k env only_lock legacy u a)
  unfolding from_copy
  from_copy-Stays only_lock legacy u (refused e) =
      Keeps-if Record (is_missing e) (fresh-Stays only_lock legacy u) (Keeps-raise Record e)
  from_copy-Stays only_lock legacy u (got raw) = go (manifest_valid c k raw)
    where
      go :
          (m : Option Manifest)
          → Stays (elim m as (λ _. M Manifest) [
            | none ↦ raise conflict
            | some x ↦ scoped c k env legacy u x
          ])
      go none = Keeps-raise Record conflict
      go (some m) = scoped-Stays legacy u m

  by_journal-Stays :
      (only_lock : Bool) (legacy : Bytes) (u : Option ScopeUpgrade) (a : Answer Bytes)
      → Stays (by_journal c k env only_lock legacy u a)
  unfolding by_journal
  by_journal-Stays only_lock legacy u (got raw) = journaled-Stays u raw
  by_journal-Stays only_lock legacy u (refused e) =
      Keeps-if Record (is_missing e)
        (Keeps-bind Record (Keeps-ask Record (look _)) (λ main.
          Keeps-bind Record (or_backup-Stays main) (λ a. from_copy-Stays only_lock legacy u a)))
        (Keeps-raise Record conflict)

  absent_pending-Stays : (a : Answer ℕ) → Stays (absent_pending c k env a)
  unfolding absent_pending
  absent_pending-Stays (got m) = Keeps-raise Record conflict
  absent_pending-Stays (refused e) =
      Keeps-if Record (is_missing e) (Keeps-give Record tt) (Keeps-raise Record e)

  no_pending-Stays : (u : Option ScopeUpgrade) → Stays (no_pending c k env u)
  unfolding no_pending
  no_pending-Stays none = Keeps-give Record tt
  no_pending-Stays (some u) =
      Keeps-bind Record (Keeps-ask Record (look _)) (λ a. absent_pending-Stays a)

  pub load_manifest-Stays :
      (only_lock : Bool) (legacy : Bytes) (u : Option ScopeUpgrade)
      → Stays (load_manifest c k env only_lock legacy u)
  unfolding load_manifest
  load_manifest-Stays only_lock legacy u = Keeps-bind Record (no_pending-Stays u) (λ _.
      Keeps-bind Record (Keeps-ask Record (look _)) (λ a. by_journal-Stays only_lock legacy u a))
