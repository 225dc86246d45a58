-- ===== src/Queue/Migration/Loaded.antt =====
-- internal/queue/migration_linux.go, `loadManifest`: what a manifest that it returns is.
use observe_agent.Queue.Migration.Scoped.{IsScoped, Loaded, from_copy-Gives}
use observe_agent.Queue.Migration.Gives.{Any, Gives, Gives-raise, Gives-if}
use observe_agent.Queue.Migration.Copies.{
  Copies, Sourced, FromCopy, migrated, look-Copies, asked, resume-Gives, or_backup-Gives,
}
use observe_agent.Queue.Migration.Retained.{load_manifest-Stays}
use observe_agent.Base.{
  bytes_eq→≡, ℕ, ◌≡◌, refl, sym, subst, inl, Bool, false, not, Option, none, some, arith, ◌==◌,
  if◌then◌else◌, Bytes, bytes_eq, ||-parts4,
}
use observe_agent.Queue.Files.{
  rec, manifest, backup, File, Dir, Faults, Io, ok, err, crashed, M, conflict, Answer, got, refused,
  raise,
}
use observe_agent.Queue.Files.Logic.{Triple-weaken, Assertion, Ensures, Triple-bind}
use observe_agent.Queue.Files.Steps.{IsDurable, Has}
use observe_agent.Queue.Files.Keeps.{
  Keeps-bind, Keeps-if, Keeps-raise, Keeps-give, Keeps-ask, Keeps, Keeps-after,
}
use observe_agent.Queue.Codec.{Codec}
use observe_agent.Queue.Logs.Open.{is_missing}
use observe_agent.Queue.Logs.Looked.{Read}
use observe_agent.Queue.Migration.{
  absent_pending, Manifest, Migration, ScopeUpgrade, ControlCodec, resume, bad_journal, journaled,
  by_journal, no_pending, load_manifest,
}

module _ (c : Codec) (k : ControlCodec) (env : Faults) (om ob : Option File) (dm : IsDurable om)
    (db : IsDurable ob) (only_lock : Bool) (legacy : Bytes) (u : Option ScopeUpgrade) where
  abbrev IsLoaded : Manifest → Assertion
  IsLoaded m d = Loaded c k only_lock legacy u om ob m

  journaled-Gives : (raw : Bytes) → Gives (Copies om ob) (journaled c k env u raw) IsLoaded
  unfolding journaled
  journaled-Gives raw = go u refl
    where
      go :
          (x : Option ScopeUpgrade)
          → u ≡ x
          → Gives (Copies om ob) (journaled c k env x raw) IsLoaded
      go none h = Gives-raise (Copies om ob) IsLoaded conflict
      go (some v) h = resumed (k.parse_migration raw)
        where
          loaded :
              (tx : Migration)
              → bad_journal c k env v tx ≡ false
              → (m : Manifest) → (m ≡ migrated tx) × Sourced c k om ob tx.next
              → Loaded c k only_lock legacy u om ob m
          loaded tx t m (e, s) =
              let checks =
                ||-parts4 (not (tx.version == 2)) (tx.next == 0)
                  (not (k.scope_hash_valid tx.old_scope)) (not (bytes_eq tx.new_scope v.hash)) t in
              let same = bytes_eq→≡ tx.new_scope v.hash (ground arith) in
              subst (λ y. Loaded c k only_lock legacy u om ob y) (sym e)
                (record {
                  scope =
                      subst
                        (λ w.
                          IsScoped legacy w
                            (record { version = 2; scope = tx.new_scope; next = tx.next }))
                        (sym h) (refl, same);
                  sequence = inl s;
                })

          resumed :
              (p : Option Migration)
              → Gives
                  (Copies om ob)
                  (elim p as (λ _. M Manifest) [
                    | none ↦ raise conflict
                    | some tx ↦
                        if bad_journal c k env v tx then raise conflict else resume c k env tx
                  ])
                  IsLoaded
          resumed none = Gives-raise (Copies om ob) IsLoaded conflict
          resumed (some tx) =
              Gives-if (bad_journal c k env v tx)
                (λ t. Gives-raise (Copies om ob) IsLoaded conflict)
                (λ t.
                  Triple-weaken (λ m _. (m ≡ migrated tx) × Sourced c k om ob tx.next) IsLoaded Any
                    Any Any Any (λ d h'. h') (λ m d h'. loaded tx t m h') (λ d h'. tt) (λ d h'. tt)
                    (resume-Gives c k env om ob dm db tx))

  by_journal-Gives :
      (a : Answer Bytes) → Gives (Copies om ob) (by_journal c k env only_lock legacy u a) IsLoaded
  unfolding by_journal
  by_journal-Gives (got raw) = journaled-Gives raw
  by_journal-Gives (refused e) =
      Gives-if (is_missing e)
        (λ _.
          Triple-bind (λ a d. (Copies om ob) d × Read manifest a d)
            (asked c k env om ob dm db manifest)
            (λ main.
              Triple-bind (λ a d. (Copies om ob) d × FromCopy om ob a)
                (or_backup-Gives c k env om ob dm db main)
                (λ a. from_copy-Gives c k env om ob dm db only_lock legacy u a)))
        (λ _. Gives-raise (Copies om ob) IsLoaded conflict)

  -- A look that gives back the copies.
  looked :
      {A : Type 0} {m : M A} → Keeps (Copies om ob) m → Gives (Copies om ob) m (λ _. (Copies om ob))
  looked {m = m} t =
      Triple-weaken (λ _. (Copies om ob)) (λ _. (Copies om ob)) (Copies om ob) Any (Copies om ob)
        Any (λ d h. h) (λ a d h. h) (λ d h. tt) (λ d h. tt) t

  no_pending-Copies : (x : Option ScopeUpgrade) → Keeps (Copies om ob) (no_pending c k env x)
  unfolding no_pending
  no_pending-Copies none = Keeps-give (Copies om ob) tt
  no_pending-Copies (some v) =
      Keeps-bind (Copies om ob) (Keeps-ask (Copies om ob) (look-Copies c k env om ob dm db _))
        (λ a. absent a)
    where
      absent : (a : Answer ℕ) → Keeps (Copies om ob) (absent_pending c k env a)
      absent (got n) = unfold absent_pending in Keeps-raise (Copies om ob) conflict
      absent (refused e) =
          unfold absent_pending in
          Keeps-if (Copies om ob) (is_missing e) (Keeps-give (Copies om ob) tt)
            (Keeps-raise (Copies om ob) e)

  load_manifest-Gives : Gives (Copies om ob) (load_manifest c k env only_lock legacy u) IsLoaded
  unfolding load_manifest
  load_manifest-Gives =
      Triple-bind (λ _. (Copies om ob)) (looked (no_pending-Copies u))
        (λ _.
          Triple-bind (λ _. (Copies om ob))
            (looked (Keeps-ask (Copies om ob) (look-Copies c k env om ob dm db _)))
            (λ a. by_journal-Gives a))

-- If the two control copies and the file of a record are synced, then `loadManifest` leaves that
-- record as it is on every outcome, a crash in the middle of a migration included; and a manifest
-- that it returns is of the asked version and scope, and its next sequence number is that of a
-- valid control copy, or 1 in a directory that held only the lock.
pub load_manifest-Loaded :
    (c : Codec) (k : ControlCodec) (env : Faults) (only_lock : Bool) (legacy : Bytes)
    (u : Option ScopeUpgrade) (d : Dir) (n : ℕ)
    → IsDurable (d.files (rec n))
    → IsDurable (d.files manifest)
    → IsDurable (d.files backup)
    → ((load_manifest c k env only_lock legacy u d).1.files (rec n) ≡ d.files (rec n))
      × ((m : Manifest)
          → (load_manifest c k env only_lock legacy u d).0 ≡ ok m
          → Loaded c k only_lock legacy u (d.files manifest) (d.files backup) m)
load_manifest-Loaded c k env only_lock legacy u d n dr dm db = (
  Keeps-after (Has (rec n) (d.files (rec n)))
      (load_manifest-Stays c k env n (d.files (rec n)) dr only_lock legacy u) d refl,
  λ m e.
      result (load_manifest c k env only_lock legacy u d).0
        (load_manifest c k env only_lock legacy u d).1 m e
        ((load_manifest-Gives c k env (d.files manifest) (d.files backup) dm db only_lock legacy
            u).at
          d (refl, refl)),
)
  where
    result :
        (r : Io Manifest) (d' : Dir) (m : Manifest)
        → r ≡ ok m
        → Ensures
            (λ x _. Loaded c k only_lock legacy u (d.files manifest) (d.files backup) x)
            Any
            Any
            r
            d'
        → Loaded c k only_lock legacy u (d.files manifest) (d.files backup) m
    result (ok x) d' m e h =
        let same : x ≡ m = cc in
        subst (λ y. Loaded c k only_lock legacy u (d.files manifest) (d.files backup) y) same h
    result (err x) d' m e h = cc
    result crashed d' m e h = cc
