-- ===== src/Queue/Migration/Scoped.antt =====
-- internal/queue/migration_linux.go: what `loadManifest` gives without a journal.
use observe_agent.Queue.Migration.Gives.{
  Any, Gives, anything, Gives-give, Gives-raise, Gives-if, Gives-pure,
}
use observe_agent.Queue.Migration.Copies.{HasNext, Copies, Sourced, FromCopy, migrated, finished}
use observe_agent.Base.{
  bytes_eq→≡, ℕ, ◌≡◌, refl, sym, ap, ◌∙◌, subst, ◌⊎◌, inl, inr, Bool, true, false, not, ◌||◌,
  Option, none, some, arith, ◌==◌, if◌then◌else◌, Bytes, bytes_eq, ||-parts,
}
use observe_agent.Queue.Files.{
  backup, File, Faults, M, conflict, ◌>>=◌, Answer, got, refused, ask, raise, read,
}
use observe_agent.Queue.Files.Logic.{Triple-weaken, Assertion, Triple-bind}
use observe_agent.Queue.Files.Steps.{IsDurable}
use observe_agent.Queue.Codec.{Codec}
use observe_agent.Queue.Logs.Open.{is_missing}
use observe_agent.Queue.Migration.{
  save_manifest, Manifest, ScopeUpgrade, ControlCodec, max_control, parsed, manifest_valid,
  scope_write, finish_migration, fresh, migration_to, migrate, same_manifest, scoped, from_copy,
}

-- The manifest is of the version and the scope that were asked for.
abbrev pub IsScoped : Bytes → Option ScopeUpgrade → Manifest → Type 0
IsScoped legacy none m = (m.version ≡ 1) × (m.scope ≡ legacy)
IsScoped legacy (some u) m = (m.version ≡ 2) × (m.scope ≡ u.hash)

-- What `loadManifest` returns, over control files `om` and `ob`.
pub record Loaded (c : Codec) (k : ControlCodec) (only_lock : Bool) (legacy : Bytes)
    (u : Option ScopeUpgrade) (om ob : Option File) (m : Manifest) : Type 0 where
  pub scope : IsScoped legacy u m
  pub sequence :
      (HasNext c k om m.next ⊎ HasNext c k ob m.next) ⊎ ((m.next ≡ 1) × (only_lock ≡ true))

module _ (c : Codec) (k : ControlCodec) (env : Faults) (om ob : Option File) (dm : IsDurable om)
    (db : IsDurable ob) (only_lock : Bool) (legacy : Bytes) (u : Option ScopeUpgrade) where
  abbrev first_manifest : ℕ → Bytes → Manifest
  first_manifest v x = record { version = v; scope = x; next = 1 }

  abbrev IsLoaded : Manifest → Assertion
  IsLoaded m d = Loaded c k only_lock legacy u om ob m

  fresh-Gives : Gives Any (fresh c k env only_lock legacy u) IsLoaded
  unfolding fresh
  fresh-Gives = go only_lock u refl refl
    where
      go :
          (b : Bool) (x : Option ScopeUpgrade)
          → only_lock ≡ b
          → u ≡ x
          → Gives Any (fresh c k env b legacy x) IsLoaded
      go false x e h = Gives-raise Any IsLoaded conflict
      go true none e h =
          Triple-bind (λ _. Any) (anything Any (save_manifest c env 1 legacy 1))
            (λ _. Gives-give _ (λ d _. record {
              scope = subst (λ v. IsScoped legacy v (first_manifest 1 legacy)) (sym h) (refl, refl);
              sequence = inr (refl, e);
            }))
      go true (some v) e h =
          Triple-bind (λ _. Any) (anything Any (save_manifest c env 2 v.hash 1))
            (λ _. Gives-give _ (λ d _. record {
              scope =
                  subst (λ v'. IsScoped legacy v' (first_manifest 2 v.hash)) (sym h) (refl, refl);
              sequence = inr (refl, e);
            }))

  -- What is given of a valid manifest `m` of one of the copies.
  migrate-Gives :
      (v : ScopeUpgrade) (m : Manifest) (a : Answer Bytes)
      → u ≡ some v
      → Sourced c k om ob m.next
      → Gives Any (migrate c k env v m a) IsLoaded
  unfolding migrate
  migrate-Gives v m (refused e) h s = Gives-raise Any IsLoaded conflict
  migrate-Gives v m (got b) h s = go (parsed c k b)
    where
      go :
          (p : Option Manifest)
          → Gives Any
              (elim p as (λ _. M Manifest) [
                | none ↦ raise conflict
                | some other ↦
                    if same_manifest other m
                    then (scope_write c k env "migration.json"
                          (k.encode_migration (migration_to c k env v m))
                        >>= λ _. finish_migration c k env (migration_to c k env v m))
                    else raise conflict
              ])
              IsLoaded
      go none = Gives-raise Any IsLoaded conflict
      go (some other) =
          Gives-if (same_manifest other m)
            (λ _.
              Triple-bind (λ _. Any)
                (anything Any (
                  scope_write c k env "migration.json"
                    (k.encode_migration (migration_to c k env v m))))
                (λ _.
                  finished c k env om ob dm db (migration_to c k env v m) (λ x d e. loaded x e)))
            (λ _. Gives-raise Any IsLoaded conflict)
        where
          loaded :
              (x : Manifest)
              → x ≡ migrated (migration_to c k env v m)
              → Loaded c k only_lock legacy u om ob x
          loaded x e =
              subst (λ y. Loaded c k only_lock legacy u om ob y) (sym e)
                (record {
                  scope =
                      subst
                        (λ w.
                          IsScoped legacy w (record { version = 2; scope = v.hash; next = m.next }))
                        (sym h) (refl, refl);
                  sequence = inl s;
                })

  scoped-Gives :
      (m : Manifest)
      → Sourced c k om ob m.next
      → Gives (Copies om ob) (scoped c k env legacy u m) IsLoaded
  unfolding scoped
  scoped-Gives m s = go u refl
    where
      go :
          (x : Option ScopeUpgrade)
          → u ≡ x
          → Gives (Copies om ob) (scoped c k env legacy x m) IsLoaded
      go none h =
          Gives-if (not (m.version == 1) || not (bytes_eq m.scope legacy))
            (λ _. Gives-raise (Copies om ob) IsLoaded conflict)
            (λ t. Gives-give m (λ d _. record {
              scope =
                  subst (λ w. IsScoped legacy w m) (sym h)
                    (let p = ||-parts (not (m.version == 1)) (not (bytes_eq m.scope legacy)) t in
                      (ground arith, bytes_eq→≡ m.scope legacy (ground arith)));
              sequence = inl s;
            }))
      go (some v) h =
          Gives-if (m.version == 2)
            (λ t.
              Gives-if (bytes_eq m.scope v.hash)
                (λ b. Gives-give m (λ d _. record {
                  scope =
                      subst (λ w. IsScoped legacy w m) (sym h)
                        (ground arith, bytes_eq→≡ m.scope v.hash b);
                  sequence = inl s;
                }))
                (λ b. Gives-raise (Copies om ob) IsLoaded conflict))
            (λ t.
              Gives-if (not (bytes_eq m.scope v.legacy))
                (λ b. Gives-raise (Copies om ob) IsLoaded conflict)
                (λ b.
                  Triple-bind (λ _. Any)
                    (anything (Copies om ob) (ask (read env backup max_control)))
                    (λ a. migrate-Gives v m a h s)))

  pub from_copy-Gives :
      (a : Answer Bytes)
      → Gives
          (λ d. (Copies om ob) d × FromCopy om ob a)
          (from_copy c k env only_lock legacy u a)
          IsLoaded
  unfolding from_copy
  from_copy-Gives (refused e) =
      Gives-if (is_missing e)
        (λ _.
          Triple-weaken IsLoaded IsLoaded Any Any Any Any (λ d h. tt) (λ m d h. h) (λ d h. tt)
            (λ d h. tt) fresh-Gives)
        (λ _. Gives-raise _ IsLoaded e)
  from_copy-Gives (got raw) = Gives-pure (λ source. go source (manifest_valid c k raw) refl)
    where
      next_of :
          FromCopy om ob (got raw)
          → (m : Manifest) → manifest_valid c k raw ≡ some m
          → Sourced c k om ob m.next
      next_of (f, inl o, contents) m e = inl (f, o, (m, ap (manifest_valid c k) contents ∙ e, refl))
      next_of (f, inr o, contents) m e = inr (f, o, (m, ap (manifest_valid c k) contents ∙ e, refl))

      go :
          FromCopy om ob (got raw)
          → (m : Option Manifest) → manifest_valid c k raw ≡ m
          → Gives
              (Copies om ob)
              (elim m as (λ _. M Manifest) [
                | none ↦ raise conflict
                | some x ↦ scoped c k env legacy u x
              ])
              IsLoaded
      go source none e = Gives-raise (Copies om ob) IsLoaded conflict
      go source (some m) e = scoped-Gives m (next_of source m e)
