-- ===== src/Queue/Migration/Copies.antt =====
-- internal/queue/migration_linux.go: what the reads of the control copies give.
use observe_agent.Queue.Migration.Gives.{
  Any, Gives, anything, Gives-give, Gives-raise, Gives-if, Gives-pure,
}
use observe_agent.Base.{
  ℕ, ◌≡◌, refl, sym, ap, ◌∙◌, ◌⊎◌, inl, inr, Bool, true, false, ◌&&◌, ◌||◌, Option, none, some,
  arith, ◌==◌, &&-parts, Bytes, bytes_eq,
}
use observe_agent.Queue.Files.{
  sync_dir, remove, Name, manifest, backup, File, Files, Dir, Faults, Io, ok, err, crashed, M,
  conflict, Answer, got, refused, ask, give, read, perform, unchanged,
}
use observe_agent.Queue.Files.Logic.{Triple-weaken, Assertion, Ensures, Triple-bind}
use observe_agent.Queue.Files.Steps.{IsDurable, Has}
use observe_agent.Queue.Files.Keeps.{Keeps, Keeps-both, Both, look-Keeps}
use observe_agent.Queue.Codec.{Codec}
use observe_agent.Queue.Logs.Looked.{Read, ask-read-Triple}
use observe_agent.Queue.Migration.{
  journal, Manifest, Migration, ControlCodec, max_control, parsed, manifest_valid, scope_write,
  finish_migration, fits, check_copy, control_copy, resume, or_backup,
}

-- The file is a valid manifest with this next sequence number.
abbrev pub HasNext : Codec → ControlCodec → Option File → ℕ → Type 0
HasNext c k o n =
    (f : File) × (o ≡ some f)
    × ((m : Manifest) × (manifest_valid c k f.contents ≡ some m) × (m.next ≡ n))

abbrev pub Copies : Option File → Option File → Assertion
Copies om ob = Both (Has manifest om) (Has backup ob)

abbrev pub Sourced : Codec → ControlCodec → Option File → Option File → ℕ → Type 0
Sourced c k om ob n = HasNext c k om n ⊎ HasNext c k ob n

-- The bytes are those of one of the two copies.
abbrev pub FromCopy : Option File → Option File → Answer Bytes → Type 0
FromCopy om ob (got raw) = (f : File) × ((om ≡ some f) ⊎ (ob ≡ some f)) × (f.contents ≡ raw)
FromCopy om ob (refused e) = Unit {0}

abbrev pub migrated : Migration → Manifest
migrated tx = record { version = 2; scope = tx.new_scope; next = tx.next }

module _ (c : Codec) (k : ControlCodec) (env : Faults) (om ob : Option File) (dm : IsDurable om)
    (db : IsDurable ob) where
  pub look-Copies :
      {A : Type 0} (result : Files → Io A)
      → Keeps (Copies om ob) (perform env result unchanged unchanged)
  look-Copies result =
      Keeps-both (Has manifest om) (Has backup ob) (look-Keeps env manifest om dm result)
        (look-Keeps env backup ob db result)

  pub asked :
      (n : Name)
      → Gives (Copies om ob) (ask (read env n max_control)) (λ a d. (Copies om ob) d × Read n a d)
  asked n = record {
    at = λ d h.
        go (ask (read env n max_control) d).0 (ask (read env n max_control) d).1
          ((ask-read-Triple env (Copies om ob) n max_control (look-Copies _)).at d h);
  }
    where
      go :
          (r : Io (Answer Bytes)) (d : Dir)
          → Ensures (λ a d. (Copies om ob) d × Read n a d) (Copies om ob) (Copies om ob) r d
          → Ensures (λ a d. (Copies om ob) d × Read n a d) Any Any r d
      go (ok a) d h = h
      go (err e) d h = tt
      go crashed d h = tt

  pub finish_migration-Gives :
      (tx : Migration) → Gives Any (finish_migration c k env tx) (λ m _. m ≡ migrated tx)
  unfolding finish_migration
  finish_migration-Gives tx =
      let b = c.encode_manifest 2 tx.new_scope tx.next in
      Triple-bind (λ _. Any) (anything Any (scope_write c k env "manifest.backup" b))
        (λ _.
          Triple-bind (λ _. Any) (anything Any (scope_write c k env "manifest.json" b))
            (λ _.
              Triple-bind (λ _. Any) (anything Any (remove env journal))
                (λ _.
                  Triple-bind (λ _. Any) (anything Any (sync_dir env))
                    (λ _. Gives-give _ (λ d h. refl)))))

  -- What a finished migration gives, with a fact that was found before.
  pub finished :
      {P : Assertion} {Q : Manifest → Assertion} (tx : Migration)
      → ((m : Manifest) (d : Dir) → m ≡ migrated tx → Q m d)
      → Gives P (finish_migration c k env tx) Q
  finished {P} {Q} tx q =
      Triple-weaken (λ m _. m ≡ migrated tx) Q Any Any Any Any (λ d h. tt) (λ m d h. q m d h)
        (λ d h. tt) (λ d h. tt) (finish_migration-Gives tx)

  -- A copy counts only if it is valid and has the journal's sequence number.
  control_copy-Gives :
      (name : Name) (o : Option File) (tx : Migration) (a : Answer Bytes)
      → ((d : Dir) → (Copies om ob) d → d.files name ≡ o)
      → Gives
          (λ d. (Copies om ob) d × Read name a d)
          (control_copy c k env tx a)
          (λ x d. (Copies om ob) d × (x ≡ true → HasNext c k o tx.next))
  unfolding control_copy check_copy
  control_copy-Gives name o tx (refused e) at_o = Gives-raise _ _ conflict
  control_copy-Gives name o tx (got b) at_o = go (manifest_valid c k b) refl
    where
      go :
          (m : Option Manifest)
          → manifest_valid c k b ≡ m
          → Gives
              (λ d. (Copies om ob) d × Read name (got b) d)
              (check_copy c k env tx m)
              (λ x d. (Copies om ob) d × (x ≡ true → HasNext c k o tx.next))
      go none e = Gives-give false (λ d h. (h.0, λ x. cc))
      go (some m) e =
          Gives-if (fits c k env tx m)
            (λ t. Gives-give true (λ d h.
              let (f, found, contents) = h.1 in
              (
                h.0,
                λ x. (
                  f,
                  sym (at_o d h.0) ∙ found,
                  (m, ap (manifest_valid c k) contents ∙ e, equal_next t),
                ),
              )))
            (λ t. Gives-raise _ _ conflict)
        where
          equal_next : fits c k env tx m ≡ true → m.next ≡ tx.next
          equal_next t =
              let p =
                (&&-parts (m.next == tx.next)
                  ((m.version == 1 && bytes_eq m.scope tx.old_scope)
                    || (m.version == 2 && bytes_eq m.scope tx.new_scope))
                  t).0 in
              ground arith

  pub resume-Gives :
      (tx : Migration)
      → Gives
          (Copies om ob)
          (resume c k env tx)
          (λ m _. (m ≡ migrated tx) × Sourced c k om ob tx.next)
  unfolding resume
  resume-Gives tx =
      Triple-bind (λ a d. (Copies om ob) d × Read manifest a d) (asked manifest)
        (λ main.
          Triple-bind (λ x d. (Copies om ob) d × (x ≡ true → HasNext c k om tx.next))
            (control_copy-Gives manifest om tx main (λ d h. h.0))
            (λ x. Gives-pure (λ first.
              Triple-bind (λ a d. (Copies om ob) d × Read backup a d) (asked backup)
                (λ second.
                  Triple-bind (λ y d. (Copies om ob) d × (y ≡ true → HasNext c k ob tx.next))
                    (control_copy-Gives backup ob tx second (λ d h. h.1))
                    (λ y. Gives-pure (λ last.
                      Gives-if (x || y) (λ t. finished tx (λ m d e. (e, sourced x y first last t)))
                        (λ t. Gives-raise (Copies om ob) _ conflict)))))))
    where
      sourced :
          (x y : Bool)
          → (x ≡ true → HasNext c k om tx.next)
          → (y ≡ true → HasNext c k ob tx.next)
          → (x || y) ≡ true
          → Sourced c k om ob tx.next
      sourced true y first last t = inl (first refl)
      sourced false y first last t = inr (last t)

  from_backup :
      {P : Assertion}
      → ((d : Dir) → P d → (Copies om ob) d)
      → Gives P (ask (read env backup max_control)) (λ a d. (Copies om ob) d × FromCopy om ob a)
  from_backup p =
      Triple-weaken (λ a d. (Copies om ob) d × Read backup a d)
        (λ a d. (Copies om ob) d × FromCopy om ob a) Any Any Any Any p (λ a d h. (h.0, copy a d h))
        (λ d h. tt) (λ d h. tt) (asked backup)
    where
      copy : (a : Answer Bytes) (d : Dir) → (Copies om ob) d × Read backup a d → FromCopy om ob a
      copy (refused e) d h = tt
      copy (got raw) d h = let (f, found, contents) = h.1 in (f, inr (sym h.0.1 ∙ found), contents)

  pub or_backup-Gives :
      (a : Answer Bytes)
      → Gives
          (λ d. (Copies om ob) d × Read manifest a d)
          (or_backup c k env a)
          (λ b d. (Copies om ob) d × FromCopy om ob b)
  unfolding or_backup
  or_backup-Gives (refused e) = from_backup (λ d h. h.0)
  or_backup-Gives (got raw) = go (parsed c k raw)
    where
      go :
          (p : Option Manifest)
          → Gives
              (λ d. (Copies om ob) d × Read manifest (got raw) d)
              (elim p as (λ _. M (Answer Bytes)) [
                | none ↦ ask (read env backup max_control)
                | some _ ↦ give (got raw)
              ])
              (λ b d. (Copies om ob) d × FromCopy om ob b)
      go none = from_backup (λ d h. h.0)
      go (some m) =
          Gives-give (got raw)
            (λ d h. let (f, found, contents) = h.1 in (h.0, (f, inl (sym h.0.0 ∙ found), contents)))
