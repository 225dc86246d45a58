-- ===== src/Queue/Disk/Accept.antt =====
-- internal/queue/disk_linux.go, `Put`: what it leaves in the directory, and what it returns.
use observe_agent.Base.{
  ℕ, ◌+◌, ◌≡◌, ◌≢◌, refl, ◌∙◌, Bool, true, false, not, ◌||◌, ◌&&◌, Option, some, none, ◌⊎◌, inl,
  inr, [], ◌∷◌, ◌++◌, Bytes, arith, Bool-cases, Option-cases, length, ltb, leb, ◌==◌, ◌≤◌, ◌<◌,
}
use observe_agent.Queue.Files.{Name, rec, pending, manifest, backup, name_eq, File, Faults}
use observe_agent.Queue.Files.Laws.{control-rec, name_eq_refl}
use observe_agent.Queue.Files.Steps.{IsDurable, settled_file}
use observe_agent.Queue.Codec.{Codec}
use observe_agent.Queue.Disk.{Disk, done, admit, put, charge, record_of, max_payload, last_sequence}
use observe_agent.Queue.Disk.Write.{replaced, Either}
use observe_agent.Queue.Disk.Put.{admit-Either, admit-ok}

-- The guards of `Put`, for a normalized payload.
abbrev guards : Codec → Bool → Bytes → Bytes → Disk → Bool
guards c ended payload p q =
    not ended
    && (not q.closed
        && (not (ltb max_payload (length payload) || not (c.valid payload))
            && (not (
                  leb q.max_items q.count
                  || ltb q.max_bytes (q.bytes + charge (length (record_of c p))))
                && not (q.next == last_sequence))))

module _ (c : Codec) (env : Faults) (ended : Bool) (payload : Bytes) (q : Disk) where
  put_guarded :
      (p : Bytes)
      → c.normalize payload ≡ some p
      → guards c ended payload p q ≡ true
      → (put c env ended payload q
          ≡ admit c env (record_of c p) (charge (length (record_of c p))) q)
        × (q.closed ≡ false)
        × (q.count < q.max_items)
        × (q.bytes + charge (length (record_of c p)) ≤ q.max_bytes)
        × (q.next ≢ last_sequence)
  unfolding put
  put_guarded p e g = ground arith

  put_refused :
      (p : Bytes)
      → c.normalize payload ≡ some p
      → guards c ended payload p q ≡ false
      → ((put c env ended payload q).1 ≡ q) × ((n : ℕ) → (put c env ended payload q).0 ≢ done n)
  unfolding put
  put_refused p e g = (ground arith, λ n. ground arith)

  put_invalid :
      c.normalize payload ≡ none
      → ((put c env ended payload q).1 ≡ q) × ((n : ℕ) → (put c env ended payload q).0 ≢ done n)
  unfolding put
  put_invalid e = (ground arith, λ n. ground arith)

  -- `Put` refuses and changes nothing, or it passes its guards and admits the record.
  pub put-cases :
      (((put c env ended payload q).1 ≡ q) × ((n : ℕ) → (put c env ended payload q).0 ≢ done n))
      ⊎ ((p : Bytes) × (c.normalize payload ≡ some p)
          × (put c env ended payload q
              ≡ admit c env (record_of c p) (charge (length (record_of c p))) q)
          × (q.closed ≡ false)
          × (q.count < q.max_items)
          × (q.bytes + charge (length (record_of c p)) ≤ q.max_bytes)
          × (q.next ≢ last_sequence))
  put-cases = elim (Option-cases (c.normalize payload)) [
    | inl e ↦ inl (put_invalid e)
    | inr (p, e) ↦ elim (Bool-cases (guards c ended payload p q)) [
      | inr g ↦ inl (put_refused p e g)
      | inl g ↦ let r = put_guarded p e g in inr (p, e, r.0, r.1, r.2, r.3, r.4)
    ]
  ]

module _ (c : Codec) (env : Faults) (k : Name) (o : Option File) (durable : IsDurable o)
    (ne : name_eq pending k ≡ false) (nm : name_eq manifest k ≡ false)
    (nb : name_eq backup k ≡ false) where
  -- On every outcome of `Put`, a crash included, a file other than the control files is as it was,
  -- or it is the record of the next sequence number, synced and whole.
  pub put_files :
      (ended : Bool) (payload : Bytes) (q : Disk)
      → q.dir.files k ≡ o
      → ((put c env ended payload q).1.dir.files k ≡ o)
        ⊎ ((p : Bytes) × (c.normalize payload ≡ some p)
            × (name_eq (rec q.next) k ≡ true)
            × ((put c env ended payload q).1.dir.files k ≡ some (settled_file (record_of c p))))
  put_files ended payload q h = elim (put-cases c env ended payload q) [
    | inl r ↦ inl (rw r.0 h)
    | inr (p, e, r, x1, x2, x3, x4) ↦
        let b = record_of c p in
        rw r (
          whole p e (admit c env b (charge (length b)) q).1 (Bool-cases (name_eq (rec q.next) k))
            (admit-Either env k o durable ne c nm nb b (charge (length b)) q h))
  ]
    where
      whole :
          (p : Bytes)
          → c.normalize payload ≡ some p
          → (q' : Disk) → (name_eq (rec q.next) k ≡ true) ⊎ (name_eq (rec q.next) k ≡ false)
          → Either (rec q.next) (record_of c p) k o q'.dir
          → (q'.dir.files k ≡ o)
            ⊎ ((p' : Bytes) × (c.normalize payload ≡ some p')
                × (name_eq (rec q.next) k ≡ true)
                × (q'.dir.files k ≡ some (settled_file (record_of c p'))))
      whole p e q' n (inl x) = inl x
      whole p e q' (inl n) (inr x) = inr (p, e, n, rw n at x)
      whole p e q' (inr n) (inr x) = inl (rw n at x)

-- What a successful `Put` has done.
pub record Accepted (c : Codec) (payload : Bytes) (q : Disk) (n : ℕ) (q' : Disk) : Type 0 where
  pub text : Bytes
  pub normalized : c.normalize payload ≡ some text
  pub sequence : n ≡ q.next
  pub stored : q'.dir.files (rec n) ≡ some (settled_file (record_of c text))
  pub appended : q'.names ≡ q.names ++ (n ∷ [])
  pub advanced : q'.next ≡ n + 1
  pub counted : (q'.count ≡ q.count + 1) × (q'.count ≤ q.max_items)
  pub charged : (q'.bytes ≡ q.bytes + charge (length (record_of c text))) × (q'.bytes ≤ q.max_bytes)
  pub still_open : (q.closed ≡ false) × (q'.closed ≡ false)

replaced_self :
    (n m : ℕ) (b : Bytes) (o : Option File)
    → n ≡ m
    → replaced (rec n) b (rec m) o ≡ some (settled_file b)
replaced_self n m b o e = rw (e, name_eq_refl)

-- A `Put` that returns a receipt has stored the record whole and synced under the next sequence
-- number, has appended it to the queue, and has kept the queue within its limits.
pub put-Accepted :
    (c : Codec) (env : Faults) (ended : Bool) (payload : Bytes) (q : Disk) (n : ℕ)
    → IsDurable (q.dir.files (rec q.next))
    → (put c env ended payload q).0 ≡ done n
    → Accepted c payload q n (put c env ended payload q).1
put-Accepted c env ended payload q n durable r = elim (put-cases c env ended payload q) [
  | inl s ↦ absurd (s.1 n r)
  | inr (p, e, s, shut, few, fits, _) ↦
      let a =
        admit-ok env (rec q.next) (q.dir.files (rec q.next)) durable (control-rec ".pending" q.next)
          c (control-rec "manifest.json" q.next) (control-rec "manifest.backup" q.next)
          (record_of c p) (charge (length (record_of c p))) n q refl (rw s at r) in
      rw s (record {
        text = p;
        normalized = e;
        sequence = a.0;
        stored =
            rw a.0 (a.1 ∙ replaced_self n q.next (record_of c p) (q.dir.files (rec q.next)) a.0);
        appended = a.2;
        advanced = a.3;
        counted = (a.4, omega (arith, a.4));
        charged = (a.5, omega (arith, a.5));
        still_open = (shut, a.6 ∙ shut);
      })
]
