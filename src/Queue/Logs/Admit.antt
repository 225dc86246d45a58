-- ===== src/Queue/Logs/Admit.antt =====
-- internal/queue/logs_disk_linux.go, `PutAdmission`: a row is added, or the rows stay.
use observe_agent.Base.{
  ℕ, ◌+◌, ◌%◌, ◌^◌, ◌≤◌, ◌<◌, ◌≡◌, refl, sym, ap, ◌∙◌, ◌≢◌, ◌⊎◌, inl, inr, Bool, true, false, not,
  ◌||◌, Option, none, some, List, [], ◌∷◌, ◌++◌, arith, ltb, leb, ◌==◌, if◌then◌else◌, Bool-cases,
  Option-cases, length, length-append, Bytes, bytes_eq_refl,
}
use observe_agent.Queue.Files.{File, rec, Faults}
use observe_agent.Queue.Files.Laws.{rec-rec}
use observe_agent.Queue.Files.Steps.{IsDurable, settled_file}
use observe_agent.Queue.Files.Install.{Either}
use observe_agent.Queue.Disk.{
  spool_closed, max_payload, invalid_payload, full, cancelled, max_record, Error, Result, done,
  failed, waiting, died, charge,
}
use observe_agent.Queue.Disk.Fifo.{
  Agree, IsAscending-weaken, IsAscending-append, total-append, charge_of, total-Agree, IsAscending,
}
use observe_agent.Queue.Logs.{valid_admission, LogDisk, put_admission, admit, admit_new, fresh}
use observe_agent.Queue.Logs.Names.{find_admission}
use observe_agent.Queue.Logs.Record.{LogCodec, LogCodecLaws, decode}
use observe_agent.Queue.Logs.Rows.{
  IsDistinct-append, ready_names-append, entries-append, seqs-append, seqs, Row, entries,
}
use observe_agent.Queue.Logs.Held.{held-append, IsLogs-Agree, IsLogs, StoredRow, Settled}
use observe_agent.Queue.Logs.Written.{admit-Either, admit-done, admit-frame}

-- What `PutAdmission` may return and leave, of a spool that held `rs`.
abbrev pub Puts : LogCodec → Bytes → Bytes → List Row → Result (ℕ × Bool) → LogDisk → Type 0
Puts c id payload rs (done (n, true)) q = (find_admission id (entries rs) ≡ some n) × IsLogs c q rs
Puts c id payload rs (done (n, false)) q =
    (find_admission id (entries rs) ≡ none)
    × ((p : Bytes) × (c.normalize payload ≡ some p)
        × IsLogs c q (rs ++ (record { seq = n; id = id; ready = false; payload = p } ∷ [])))
Puts c id payload rs (failed e) q = IsLogs c q rs
Puts c id payload rs waiting q = IsLogs c q rs
Puts c id payload rs died q = IsLogs c q rs

module _ (c : LogCodec) (env : Faults) (id : Bytes) (payload p : Bytes) (cost : ℕ) (q : LogDisk)
    (rs : List Row) (laws : LogCodecLaws c) (valid : valid_admission id ≡ true)
    (normal : c.normalize payload ≡ some p) (room : q.manifest.next + 1 < 2 ^ 64)
    (fits : length (c.encode (fresh c id p)) ≤ max_record)
    (cost_of : cost ≡ charge (length (c.encode (fresh c id p)))) (few : q.count < q.max_items)
    (small : q.bytes + cost ≤ q.max_bytes) (absent : find_admission id (entries rs) ≡ none)
    (i : IsLogs c q rs) where
  abbrev b : Bytes
  b = c.encode (fresh c id p)

  abbrev q' : LogDisk
  q' = (admit c env id b cost q).1

  admit-Settled : Settled q'.dir
  admit-Settled n =
      go (q.dir.files (rec n)) (i.settled n)
        (admit-Either env n (q.dir.files (rec n)) (i.settled n) c id b cost q refl)
    where
      go :
          (o : Option File)
          → IsDurable o
          → Either (rec q.manifest.next) b (rec n) o q'.dir
          → IsDurable (q'.dir.files (rec n))
      go o h (inl e) = rw e h
      go o h (inr e) = rw e (ground arith)

  admit-Agree : Agree 0 q.manifest.next q.dir q'.dir
  admit-Agree n lo hi =
      go (admit-Either env n (q.dir.files (rec n)) (i.settled n) c id b cost q refl)
    where
      other : (q.manifest.next == n) ≡ false
      other = ground arith

      go :
          Either (rec q.manifest.next) b (rec n) (q.dir.files (rec n)) q'.dir
          → q'.dir.files (rec n) ≡ q.dir.files (rec n)
      go (inl e) = e
      go (inr e) = e ∙ rw (rec-rec, other)

  admit-kept :
      (r : Result (ℕ × Bool))
      → (admit c env id b cost q).0 ≡ r
      → ((x : ℕ × Bool) → r ≢ done x)
      → IsLogs c q' rs
  admit-kept r e h =
      let f = admit-frame c env id b cost q r e h in
      let j = IsLogs-Agree c q q'.dir rs i admit-Settled admit-Agree in
      rw f (record {
        settled = j.settled;
        held = j.held;
        ascending = IsAscending-weaken 0 (seqs rs) q.manifest.next _ i.ascending (omega arith);
        admitted = i.admitted;
        delivery = i.delivery;
        distinct = i.distinct;
        counted = i.counted;
        charged = j.charged;
        within = i.within;
      })

  abbrev new_row : Row
  new_row = record { seq = q.manifest.next; id = id; ready = false; payload = p }

  decode-fresh : decode c b ≡ some (fresh c id p)
  unfolding decode
  decode-fresh = rw (
    laws.parse-encode (fresh c id p) (laws.normalize_twice payload p normal),
    valid,
    laws.valid-normalize payload p normal,
    bytes_eq_refl,
  )

  admit-added :
      (x : ℕ × Bool)
      → (admit c env id b cost q).0 ≡ done x
      → (x ≡ (q.manifest.next, false)) × IsLogs c q' (rs ++ (new_row ∷ []))
  admit-added x h =
      let (e, stored, f) = admit-done c env id b cost q x (i.settled q.manifest.next) h in
      let j = IsLogs-Agree c q q'.dir rs i admit-Settled admit-Agree in
      let row : StoredRow c q'.dir new_row = record {
        file = settled_file b;
        found = stored;
        readable = refl;
        contents = refl;
        fits = fits;
        decodes = decode-fresh;
        normal = laws.normalize_twice payload p normal;
        identified = valid;
      } in
      let same = total-Agree q.dir q'.dir 0 (seqs rs) q.manifest.next i.ascending admit-Agree in
      let size = ap charge_of stored in
      (
        e,
        rw f (record {
          settled = admit-Settled;
          held = held-append c q'.dir rs new_row j.held row;
          ascending = rw seqs-append (next_ascending);
          admitted = rw (i.admitted, entries-append);
          delivery = i.delivery ∙ sym (ready_names-append rs new_row refl);
          distinct =
              rw entries-append
                (IsDistinct-append (entries rs) id q.manifest.next i.distinct absent);
          counted = omega (arith, length-append rs (new_row ∷ []), i.counted);
          charged = rw seqs-append (
              omega (
                arith,
                total-append q'.dir (seqs rs) q.manifest.next,
                size,
                same,
                i.charged,
                cost_of,
              ));
          within = (omega arith, small);
        }),
      )
    where
      next_ascending :
          IsAscending 0 (seqs rs ++ (q.manifest.next ∷ [])) ((q.manifest.next + 1) % 2 ^ 64)
      next_ascending =
          IsAscending-weaken 0 (seqs rs ++ (q.manifest.next ∷ [])) (q.manifest.next + 1) _
            (IsAscending-append 0 (seqs rs) q.manifest.next i.ascending) (omega arith)

  pub admit-Puts : Puts c id payload rs (admit c env id b cost q).0 (admit c env id b cost q).1
  admit-Puts = go (admit c env id b cost q).0 refl
    where
      go :
          (r : Result (ℕ × Bool))
          → (admit c env id b cost q).0 ≡ r
          → Puts c id payload rs r (admit c env id b cost q).1
      go (done (n, true)) e = ground (arith, admit-added (n, true) e)
      go (done (n, false)) e =
          let (x, l) = admit-added (n, false) e in
          let same : n ≡ q.manifest.next = ap (λ (y : ℕ × Bool). y.0) x in
          (absent, (p, normal, rw same l))
      go (failed x) e = admit-kept (failed x) e (λ y h. cc)
      go waiting e = admit-kept waiting e (λ y h. cc)
      go died e = admit-kept died e (λ y h. cc)

module _ (c : LogCodec) (env : Faults) (ended : Bool) (id : Bytes) (payload : Bytes) (q : LogDisk)
    (rs : List Row) (laws : LogCodecLaws c) (room : q.manifest.next + 1 < 2 ^ 64)
    (fits : (p : Bytes)
      → c.normalize payload ≡ some p
      → length (c.encode (fresh c id p)) ≤ max_record)
    (i : IsLogs c q rs) where
  admit_new-eq :
      (p : Bytes)
      → c.normalize payload ≡ some p
      → let cost = charge (length (c.encode (fresh c id p))) in
        (admit_new c env id payload q ≡ (failed full, q))
        ⊎ ((q.count < q.max_items)
            × (q.bytes + cost ≤ q.max_bytes)
            × (admit_new c env id payload q ≡ admit c env id (c.encode (fresh c id p)) cost q))
  unfolding admit_new
  admit_new-eq p e =
      let cost = charge (length (c.encode (fresh c id p))) in
      elim (Bool-cases (leb q.max_items q.count || ltb q.max_bytes (q.bytes + cost))) [
        | inl x ↦ inl (ground arith)
        | inr x ↦ inr (ground arith, ground arith, ground arith)
      ]

  admit_new-invalid :
      c.normalize payload ≡ none → admit_new c env id payload q ≡ (failed invalid_payload, q)
  unfolding admit_new
  admit_new-invalid e = ground arith

  admit_new-Puts :
      valid_admission id ≡ true
      → find_admission id (entries rs) ≡ none
      → Puts c id payload rs (admit_new c env id payload q).0 (admit_new c env id payload q).1
  admit_new-Puts valid absent = elim (Option-cases (c.normalize payload)) [
    | inl e ↦ rw (admit_new-invalid e) i
    | inr (p, e) ↦
        let cost = charge (length (c.encode (fresh c id p))) in
        elim (admit_new-eq p e) [
          | inl x ↦ rw x i
          | inr (few, small, x) ↦ rw x (
              admit-Puts c env id payload p cost q rs laws valid e room (fits p e) refl few small
                absent i)
        ]
  ]

  abbrev put_refuses : Bool
  put_refuses =
      ended
      || (q.closed
          || (not (valid_admission id)
              || ltb max_payload (length payload)
              || not (c.valid payload)))

  abbrev put_refusal : Error
  put_refusal = if ended then cancelled else if q.closed then spool_closed else invalid_payload

  put_admission-refused :
      put_refuses ≡ true → put_admission c env ended id payload q ≡ (failed put_refusal, q)
  unfolding put_admission
  put_admission-refused h = ground arith

  put_admission-known :
      (n : ℕ)
      → put_refuses ≡ false
      → find_admission id q.admissions ≡ some n
      → put_admission c env ended id payload q ≡ (done (n, true), q)
  unfolding put_admission
  put_admission-known n h e = ground arith

  put_admission-new :
      put_refuses ≡ false
      → find_admission id q.admissions ≡ none
      → (valid_admission id ≡ true)
        × (put_admission c env ended id payload q ≡ admit_new c env id payload q)
  unfolding put_admission
  put_admission-new h e = ground arith

  -- On every outcome of `PutAdmission`, while sequence numbers are left: a receipt of a known
  -- identifier names its row, a receipt of a new one means that its row is added, durable and not
  -- ready, and without a receipt, on every error and after a crash, the rows are as they were.
  pub put_admission-Puts :
      Puts c id payload rs
        (put_admission c env ended id payload q).0
        (put_admission c env ended id payload q).1
  put_admission-Puts = elim (Bool-cases put_refuses) [
    | inl h ↦ rw (put_admission-refused h) i
    | inr h ↦ elim (Option-cases (find_admission id q.admissions)) [
      | inl e ↦
          let (valid, x) = put_admission-new h e in rw x (admit_new-Puts valid (rw i.admitted at e))
      | inr (n, e) ↦ rw (put_admission-known n h e) (rw i.admitted at e, i)
    ]
  ]
