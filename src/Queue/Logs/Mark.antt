-- ===== src/Queue/Logs/Mark.antt =====
-- internal/queue/logs_disk_linux.go: what a spool holds when the file of one row is replaced by
-- the same record, ready.
use observe_agent.Base.{
  ℕ, suc, ◌≤◌, ◌≡◌, refl, sym, ap, ◌∙◌, inl, inr, true, false, Option, none, some, List, [], ◌∷◌,
  arith, ◌==◌, Bool-cases, length, Bytes, bytes_eq, bytes_eq_iff, bytes_eq_refl, All,
}
use observe_agent.Queue.Files.{File, rec, Dir}
use observe_agent.Queue.Files.Steps.{settled_file}
use observe_agent.Queue.Disk.{charge}
use observe_agent.Queue.Disk.Fifo.{IsAscending, charge_of, total}
use observe_agent.Queue.Logs.{LogRecord, LogDisk}
use observe_agent.Queue.Logs.Names.{find_admission}
use observe_agent.Queue.Logs.Record.{LogCodec, LogCodecLaws, decode}
use observe_agent.Queue.Logs.Rows.{
  length-seqs, Row, entries, seqs, mark, ready_names, entries-mark, seqs-mark,
}
use observe_agent.Queue.Logs.Held.{
  IsLogs, StoredRow, Settled, record_of, held-Agree, StoredRow-agree,
}

abbrev pub made_ready : Row → Row
made_ready r = record r { ready = true }

-- The directories agree on all records but `n`.
abbrev pub AgreeBut : ℕ → Dir → Dir → Type 0
AgreeBut n d e = (m : ℕ) → (n == m) ≡ false → e.files (rec m) ≡ d.files (rec m)

-- The row that an identifier names.
pub located :
    (c : LogCodec) (d : Dir) (id : Bytes) (n lo : ℕ) (rs : List Row) (hi : ℕ)
    → IsAscending lo (seqs rs) hi
    → find_admission id (entries rs) ≡ some n
    → All (StoredRow c d) rs
    → (lo ≤ n) × ((r : Row) × (r.seq ≡ n) × (r.id ≡ id) × StoredRow c d r)
located c d id n lo [] hi asc l h = cc
located c d id n lo (r ∷ rs) hi asc l h = elim (Bool-cases (bytes_eq r.id id)) [
  | inl s ↦
      let same : r.seq ≡ n = ground arith in
      (omega arith, (r, same, (bytes_eq_iff r.id id).0 s, h.0))
  | inr s ↦
      let later = located c d id n (suc r.seq) rs hi asc.1 (ground arith) h.1 in
      (omega arith, later.1)
]

module _ (c : LogCodec) (d e : Dir) (id : Bytes) (n : ℕ) where
  mark-held :
      (lo : ℕ) (rs : List Row) (hi : ℕ)
      → IsAscending lo (seqs rs) hi
      → find_admission id (entries rs) ≡ some n
      → AgreeBut n d e
      → ((r : Row) → r.seq ≡ n → r.id ≡ id → StoredRow c d r → StoredRow c e (made_ready r))
      → All (StoredRow c d) rs
      → All (StoredRow c e) (mark id rs)
  mark-held lo [] hi asc l a new h = tt
  mark-held lo (r ∷ rs) hi asc l a new h = elim (Bool-cases (bytes_eq r.id id)) [
    | inl s ↦
        let same : r.seq ≡ n = ground arith in
        let first : StoredRow c e (made_ready r) = new r same ((bytes_eq_iff r.id id).0 s) h.0 in
        let later : All (StoredRow c e) rs =
          held-Agree c d e (suc r.seq) rs hi asc.1 (λ m x y. a m (ground arith)) h.1 in
        rw s (first, later)
    | inr s ↦
        let below = located c d id n (suc r.seq) rs hi asc.1 (ground arith) h.1 in
        let first : StoredRow c e r =
          StoredRow-agree c d e r (a r.seq (ground (arith, below.0))) h.0 in
        let later : All (StoredRow c e) (mark id rs) =
          mark-held (suc r.seq) rs hi asc.1 (ground arith) a new h.1 in
        rw s (first, later)
  ]

total-le :
    (d e : Dir) (ns : List ℕ)
    → ((m : ℕ) → charge_of (e.files (rec m)) ≤ charge_of (d.files (rec m)))
    → total e ns ≤ total d ns
total-le d e [] h = omega arith
total-le d e (n ∷ ns) h = omega (arith, h n, total-le d e ns h)

charge_mono : (a b : ℕ) → a ≤ b → charge a ≤ charge b
unfolding charge
charge_mono a b h = omega arith

module _ (c : LogCodec) (laws : LogCodecLaws c) (d : Dir) (r : Row) (s : StoredRow c d r) where
  abbrev pub ready_bytes : Bytes
  ready_bytes = c.encode (record_of c (made_ready r))

  pub ready-StoredRow :
      (e : Dir)
      → e.files (rec r.seq) ≡ some (settled_file ready_bytes)
      → StoredRow c e (made_ready r)
  ready-StoredRow e found = record {
    file = settled_file ready_bytes;
    found = found;
    readable = refl;
    contents = refl;
    fits = omega (arith, laws.shorter_ready (record_of c r), ap length s.contents, s.fits);
    decodes = decodes;
    normal = s.normal;
    identified = s.identified;
  }
    where
      decodes : decode c ready_bytes ≡ some (record_of c (made_ready r))
      decodes =
          unfold decode in
          rw
            (
              laws.parse-encode (record_of c (made_ready r)) s.normal,
              s.identified,
              laws.valid-normalize r.payload r.payload s.normal,
              bytes_eq_refl,
            )
            refl

  -- Replacing the file charges no more.
  charge_ready :
      (e : Dir)
      → e.files (rec r.seq) ≡ some (settled_file ready_bytes)
      → charge_of (e.files (rec r.seq)) ≤ charge_of (d.files (rec r.seq))
  charge_ready e found = omega (
    arith,
    ap charge_of found,
    ap charge_of s.found,
    charge_mono (length ready_bytes) (length s.file.contents)
        (omega (arith, laws.shorter_ready (record_of c r), ap length s.contents)),
  )

-- What a file decodes to, and the file of a record made ready.
abbrev decoded_file : LogCodec → Option File → Option LogRecord
decoded_file c none = none
decoded_file c (some f) = decode c f.contents

abbrev ready_file : LogCodec → Option LogRecord → Option File
ready_file c none = none
ready_file c (some y) = some (settled_file (c.encode (record y { ready = true })))

-- The file of a row was replaced: the spool holds the rows with that row marked, once its names say
-- so too.
pub marked-IsLogs :
    (c : LogCodec) (laws : LogCodecLaws c) (q : LogDisk) (rs : List Row) (id : Bytes) (r : Row)
    (e : Dir)
    → IsLogs c q rs
    → find_admission id (entries rs) ≡ some r.seq
    → (s : StoredRow c q.dir r) → AgreeBut r.seq q.dir e
    → Settled e
    → e.files (rec r.seq) ≡ some (settled_file (ready_bytes c laws q.dir r s))
    → IsLogs c (record q { dir = e; names = ready_names (mark id rs) }) (mark id rs)
marked-IsLogs c laws q rs id r e i l s a st found = record {
  settled = st;
  held = mark-held c q.dir e id r.seq 0 rs q.manifest.next i.ascending l a new i.held;
  ascending = rw seqs-mark i.ascending;
  admitted = i.admitted ∙ sym (entries-mark id rs);
  delivery = refl;
  distinct = rw entries-mark i.distinct;
  counted =
      omega
        (arith, length-seqs rs, length-seqs (mark id rs), ap length (seqs-mark id rs), i.counted);
  charged = rw seqs-mark (omega (arith, total-le q.dir e (seqs rs) charges, i.charged));
  within = i.within;
}
  where
    new : (x : Row) → x.seq ≡ r.seq → x.id ≡ id → StoredRow c q.dir x → StoredRow c e (made_ready x)
    new x same named t =
        let one_file : some t.file ≡ some s.file =
          sym t.found ∙ ap (λ (k : ℕ). q.dir.files (rec k)) same ∙ s.found in
        let one_record : some (record_of c x) ≡ some (record_of c r) =
          sym t.decodes ∙ ap (decoded_file c) one_file ∙ s.decodes in
        ready-StoredRow c laws q.dir x t e
          (ap (λ (k : ℕ). e.files (rec k)) same ∙ found ∙ ap (ready_file c) (sym one_record))

    charges : (m : ℕ) → charge_of (e.files (rec m)) ≤ charge_of (q.dir.files (rec m))
    charges m = elim (Bool-cases (r.seq == m)) [
      | inl x ↦
          let same : r.seq ≡ m = ground arith in rw (← same) (charge_ready c laws q.dir r s e found)
      | inr x ↦ omega (arith, ap charge_of (a m x))
    ]
