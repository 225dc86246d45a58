-- ===== src/Queue/Logs/Dropped.antt =====
-- internal/queue/logs_disk_linux.go: what a spool holds when the file of its first ready row is
-- removed.
use observe_agent.Base.{
  ℕ, suc, ◌+◌, ◌≤◌, ◌≡◌, refl, sym, ap, subst, ◌≢◌, inl, inr, none, some, List, [], ◌∷◌, arith,
  Bool-cases, length, Bytes, bytes_eq, bytes_eq_iff, bytes_eq_refl, All,
}
use observe_agent.Queue.Files.{rec, Dir}
use observe_agent.Queue.Disk.Fifo.{IsAscending, charge_of, total, total-Agree}
use observe_agent.Queue.Logs.{LogDisk}
use observe_agent.Queue.Logs.Names.{find_admission, forget}
use observe_agent.Queue.Logs.Record.{LogCodec}
use observe_agent.Queue.Logs.Rows.{
  Row, entries, seqs, ready_names, first_ready, drop_ready, IsDistinct, drop_ready-IsAscending,
}
use observe_agent.Queue.Logs.Held.{IsLogs, StoredRow, Settled, held-Agree, StoredRow-agree}
use observe_agent.Queue.Logs.Mark.{AgreeBut}

pub length-drop_ready :
    (rs : List Row) (r : Row) → first_ready rs ≡ some r → length (drop_ready rs) + 1 ≡ length rs
length-drop_ready [] r h = cc
length-drop_ready (x ∷ rs) r h = elim (Bool-cases x.ready) [
  | inl e ↦ rw e (omega arith)
  | inr e ↦ let later = length-drop_ready rs r (rw e at h) in rw e (omega (arith, later))
]

pub first_ready-ge :
    (lo : ℕ) (rs : List Row) (hi : ℕ) (r : Row)
    → IsAscending lo (seqs rs) hi
    → first_ready rs ≡ some r
    → lo ≤ r.seq
first_ready-ge lo [] hi r a h = cc
first_ready-ge lo (x ∷ rs) hi r a h = elim (Bool-cases x.ready) [
  | inl e ↦ let same : x ≡ r = ground arith in subst (λ (y : Row). lo ≤ y.seq) same a.0
  | inr e ↦ let later = first_ready-ge (suc x.seq) rs hi r a.1 (rw e at h) in omega (arith, later)
]

first_ready-find_admission :
    (rs : List Row) (r : Row) → first_ready rs ≡ some r → find_admission r.id (entries rs) ≢ none
first_ready-find_admission [] r h = λ l. cc
first_ready-find_admission (x ∷ rs) r h = elim (Bool-cases x.ready) [
  | inl e ↦
      let same : x ≡ r = ground arith in
      subst (λ (y : Row). find_admission y.id ((x.id, x.seq) ∷ entries rs) ≢ none) same
        (λ l. ground (arith, bytes_eq_refl x.id))
  | inr e ↦ let later = first_ready-find_admission rs r (rw e at h) in λ l. ground (arith, later)
]

forget_absent : (id : Bytes) (m : List (Bytes × ℕ)) → find_admission id m ≡ none → forget id m ≡ m
forget_absent id [] h = refl
forget_absent id ((j, n) ∷ m) h = elim (Bool-cases (bytes_eq j id)) [
  | inl e ↦ ground arith
  | inr e ↦ rw (e, forget_absent id m (rw e at h))
]

-- Deleting the identifier of the first ready row deletes just that row's entry.
pub forget-first :
    (rs : List Row) (r : Row)
    → IsDistinct (entries rs)
    → first_ready rs ≡ some r
    → forget r.id (entries rs) ≡ entries (drop_ready rs)
forget-first [] r d h = cc
forget-first (x ∷ rs) r d h = elim (Bool-cases x.ready) [
  | inl e ↦
      let same : x.id ≡ r.id = ground arith in
      ground (arith, bytes_eq_iff x.id r.id, forget_absent r.id (entries rs) (rw same at d.0))
  | inr e ↦
      let f = rw e at h in
      let later = forget-first rs r d.1 f in
      elim (Bool-cases (bytes_eq x.id r.id)) [
        | inl s ↦
            absurd (first_ready-find_admission rs r f (rw ((bytes_eq_iff x.id r.id).0 s) at d.0))
        | inr s ↦ rw (e, s, later)
      ]
]

drop_ready-find_admission :
    (k : Bytes) (rs : List Row)
    → find_admission k (entries rs) ≡ none
    → find_admission k (entries (drop_ready rs)) ≡ none
drop_ready-find_admission k [] h = h
drop_ready-find_admission k (x ∷ rs) h = ground (arith, drop_ready-find_admission k rs)

drop_ready-IsDistinct :
    (rs : List Row) → IsDistinct (entries rs) → IsDistinct (entries (drop_ready rs))
drop_ready-IsDistinct [] d = d
drop_ready-IsDistinct (x ∷ rs) d = elim (Bool-cases x.ready) [
  | inl e ↦ rw e d.1
  | inr e ↦ rw e (drop_ready-find_admission x.id rs d.0, drop_ready-IsDistinct rs d.1)
]

module _ (d e : Dir) (r : Row) where
  drop-total :
      (lo : ℕ) (rs : List Row) (hi : ℕ)
      → IsAscending lo (seqs rs) hi
      → first_ready rs ≡ some r
      → AgreeBut r.seq d e
      → total e (seqs (drop_ready rs)) + charge_of (d.files (rec r.seq)) ≡ total d (seqs rs)
  drop-total lo [] hi asc h a = cc
  drop-total lo (x ∷ rs) hi asc h a = elim (Bool-cases x.ready) [
    | inl y ↦
        let same : x.seq ≡ r.seq = ground arith in
        let rest = total-Agree d e (suc x.seq) (seqs rs) hi asc.1 (λ m u v. a m (ground arith)) in
        rw (y, ← same) (omega (arith, rest))
    | inr y ↦
        let f = rw y at h in
        let below = first_ready-ge (suc x.seq) rs hi r asc.1 f in
        let later = drop-total (suc x.seq) rs hi asc.1 f a in
        let head = ap charge_of (a x.seq (ground arith)) in rw y (omega (arith, later, head))
  ]

  drop-held :
      (c : LogCodec) (lo : ℕ) (rs : List Row) (hi : ℕ)
      → IsAscending lo (seqs rs) hi
      → first_ready rs ≡ some r
      → AgreeBut r.seq d e
      → All (StoredRow c d) rs
      → All (StoredRow c e) (drop_ready rs)
  drop-held c lo [] hi asc h a s = tt
  drop-held c lo (x ∷ rs) hi asc h a s = elim (Bool-cases x.ready) [
    | inl y ↦
        let same : x.seq ≡ r.seq = ground arith in
        rw y (held-Agree c d e (suc x.seq) rs hi asc.1 (λ m u v. a m (ground arith)) s.1)
    | inr y ↦
        let f = rw y at h in
        let below = first_ready-ge (suc x.seq) rs hi r asc.1 f in
        let split : drop_ready (x ∷ rs) ≡ x ∷ drop_ready rs = ground arith in
        subst (λ l. All (StoredRow c e) l) (sym split)
          (
            StoredRow-agree c d e x (a x.seq (ground arith)) s.0,
            drop-held c (suc x.seq) rs hi asc.1 f a s.1,
          )
  ]

-- The file of the first ready row is gone: the spool holds the other rows, once its memory says so.
pub dropped-IsLogs :
    (c : LogCodec) (q : LogDisk) (rs : List Row) (r : Row) (e : Dir) (count bytes : ℕ)
    → IsLogs c q rs
    → first_ready rs ≡ some r
    → AgreeBut r.seq q.dir e
    → Settled e
    → q.count ≤ count + 1
    → count ≤ q.count
    → q.bytes ≤ bytes + charge_of (q.dir.files (rec r.seq))
    → bytes ≤ q.bytes
    → IsLogs c
        (record q {
          dir = e;
          admissions = entries (drop_ready rs);
          names = ready_names (drop_ready rs);
          count = count;
          bytes = bytes;
        })
        (drop_ready rs)
dropped-IsLogs c q rs r e count bytes i h a st c1 c2 b1 b2 = record {
  settled = st;
  held = drop-held q.dir e r c 0 rs q.manifest.next i.ascending h a i.held;
  ascending = drop_ready-IsAscending 0 rs q.manifest.next i.ascending;
  admitted = refl;
  delivery = refl;
  distinct = drop_ready-IsDistinct rs i.distinct;
  counted = omega (arith, length-drop_ready rs r h, i.counted);
  charged = omega (arith, drop-total q.dir e r 0 rs q.manifest.next i.ascending h a, i.charged);
  within = (omega (arith, i.within), omega (arith, i.within));
}
