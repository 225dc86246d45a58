-- ===== src/Queue/Logs/Rows.antt =====
-- internal/queue/logs_disk_linux.go as a list of admitted rows, of which some are ready: the
-- abstract operations on such lists, and what the spool keeps of them in memory.
use observe_agent.Base.{
  ℕ, suc, ◌≤◌, ◌<◌, ◌≡◌, refl, ap, ◌⊎◌, inl, inr, Bool, true, false, Option, none, some, List, [],
  ◌∷◌, ◌++◌, arith, leb, ◌==◌, if◌then◌else◌, Bool-cases, length, Bytes, bytes_eq, bytes_eq_iff,
}
use observe_agent.Queue.Disk.Fifo.{IsAscending, IsAscending-le, IsAscending-lower}
use observe_agent.Queue.Logs.Names.{find_admission, insert_name, sort_names, holds_name}

pub record Row : Type 0 where
  pub seq : ℕ
  pub id : Bytes
  pub ready : Bool
  pub payload : Bytes

-- The map of the admissions, the sequence numbers, and those of the ready rows.
abbrev pub entries : List Row → List (Bytes × ℕ)
entries [] = []
entries (r ∷ rs) = (r.id, r.seq) ∷ entries rs

abbrev pub seqs : List Row → List ℕ
seqs [] = []
seqs (r ∷ rs) = r.seq ∷ seqs rs

abbrev pub ready_names : List Row → List ℕ
ready_names [] = []
ready_names (r ∷ rs) = let rest = ready_names rs in if r.ready then r.seq ∷ rest else rest

-- The row that was admitted as `id` becomes ready.
abbrev pub mark : Bytes → List Row → List Row
mark id [] = []
mark id (r ∷ rs) =
    let rest = mark id rs in if bytes_eq r.id id then record r { ready = true } ∷ rs else r ∷ rest

-- The first ready row, and the rows without it.
abbrev pub first_ready : List Row → Option Row
first_ready [] = none
first_ready (r ∷ rs) = let rest = first_ready rs in if r.ready then some r else rest

abbrev pub drop_ready : List Row → List Row
drop_ready [] = []
drop_ready (r ∷ rs) = let rest = drop_ready rs in if r.ready then rs else r ∷ rest

-- No identifier was admitted twice.
abbrev pub IsDistinct : List (Bytes × ℕ) → Type 0
IsDistinct [] = Unit
IsDistinct ((id, n) ∷ m) = (find_admission id m ≡ none) × IsDistinct m

pub entries-append : (rs ss : List Row) → entries (rs ++ ss) ≡ entries rs ++ entries ss
entries-append [] ss = refl
entries-append (r ∷ rs) ss = ap (λ m. (r.id, r.seq) ∷ m) (entries-append rs ss)

pub seqs-append : (rs ss : List Row) → seqs (rs ++ ss) ≡ seqs rs ++ seqs ss
seqs-append [] ss = refl
seqs-append (r ∷ rs) ss = ap (λ m. r.seq ∷ m) (seqs-append rs ss)

-- A row that is not ready changes nothing for the delivery.
pub ready_names-append :
    (rs : List Row) (r : Row) → r.ready ≡ false → ready_names (rs ++ (r ∷ [])) ≡ ready_names rs
ready_names-append [] r h = rw h
ready_names-append (x ∷ rs) r h = rw (ready_names-append rs r h)

lookup-append :
    (k id : Bytes) (n : ℕ) (m : List (Bytes × ℕ))
    → find_admission k m ≡ none
    → bytes_eq id k ≡ false
    → find_admission k (m ++ ((id, n) ∷ [])) ≡ none
lookup-append k id n [] h e = rw e
lookup-append k id n ((j, x) ∷ m) h e = ground (arith, lookup-append k id n m)

pub IsDistinct-append :
    (m : List (Bytes × ℕ)) (id : Bytes) (n : ℕ)
    → IsDistinct m
    → find_admission id m ≡ none
    → IsDistinct (m ++ ((id, n) ∷ []))
IsDistinct-append [] id n d h = (refl, tt)
IsDistinct-append ((j, x) ∷ m) id n d h = elim (Bool-cases (bytes_eq j id)) [
  | inl e ↦ ground (arith)
  | inr e ↦ (
    lookup-append j id n m d.0 (ground (arith, bytes_eq_iff id j, bytes_eq_iff j id)),
    IsDistinct-append m id n d.1 (ground arith),
  )
]

pub entries-mark : (id : Bytes) (rs : List Row) → entries (mark id rs) ≡ entries rs
entries-mark id [] = refl
entries-mark id (r ∷ rs) = ground (arith, entries-mark id rs)

pub seqs-mark : (id : Bytes) (rs : List Row) → seqs (mark id rs) ≡ seqs rs
seqs-mark id [] = refl
seqs-mark id (r ∷ rs) = ground (arith, seqs-mark id rs)

pub length-seqs : (rs : List Row) → length (seqs rs) ≡ length rs
length-seqs [] = refl
length-seqs (r ∷ rs) = omega (arith, length-seqs rs)

-- A name below all others comes first.
insert_name_below :
    (n : ℕ) (ns : List ℕ) (hi : ℕ) → IsAscending (suc n) ns hi → insert_name n ns ≡ n ∷ ns
insert_name_below n [] hi h = refl
insert_name_below n (m ∷ ms) hi h = ground arith

insert_name-IsAscending :
    (lo n : ℕ) (ns : List ℕ) (hi : ℕ)
    → IsAscending lo ns hi
    → lo ≤ n
    → n < hi
    → holds_name n ns ≡ false
    → IsAscending lo (insert_name n ns) hi
insert_name-IsAscending lo n [] hi h le lt e = (le, lt)
insert_name-IsAscending lo n (m ∷ ms) hi h le lt e = elim (Bool-cases (leb n m)) [
  | inl x ↦ rw x (le, (ground arith, h.1))
  | inr x ↦ rw x (h.0, insert_name-IsAscending (suc m) n ms hi h.1 (ground arith) lt (ground arith))
]

-- Sorting an ascending list with a name behind it puts that name in its place.
pub sort_names-append :
    (lo n : ℕ) (ns : List ℕ) (hi : ℕ)
    → IsAscending lo ns hi
    → n < hi
    → holds_name n ns ≡ false
    → sort_names (ns ++ (n ∷ [])) ≡ insert_name n ns
sort_names-append lo n [] hi h lt e = refl
sort_names-append lo n (m ∷ ms) hi h lt e =
    rw (sort_names-append (suc m) n ms hi h.1 lt (ground arith)) (go (Bool-cases (leb n m)))
  where
    go :
        (leb n m ≡ true) ⊎ (leb n m ≡ false)
        → insert_name m (insert_name n ms) ≡ insert_name n (m ∷ ms)
    go (inl x) =
        rw
          (
            x,
            insert_name_below n ms hi (IsAscending-lower (suc n) (suc m) ms hi (ground arith) h.1),
          )
          (rw (insert_name_below m ms hi h.1) (ground arith))
    go (inr x) = rw x (
        insert_name_below m (insert_name n ms) hi
          (insert_name-IsAscending (suc m) n ms hi h.1 (ground arith) lt (ground arith)))

pub ready_names-IsAscending :
    (lo : ℕ) (rs : List Row) (hi : ℕ)
    → IsAscending lo (seqs rs) hi
    → IsAscending lo (ready_names rs) hi
ready_names-IsAscending lo [] hi h = h
ready_names-IsAscending lo (r ∷ rs) hi h = elim (Bool-cases r.ready) [
  | inl e ↦ rw e (h.0, ready_names-IsAscending (suc r.seq) rs hi h.1)
  | inr e ↦ rw e (
      IsAscending-lower lo (suc r.seq) (ready_names rs) hi (omega arith)
        (ready_names-IsAscending (suc r.seq) rs hi h.1))
]

-- Marking a row puts its name among the ready ones.
pub ready_names-mark :
    (id : Bytes) (n lo : ℕ) (rs : List Row) (hi : ℕ)
    → IsAscending lo (seqs rs) hi
    → find_admission id (entries rs) ≡ some n
    → holds_name n (ready_names rs) ≡ false
    → (lo ≤ n) × (n < hi) × (ready_names (mark id rs) ≡ insert_name n (ready_names rs))
ready_names-mark id n lo [] hi h l e = cc
ready_names-mark id n lo (r ∷ rs) hi h l e = elim (Bool-cases (bytes_eq r.id id)) [
  | inl s ↦ elim (Bool-cases r.ready) [
    | inl x ↦ ground arith
    | inr x ↦
        let below =
          insert_name_below r.seq (ready_names rs) hi
            (ready_names-IsAscending (suc r.seq) rs hi h.1) in
        let bound = IsAscending-le (suc r.seq) (seqs rs) hi h.1 in ground (arith, below, bound)
  ]
  | inr s ↦
      let later = ready_names-mark id n (suc r.seq) rs hi h.1 (ground arith) (ground arith) in
      elim (Bool-cases r.ready) [ inl x ↦ ground (arith, later) | inr x ↦ ground (arith, later) ]
]

pub drop_ready-IsAscending :
    (lo : ℕ) (rs : List Row) (hi : ℕ)
    → IsAscending lo (seqs rs) hi
    → IsAscending lo (seqs (drop_ready rs)) hi
drop_ready-IsAscending lo [] hi h = h
drop_ready-IsAscending lo (r ∷ rs) hi h = elim (Bool-cases r.ready) [
  | inl e ↦ rw e (IsAscending-lower lo (suc r.seq) (seqs rs) hi (omega arith) h.1)
  | inr e ↦ rw e (h.0, drop_ready-IsAscending (suc r.seq) rs hi h.1)
]

-- Nothing to mark: the identifier is unknown.
pub mark_absent :
    (id : Bytes) (rs : List Row) → find_admission id (entries rs) ≡ none → mark id rs ≡ rs
mark_absent id [] h = refl
mark_absent id (r ∷ rs) h = elim (Bool-cases (bytes_eq r.id id)) [
  | inl s ↦ ground arith
  | inr s ↦ rw (s, mark_absent id rs (ground arith))
]

holds_name-ge :
    (n lo : ℕ) (ns : List ℕ) (hi : ℕ) → IsAscending lo ns hi → holds_name n ns ≡ true → lo ≤ n
holds_name-ge n lo [] hi a h = cc
holds_name-ge n lo (m ∷ ms) hi a h = elim (Bool-cases (m == n)) [
  | inl e ↦ ground arith
  | inr e ↦ let later = holds_name-ge n (suc m) ms hi a.1 (ground arith) in omega (arith, later)
]

lookup-ge :
    (id : Bytes) (n lo : ℕ) (rs : List Row) (hi : ℕ)
    → IsAscending lo (seqs rs) hi
    → find_admission id (entries rs) ≡ some n
    → lo ≤ n
lookup-ge id n lo [] hi a h = cc
lookup-ge id n lo (r ∷ rs) hi a h = elim (Bool-cases (bytes_eq r.id id)) [
  | inl e ↦ ground arith
  | inr e ↦ let later = lookup-ge id n (suc r.seq) rs hi a.1 (ground arith) in omega (arith, later)
]

ready_already : (r : Row) → r.ready ≡ true → record r { ready = true } ≡ r
ready_already r h = ground arith

-- Nothing to mark: the row is ready.
pub mark_ready :
    (id : Bytes) (n lo : ℕ) (rs : List Row) (hi : ℕ)
    → IsAscending lo (seqs rs) hi
    → find_admission id (entries rs) ≡ some n
    → holds_name n (ready_names rs) ≡ true
    → mark id rs ≡ rs
mark_ready id n lo [] hi a l h = refl
mark_ready id n lo (r ∷ rs) hi a l h = elim (Bool-cases (bytes_eq r.id id)) [
  | inl s ↦ elim (Bool-cases r.ready) [
    | inl x ↦ let same = ready_already r x in ground arith
    | inr x ↦
        let later =
          holds_name-ge n (suc r.seq) (ready_names rs) hi
            (ready_names-IsAscending (suc r.seq) rs hi a.1) in
        ground (arith, later)
  ]
  | inr s ↦
      let below = lookup-ge id n (suc r.seq) rs hi a.1 (ground arith) in
      elim (Bool-cases r.ready) [
        | inl x ↦
            rw (s, mark_ready id n (suc r.seq) rs hi a.1 (ground arith) (ground (arith, below)))
        | inr x ↦ rw (s, mark_ready id n (suc r.seq) rs hi a.1 (ground arith) (ground arith))
      ]
]
