-- ===== src/Queue/Disk/Fifo.antt =====
-- internal/queue/disk_linux.go as a queue of payloads: the invariant, and how it is kept.
use observe_agent.Base.{
  ℕ, suc, ◌+◌, ◌≤◌, ◌<◌, ◌≡◌, refl, ap, ◌∙◌, true, Option, some, none, List, [], ◌∷◌, ◌++◌, Bytes,
  arith, length,
}
use observe_agent.Queue.Files.{rec, File, Dir}
use observe_agent.Queue.Codec.{Codec}
use observe_agent.Queue.Disk.{Disk, charge, decode, max_record}
use observe_agent.Queue.Disk.Settled.{IsSettled}

-- The file of record `n` can be read and decodes to the payload `p`.
pub record Stored (c : Codec) (d : Dir) (n : ℕ) (p : Bytes) : Type 0 where
  pub file : File
  pub found : d.files (rec n) ≡ some file
  pub readable : file.exclusive ≡ true
  pub fits : length file.contents ≤ max_record
  pub decodes : decode c file.contents ≡ some p

abbrev pub Holds : Codec → Dir → List ℕ → List Bytes → Type 0
Holds c d [] [] = Unit
Holds c d (n ∷ ns) (p ∷ ps) = Stored c d n p × Holds c d ns ps
Holds c d [] (p ∷ ps) = ⊥
Holds c d (n ∷ ns) [] = ⊥

-- Strictly ascending from `lo` on, and below `hi`.
abbrev pub IsAscending : ℕ → List ℕ → ℕ → Type 0
IsAscending lo [] hi = lo ≤ hi
IsAscending lo (n ∷ ns) hi = (lo ≤ n) × IsAscending (suc n) ns hi

abbrev pub charge_of : Option File → ℕ
charge_of none = 0
charge_of (some f) = charge (length f.contents)

abbrev pub total : Dir → List ℕ → ℕ
total d [] = 0
total d (n ∷ ns) = charge_of (d.files (rec n)) + total d ns

-- The queue holds the payloads `ps`, and its limits cover them.
pub record IsQueue (c : Codec) (q : Disk) (ps : List Bytes) : Type 0 where
  pub settled : IsSettled q.dir
  pub held : Holds c q.dir q.names ps
  pub ascending : IsAscending 0 q.names q.next
  pub counted : length q.names ≤ q.count
  pub charged : total q.dir q.names ≤ q.bytes
  pub within : (q.count ≤ q.max_items) × (q.bytes ≤ q.max_bytes)

-- The two directories agree on the records from `lo` on and below `hi`.
abbrev pub Agree : ℕ → ℕ → Dir → Dir → Type 0
Agree lo hi d e = (n : ℕ) → lo ≤ n → n < hi → e.files (rec n) ≡ d.files (rec n)

pub IsAscending-le : (lo : ℕ) (ns : List ℕ) (hi : ℕ) → IsAscending lo ns hi → lo ≤ hi
IsAscending-le lo [] hi h = h
IsAscending-le lo (n ∷ ns) hi h = omega (arith, IsAscending-le (suc n) ns hi h.1)

pub IsAscending-weaken :
    (lo : ℕ) (ns : List ℕ) (hi hi' : ℕ) → IsAscending lo ns hi → hi ≤ hi' → IsAscending lo ns hi'
IsAscending-weaken lo [] hi hi' h le = omega arith
IsAscending-weaken lo (n ∷ ns) hi hi' h le = (h.0, IsAscending-weaken (suc n) ns hi hi' h.1 le)

pub IsAscending-lower :
    (lo lo' : ℕ) (ns : List ℕ) (hi : ℕ) → lo ≤ lo' → IsAscending lo' ns hi → IsAscending lo ns hi
IsAscending-lower lo lo' [] hi le h = omega arith
IsAscending-lower lo lo' (n ∷ ns) hi le h = (omega arith, h.1)

pub IsAscending-append :
    (lo : ℕ) (ns : List ℕ) (hi : ℕ)
    → IsAscending lo ns hi
    → IsAscending lo (ns ++ (hi ∷ [])) (hi + 1)
IsAscending-append lo [] hi h = (h, omega arith)
IsAscending-append lo (n ∷ ns) hi h = (h.0, IsAscending-append (suc n) ns hi h.1)

module _ (c : Codec) (d e : Dir) where
  Stored-agree :
      (n : ℕ) (p : Bytes) → e.files (rec n) ≡ d.files (rec n) → Stored c d n p → Stored c e n p
  Stored-agree n p h s = record {
    file = s.file;
    found = h ∙ s.found;
    readable = s.readable;
    fits = s.fits;
    decodes = s.decodes;
  }

  pub Holds-Agree :
      (lo : ℕ) (ns : List ℕ) (hi : ℕ) (ps : List Bytes)
      → IsAscending lo ns hi
      → Agree lo hi d e
      → Holds c d ns ps
      → Holds c e ns ps
  Holds-Agree lo [] hi [] asc a h = h
  Holds-Agree lo [] hi (p ∷ ps) asc a h = h
  Holds-Agree lo (n ∷ ns) hi [] asc a h = h
  Holds-Agree lo (n ∷ ns) hi (p ∷ ps) asc a h =
      let below = IsAscending-le (suc n) ns hi asc.1 in
      (
        Stored-agree n p (a n asc.0 below) h.0,
        Holds-Agree (suc n) ns hi ps asc.1 (λ m x y. a m (omega arith) y) h.1,
      )

pub total-Agree :
    (d e : Dir) (lo : ℕ) (ns : List ℕ) (hi : ℕ)
    → IsAscending lo ns hi
    → Agree lo hi d e
    → total e ns ≡ total d ns
total-Agree d e lo [] hi asc a = refl
total-Agree d e lo (n ∷ ns) hi asc a =
    let below = IsAscending-le (suc n) ns hi asc.1 in
    omega (
      arith,
      ap charge_of (a n asc.0 below),
      total-Agree d e (suc n) ns hi asc.1 (λ m x y. a m (omega arith) y),
    )

pub total-append :
    (d : Dir) (ns : List ℕ) (n : ℕ)
    → total d (ns ++ (n ∷ [])) ≡ total d ns + charge_of (d.files (rec n))
total-append d [] n = omega arith
total-append d (m ∷ ns) n = omega (arith, total-append d ns n)

pub Holds-append :
    (c : Codec) (d : Dir) (ns : List ℕ) (n : ℕ) (ps : List Bytes) (p : Bytes)
    → Holds c d ns ps
    → Stored c d n p
    → Holds c d (ns ++ (n ∷ [])) (ps ++ (p ∷ []))
Holds-append c d [] n [] p h s = (s, tt)
Holds-append c d (m ∷ ns) n (x ∷ ps) p h s = (h.0, Holds-append c d ns n ps p h.1 s)
Holds-append c d [] n (x ∷ ps) p h s = absurd h
Holds-append c d (m ∷ ns) n [] p h s = absurd h

-- Only the directory changed, and the records are as they were.
pub IsQueue-Agree :
    (c : Codec) (q : Disk) (d : Dir) (ps : List Bytes)
    → IsQueue c q ps
    → IsSettled d
    → Agree 0 q.next q.dir d
    → IsQueue c (record q { dir = d }) ps
IsQueue-Agree c q d ps i s a = record {
  settled = s;
  held = Holds-Agree c q.dir d 0 q.names q.next ps i.ascending a i.held;
  ascending = i.ascending;
  counted = i.counted;
  charged = rw (total-Agree q.dir d 0 q.names q.next i.ascending a) i.charged;
  within = i.within;
}
