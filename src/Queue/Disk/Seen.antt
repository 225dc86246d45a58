-- ===== src/Queue/Disk/Seen.antt =====
-- internal/queue/disk_linux.go: a receipt that `Next` has given stays with its payload, whatever is
-- called between it and its `Ack`.
use observe_agent.Base.{
  ℕ, suc, ◌+◌, ◌≤◌, ◌<◌, ◌≡◌, refl, sym, ◌∙◌, ◌⊎◌, inl, inr, Bool, List, [], ◌∷◌, ◌++◌, arith,
  Bytes,
}
use observe_agent.Queue.Files.{rec, read, Dir, Faults}
use observe_agent.Queue.Codec.{Codec}
use observe_agent.Queue.Disk.{
  Disk, Error, failed, next, next_from, quarantine, ack, drop_head, max_record,
}
use observe_agent.Queue.Disk.Fifo.{Holds, IsAscending, IsAscending-le}
use observe_agent.Queue.Disk.Deliver.{IsHead}

-- The receipts that `Next` has given, with their payloads.
abbrev pub Seen : Type 0
Seen = List (ℕ × Bytes)

abbrev pub Showed : ℕ → Bytes → Seen → Type 0
Showed id x [] = ⊥
Showed id x ((n, y) ∷ seen) = ((n ≡ id) × (y ≡ x)) ⊎ Showed id x seen

-- Where the names have the receipt, the payload is this one.
abbrev Keeps : ℕ → Bytes → List ℕ → List Bytes → Type 0
Keeps id x [] ps = Unit
Keeps id x (n ∷ ns) [] = Unit
Keeps id x (n ∷ ns) (p ∷ ps) = (n ≡ id → p ≡ x) × Keeps id x ns ps

-- Every receipt that was given is below the next sequence number, and keeps its payload.
abbrev pub Known : Seen → ℕ → List ℕ → List Bytes → Type 0
Known [] next ns ps = Unit
Known ((id, x) ∷ seen) next ns ps = (id < next) × (Keeps id x ns ps) × Known seen next ns ps

Keeps-append :
    (c : Codec) (d : Dir) (id : ℕ) (x : Bytes) (ns : List ℕ) (ps : List Bytes) (n : ℕ) (p : Bytes)
    → id < n
    → Holds c d ns ps
    → Keeps id x ns ps
    → Keeps id x (ns ++ (n ∷ [])) (ps ++ (p ∷ []))
Keeps-append c d id x [] [] n p lt h k = (λ e. absurd (omega (arith, e)), tt)
Keeps-append c d id x [] (y ∷ ps) n p lt h k = absurd h
Keeps-append c d id x (m ∷ ns) [] n p lt h k = absurd h
Keeps-append c d id x (m ∷ ns) (y ∷ ps) n p lt h k =
    (k.0, Keeps-append c d id x ns ps n p lt h.1 k.1)

pub Known-append :
    (c : Codec) (d : Dir) (seen : Seen) (n m : ℕ) (ns : List ℕ) (ps : List Bytes) (p : Bytes)
    → n ≤ m
    → Holds c d ns ps
    → Known seen n ns ps
    → Known seen (m + 1) (ns ++ (m ∷ [])) (ps ++ (p ∷ []))
Known-append c d [] n m ns ps p le h k = tt
Known-append c d ((id, x) ∷ seen) n m ns ps p le h k = (
  omega (arith, k.0),
  Keeps-append c d id x ns ps m p (omega (arith, k.0)) h k.1,
  Known-append c d seen n m ns ps p le h k.2,
)

pub Known-later :
    (seen : Seen) (n m : ℕ) (ns : List ℕ) (ps : List Bytes)
    → n ≤ m
    → Known seen n ns ps
    → Known seen m ns ps
Known-later [] n m ns ps le k = tt
Known-later ((id, x) ∷ seen) n m ns ps le k =
    (omega (arith, k.0), k.1, Known-later seen n m ns ps le k.2)

pub Known-tail :
    (seen : Seen) (next n : ℕ) (ns : List ℕ) (p : Bytes) (ps : List Bytes)
    → Known seen next (n ∷ ns) (p ∷ ps)
    → Known seen next ns ps
Known-tail [] next n ns p ps k = tt
Known-tail ((id, x) ∷ seen) next n ns p ps k = (k.0, k.1.1, Known-tail seen next n ns p ps k.2)

-- The payload of a receipt that was given and is the head.
pub Known-head :
    (seen : Seen) (next id : ℕ) (ns : List ℕ) (p : Bytes) (ps : List Bytes) (x : Bytes)
    → Showed id x seen
    → Known seen next (id ∷ ns) (p ∷ ps)
    → p ≡ x
Known-head [] next id ns p ps x s k = absurd s
Known-head ((m, y) ∷ seen) next id ns p ps x (inl (e, f)) k = k.1.0 (sym e) ∙ f
Known-head ((m, y) ∷ seen) next id ns p ps x (inr s) k = Known-head seen next id ns p ps x s k.2

Keeps-below :
    (id : ℕ) (x : Bytes) (lo hi : ℕ) (ns : List ℕ) (ps : List Bytes)
    → id < lo
    → IsAscending lo ns hi
    → Keeps id x ns ps
Keeps-below id x lo hi [] ps lt a = tt
Keeps-below id x lo hi (n ∷ ns) [] lt a = tt
Keeps-below id x lo hi (n ∷ ns) (p ∷ ps) lt a = (
  λ e. absurd (omega (arith, a.0, e)),
  Keeps-below id x (suc n) hi ns ps (omega (arith, a.0)) a.1,
)

-- What `Next` has shown is kept, since names are in ascending order.
pub Known-shown :
    (seen : Seen) (id : ℕ) (x : Bytes) (hi : ℕ) (ns : List ℕ) (ps : List Bytes)
    → IsAscending 0 ns hi
    → IsHead id x ns ps
    → Known seen hi ns ps
    → Known ((id, x) ∷ seen) hi ns ps
Known-shown seen id x hi [] ps a h k = absurd h
Known-shown seen id x hi (n ∷ ns) [] a h k = absurd h
Known-shown seen id x hi (n ∷ ns) (p ∷ ps) a h k = (
  omega (arith, h.0, IsAscending-le (suc n) ns hi a.1),
  (λ e. sym h.1, Keeps-below id x (suc n) hi ns ps (omega (arith, h.0)) a.1),
  k,
)

module _ (c : Codec) (env : Faults) where
  quarantine_sequence : (n : ℕ) (q : Disk) → (quarantine env n q).1.next ≡ q.next
  unfolding quarantine
  quarantine_sequence n q = ground arith

  next_from_sequence : (ns : List ℕ) (q : Disk) → (next_from c env ns q).1.next ≡ q.next
  unfolding next_from
  next_from_sequence [] q = refl
  next_from_sequence (n ∷ ns) q =
      let here = record q { dir = (read env (rec n) max_record q.dir).1; names = n ∷ ns } in
      let a = quarantine_sequence n here in
      let b = next_from_sequence ns (quarantine env n here).1 in ground (arith, a, b)

  pub next_sequence : (ended : Bool) (q : Disk) → (next c env ended q).1.next ≡ q.next
  unfolding next
  next_sequence ended q = let h = next_from_sequence q.names q in ground (arith, h)

pub ack_sequence :
    (env : Faults) (ended : Bool) (id : ℕ) (q : Disk) → (ack env ended id q).1.next ≡ q.next
unfolding ack drop_head
ack_sequence env ended id q = ground arith

pub ack_names :
    (env : Faults) (ended : Bool) (id : ℕ) (q : Disk) (e : Error)
    → (ack env ended id q).0 ≡ failed e
    → (ack env ended id q).1.names ≡ q.names
unfolding ack drop_head
ack_names env ended id q e h = ground arith
