-- ===== src/Queue/Disk/Deliver.antt =====
-- internal/queue/disk_linux.go, `Next` and `Ack`: the head of the queue is shown, and then dropped.
use observe_agent.Base.{
  ℕ, ◌≤◌, ◌≡◌, refl, ap, ◌∙◌, sym, subst, true, false, Bool, List, [], ◌∷◌, ◌⊎◌, inl, inr, Bytes,
  arith, length, if◌then◌else◌,
}
use observe_agent.Queue.Files.{
  rec, Dir, Faults, Fault, pass, fail, crash, ok, err, crashed, io_error, readable, read, outcome,
  unchanged,
}
use observe_agent.Queue.Files.Laws.{control-rec}
use observe_agent.Queue.Files.AtName.{look-files}
use observe_agent.Queue.Codec.{Codec}
use observe_agent.Queue.Disk.{
  Disk, Result, done, failed, died, io, spool_closed, max_record, next, next_from,
}
use observe_agent.Queue.Disk.Settled.{look-IsSettled, IsSettled}
use observe_agent.Queue.Disk.Fifo.{
  Stored, Holds, IsAscending, total, IsQueue, Agree, Holds-Agree, total-Agree,
}

-- The item is the head of the queue.
abbrev pub IsHead : ℕ → Bytes → List ℕ → List Bytes → Type 0
IsHead n x [] ps = ⊥
IsHead n x (m ∷ ns) [] = ⊥
IsHead n x (m ∷ ns) (p ∷ ps) = (n ≡ m) × (x ≡ p)

-- What `Next` may do to a queue that holds `ps`: it shows the head or reports, and drops nothing.
pub record Peeks (c : Codec) (q : Disk) (ps : List Bytes) (r : Result (ℕ × Bytes)) (q' : Disk)
    : Type 0 where
  pub queue : IsQueue c q' ps
  pub names : q'.names ≡ q.names
  pub item : (n : ℕ) (x : Bytes) → r ≡ done (n, x) → IsHead n x q.names ps

readable-Stored :
    (c : Codec) (d : Dir) (n : ℕ) (p : Bytes) (s : Stored c d n p)
    → readable max_record (d.files (rec n)) ≡ ok s.file.contents
readable-Stored c d n p s = rw s.found (ground (arith, s.readable, s.fits))

module _ (c : Codec) (env : Faults) where
  read-Stored :
      (d : Dir) (n : ℕ) (p : Bytes) (s : Stored c d n p)
      → ((read env (rec n) max_record d).0 ≡ ok s.file.contents)
        ⊎ (((read env (rec n) max_record d).0 ≡ err io_error)
            ⊎ ((read env (rec n) max_record d).0 ≡ crashed))
  read-Stored d n p s = go (env.fault d.ticks)
    where
      go :
          (x : Fault)
          → let r =
              outcome x
                (env.cut d.ticks)
                (λ fs. readable max_record (fs (rec n)))
                unchanged
                unchanged
                d in
            (r.0 ≡ ok s.file.contents) ⊎ ((r.0 ≡ err io_error) ⊎ (r.0 ≡ crashed))
      go pass = inl (readable-Stored c d n p s)
      go fail = inr (inl refl)
      go crash = inr (inr refl)

  -- A head that is stored is shown or, on a fault, kept: it is never quarantined.
  next_from-Stored :
      (n : ℕ) (ns : List ℕ) (p : Bytes) (q : Disk)
      → Stored c q.dir n p
      → let (r, q') = next_from c env (n ∷ ns) q in
        (q' ≡ record q { dir = (read env (rec n) max_record q.dir).1; names = n ∷ ns })
        × ((r ≡ done (n, p)) ⊎ ((r ≡ failed (io io_error)) ⊎ (r ≡ died)))
  unfolding next_from
  next_from-Stored n ns p q s = ground (arith, read-Stored q.dir n p s, s.decodes)

  look-Agree :
      (d : Dir) (n lo hi : ℕ) → IsSettled d → Agree lo hi d (read env (rec n) max_record d).1
  look-Agree d n lo hi s m x y =
      look-files env (rec m) d (s.durable (rec m) (control-rec ".pending" m))
        (λ fs. readable max_record (fs (rec n)))

  -- Reading the head keeps the queue.
  after_read :
      (q : Disk) (n : ℕ) (ns : List ℕ) (ps : List Bytes)
      → q.names ≡ n ∷ ns
      → IsQueue c q ps
      → IsSettled (read env (rec n) max_record q.dir).1
      → IsQueue c (record q { dir = (read env (rec n) max_record q.dir).1; names = n ∷ ns }) ps
  after_read q n ns ps e i s =
      let d = (read env (rec n) max_record q.dir).1 in
      let asc = subst (λ l. IsAscending 0 l q.next) e i.ascending in
      let agree = look-Agree q.dir n 0 q.next i.settled in
      record {
        settled = s;
        held =
            Holds-Agree c q.dir d 0 (n ∷ ns) q.next ps asc agree
              (subst (λ l. Holds c q.dir l ps) e i.held);
        ascending = asc;
        counted = subst (λ l. length l ≤ q.count) e i.counted;
        charged =
            rw (total-Agree q.dir d 0 (n ∷ ns) q.next asc agree)
              (subst (λ l. total q.dir l ≤ q.bytes) e i.charged);
        within = i.within;
      }

  next_from-Peeks :
      (q : Disk) (ns : List ℕ) (ps : List Bytes)
      → q.names ≡ ns
      → IsQueue c q ps
      → Peeks c q ps (next_from c env ns q).0 (next_from c env ns q).1
  next_from-Peeks q [] ps e i =
      unfold next_from in
      record {
        queue = record {
          settled = i.settled;
          held = rw e at i.held;
          ascending = rw e at i.ascending;
          counted = omega arith;
          charged = omega arith;
          within = i.within;
        };
        names = sym e;
        item = λ n x h. cc;
      }
  next_from-Peeks q (n ∷ ns) [] e i = absurd (subst (λ l. Holds c q.dir l []) e i.held)
  next_from-Peeks q (n ∷ ns) (p ∷ ps) e i =
      let s = (subst (λ l. Holds c q.dir l (p ∷ ps)) e i.held).0 in
      let f = next_from-Stored n ns p q s in
      record {
        queue = rw f.0 (
            after_read q n ns (p ∷ ps) e i
              (look-IsSettled env (λ fs. readable max_record (fs (rec n))) q.dir i.settled));
        names = ap (λ (x : Disk). x.names) f.0 ∙ sym e;
        item = λ m x h. rw e (shown m x (next_from c env (n ∷ ns) q).0 f.1 h);
      }
    where
      shown :
          (m : ℕ) (x : Bytes) (r : Result (ℕ × Bytes))
          → (r ≡ done (n, p)) ⊎ ((r ≡ failed (io io_error)) ⊎ (r ≡ died))
          → r ≡ done (m, x)
          → (m ≡ n) × (x ≡ p)
      shown m x r (inl f) h = (cc, cc)
      shown m x r (inr (inl f)) h = cc
      shown m x r (inr (inr f)) h = cc

-- On every outcome `Next` leaves the queue holding the same payloads under the same names, and what
-- it returns is the head with its payload.
pub next-Peeks :
    (c : Codec) (env : Faults) (ended : Bool) (q : Disk) (ps : List Bytes)
    → IsQueue c q ps
    → Peeks c q ps (next c env ended q).0 (next c env ended q).1
unfolding next
next-Peeks c env true q ps i = record { queue = i; names = refl; item = λ n x h. cc }
next-Peeks c env false q ps i =
    elim q.closed
      as (λ b.
        let r = if b then (failed spool_closed, q) else next_from c env q.names q in
        Peeks c q ps r.0 r.1) [
          | true ↦ record { queue = i; names = refl; item = λ n x h. cc }
          | false ↦ next_from-Peeks c env q q.names ps refl i
        ]

next_from_pass :
    (c : Codec) (env : Faults) (n : ℕ) (ns : List ℕ) (p : Bytes) (q : Disk)
    → Stored c q.dir n p
    → env.fault q.dir.ticks ≡ pass
    → (next_from c env (n ∷ ns) q).0 ≡ done (n, p)
unfolding next_from
next_from_pass c env n ns p q s f = ground (arith, readable-Stored c q.dir n p s, s.decodes)

-- If the context has not ended, the spool is open and holds something, and the read does not fail,
-- `Next` returns the head with its payload.
pub next_delivers :
    (c : Codec) (env : Faults) (q : Disk) (n : ℕ) (ns : List ℕ) (p : Bytes) (ps : List Bytes)
    → IsQueue c q (p ∷ ps)
    → q.names ≡ n ∷ ns
    → q.closed ≡ false
    → env.fault q.dir.ticks ≡ pass
    → (next c env false q).0 ≡ done (n, p)
unfolding next
next_delivers c env q n ns p ps i e o f =
    let s = (subst (λ l. Holds c q.dir l (p ∷ ps)) e i.held).0 in
    ground (arith, next_from_pass c env n ns p q s f)
