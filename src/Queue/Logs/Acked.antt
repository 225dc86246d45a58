-- ===== src/Queue/Logs/Acked.antt =====
-- internal/queue/logs_disk_linux.go, `Ack`: what it leaves on every outcome.
use observe_agent.Base.{
  ℕ, ◌+◌, ◌-◌, ◌≤◌, ◌≡◌, refl, sym, ap, ◌∙◌, subst, ◌≢◌, ◌⊎◌, inl, inr, Bool, true, false, some,
  List, [], ◌∷◌, arith, ◌==◌, Bool-cases, length, Bytes,
}
use observe_agent.Queue.Files.{
  Files, rec, Dir, Faults, ok, err, crashed, IoError, io_error, readable, read, remove, sync_dir,
}
use observe_agent.Queue.Files.Laws.{rec-rec}
use observe_agent.Queue.Files.AtName.{read-found, remove-files, remove-failed}
use observe_agent.Queue.Disk.{Error, done, failed, died, io, charge, cancelled, not_head}
use observe_agent.Queue.Disk.Put.{Io-cases}
use observe_agent.Queue.Disk.Fifo.{charge_of}
use observe_agent.Queue.Logs.{LogDisk, ack, ack_head, drop_head}
use observe_agent.Queue.Logs.Names.{forget}
use observe_agent.Queue.Logs.Record.{LogCodec, max_record}
use observe_agent.Queue.Logs.Rows.{Row, entries, first_ready, drop_ready, ready_names}
use observe_agent.Queue.Logs.Held.{
  IsLogs, StoredRow, Settled, IsLogs-Agree, IsLogs-flags, looked-IsLogs, look_same, head-StoredRow,
}
use observe_agent.Queue.Logs.Mark.{AgreeBut}
use observe_agent.Queue.Logs.Dropped.{dropped-IsLogs, forget-first}
use observe_agent.Queue.Logs.Deliver.{Gone, Acks}

module _ (env : Faults) (n : ℕ) (d : Dir) (settled : Settled d) where
  removed-Settled : Settled (remove env (rec n) d).1
  removed-Settled m = elim (remove-files env (rec m) d (settled m) (rec n)) [
    | inl e ↦ rw e (settled m)
    | inr e ↦ rw e.1 refl
  ]

  synced-Settled : Settled (sync_dir env (remove env (rec n) d).1).1
  synced-Settled m =
      rw (look_same env (remove env (rec n) d).1 (λ _. ok tt) removed-Settled m) (removed-Settled m)

  removed-AgreeBut : AgreeBut n d (sync_dir env (remove env (rec n) d).1).1
  removed-AgreeBut m ne =
      look_same env (remove env (rec n) d).1 (λ _. ok tt) removed-Settled m
      ∙ elim (remove-files env (rec m) d (settled m) (rec n)) [
        | inl e ↦ e
        | inr e ↦ cc (rw rec-rec at e.0, ne)
      ]

module _ (env : Faults) (n : ℕ) (ns : List ℕ) (id : Bytes) (size : ℕ) (q : LogDisk) where
  abbrev d1 : Dir
  d1 = (remove env (rec n) q.dir).1

  abbrev d2 : Dir
  d2 = (sync_dir env d1).1

  -- The outcomes of `drop_head`.
  drop_head-cases :
      (((remove env (rec n) q.dir).0 ≢ ok tt)
        × (((e : Error) × (drop_head env n ns id size q ≡ (failed e, record q { dir = d1 })))
            ⊎ (drop_head env n ns id size q ≡ (died, record q { dir = d1 }))))
      ⊎ (((e : Error) × (drop_head env n ns id size q
              ≡ (failed e, record q { dir = d2; closed = true })))
          ⊎ ((drop_head env n ns id size q ≡ (died, record q { dir = d2 }))
              ⊎ (drop_head env n ns id size q ≡ (
                done tt,
                record q {
                  dir = d2;
                  admissions = forget id q.admissions;
                  names = ns;
                  count = q.count - 1;
                  bytes = q.bytes - charge size;
                },
              ))))
  unfolding drop_head
  drop_head-cases = elim (Io-cases (remove env (rec n) q.dir).0) [
    | inr (inl (e, r)) ↦ inl (λ h. cc, inl (io e, ground arith))
    | inr (inr r) ↦ inl (λ h. cc, inr (ground arith))
    | inl r ↦ elim (Io-cases (sync_dir env d1).0) [
      | inl s ↦ inr (inr (inr (ground arith)))
      | inr (inl (e, s)) ↦ inr (inl (io e, ground arith))
      | inr (inr s) ↦ inr (inr (inl (ground arith)))
    ]
  ]

module _ (c : LogCodec) (env : Faults) (q : LogDisk) (rs : List Row) (i : IsLogs c q rs) (r : Row)
    (s : StoredRow c q.dir r) (first : first_ready rs ≡ some r) (ns : List ℕ)
    (rest : ready_names (drop_ready rs) ≡ ns) where
  abbrev e2 : Dir
  e2 = (sync_dir env (remove env (rec r.seq) q.dir).1).1

  drop-IsLogs :
      (count bytes : ℕ)
      → q.count ≤ count + 1
      → count ≤ q.count
      → q.bytes ≤ bytes + charge_of (q.dir.files (rec r.seq))
      → bytes ≤ q.bytes
      → IsLogs c
          (record q {
            dir = e2;
            admissions = entries (drop_ready rs);
            names = ready_names (drop_ready rs);
            count = count;
            bytes = bytes;
          })
          (drop_ready rs)
  drop-IsLogs count bytes =
      dropped-IsLogs c q rs r e2 count bytes i first (removed-AgreeBut env r.seq q.dir i.settled)
        (synced-Settled env r.seq q.dir i.settled)

  not_removed :
      (remove env (rec r.seq) q.dir).0 ≢ ok tt
      → IsLogs c (record q { dir = (remove env (rec r.seq) q.dir).1 }) rs
  not_removed h =
      IsLogs-Agree c q (remove env (rec r.seq) q.dir).1 rs i
        (removed-Settled env r.seq q.dir i.settled)
        (λ m lo hi. remove-failed env (rec r.seq) (rec m) q.dir (i.settled m) h)

  gone : Gone c rs (record q { dir = e2 })
  gone = drop-IsLogs q.count q.bytes (omega arith) (omega arith) (omega arith) (omega arith)

  forgotten : forget r.id q.admissions ≡ entries (drop_ready rs)
  forgotten = rw i.admitted (forget-first rs r i.distinct first)

  dropped :
      IsLogs c
        (record q {
          dir = e2;
          admissions = forget r.id q.admissions;
          names = ns;
          count = q.count - 1;
          bytes = q.bytes - charge (length s.file.contents);
        })
        (drop_ready rs)
  dropped =
      rw (forgotten, ← rest)
        (drop-IsLogs (q.count - 1) (q.bytes - charge (length s.file.contents)) (omega arith)
          (omega arith) (omega (arith, ap charge_of s.found)) (omega arith))

  pub drop_head-Acks :
      Acks c r.seq rs
        (drop_head env r.seq ns r.id (length s.file.contents) q).0
        (drop_head env r.seq ns r.id (length s.file.contents) q).1
  drop_head-Acks = elim (drop_head-cases env r.seq ns r.id (length s.file.contents) q) [
    | inl (h, inl (e, x)) ↦ rw x (inl (not_removed h))
    | inl (h, inr x) ↦ rw x (inl (not_removed h))
    | inr (inl (e, x)) ↦
        rw x (inr (refl, IsLogs-flags c _ (drop_ready rs) true q.wake q.open_lock gone))
    | inr (inr (inl x)) ↦ rw x (inr gone)
    | inr (inr (inr x)) ↦ rw x (dropped, (r, first, refl))
  ]

module _ (c : LogCodec) (env : Faults) (n : ℕ) (ns : List ℕ) (q : LogDisk) where
  abbrev d : Dir
  d = (read env (rec n) max_record q.dir).1

  ack_head-ok :
      (r : Row) (s : StoredRow c q.dir r)
      → (read env (rec n) max_record q.dir).0 ≡ ok s.file.contents
      → ack_head c env n ns q
        ≡ drop_head env n ns r.id (length s.file.contents) (record q { dir = d })
  unfolding ack_head
  ack_head-ok r s h = ground (arith, s.decodes)

  ack_head-err :
      (e : IoError)
      → (read env (rec n) max_record q.dir).0 ≡ err e
      → ack_head c env n ns q ≡ (failed (io e), record q { dir = d })
  unfolding ack_head
  ack_head-err e h = ground arith

  ack_head-crashed :
      (read env (rec n) max_record q.dir).0 ≡ crashed
      → ack_head c env n ns q ≡ (died, record q { dir = d })
  unfolding ack_head
  ack_head-crashed h = ground arith

module _ (c : LogCodec) (env : Faults) (q : LogDisk) (rs : List Row) (i : IsLogs c q rs)
    (receipt : ℕ) where
  ack_head-Acks :
      (ns : List ℕ)
      → q.names ≡ receipt ∷ ns
      → Acks c receipt rs (ack_head c env receipt ns q).0 (ack_head c env receipt ns q).1
  ack_head-Acks ns e =
      let (r, first, same, s, rest) =
        head-StoredRow c q.dir rs receipt ns (sym i.delivery ∙ e) i.held in
      go r first same s rest
    where
      go :
          (r : Row)
          → first_ready rs ≡ some r
          → r.seq ≡ receipt
          → StoredRow c q.dir r
          → ready_names (drop_ready rs) ≡ ns
          → Acks c receipt rs (ack_head c env receipt ns q).0 (ack_head c env receipt ns q).1
      go r first same s rest =
          subst (λ k. Acks c k rs (ack_head c env k ns q).0 (ack_head c env k ns q).1) same
            (let look = λ (fs : Files). readable max_record (fs (rec r.seq)) in
              let j = looked-IsLogs c env q rs look i in
              let e1 = (read env (rec r.seq) max_record q.dir).1 in
              let s' : StoredRow c e1 r = record {
                file = s.file;
                found = look_same env q.dir look i.settled r.seq ∙ s.found;
                readable = s.readable;
                contents = s.contents;
                fits = s.fits;
                decodes = s.decodes;
                normal = s.normal;
                identified = s.identified;
              } in
              elim (read-found env (rec r.seq) max_record q.dir s.file s.found s.readable s.fits) [
                | inl x ↦
                    rw (ack_head-ok c env r.seq ns q r s x)
                      (drop_head-Acks c env (record q { dir = e1 }) rs j r s' first ns rest)
                | inr (inl x) ↦ rw (ack_head-err c env r.seq ns q io_error x) (inl j)
                | inr (inr x) ↦ rw (ack_head-crashed c env r.seq ns q x) (inl j)
              ])

  ack-cases :
      (ended : Bool)
      → ((e : Error) × (ack c env ended receipt q ≡ (failed e, q)))
        ⊎ ((ns : List ℕ) × (q.names ≡ receipt ∷ ns)
            × (ack c env ended receipt q ≡ ack_head c env receipt ns q))
  unfolding ack
  ack-cases true = inl (cancelled, refl)
  ack-cases false = go q.names refl (Bool-cases q.closed)
    where
      go :
          (names : List ℕ)
          → q.names ≡ names
          → (q.closed ≡ true) ⊎ (q.closed ≡ false)
          → ((e : Error) × (ack c env false receipt q ≡ (failed e, q)))
            ⊎ ((ns : List ℕ) × (q.names ≡ receipt ∷ ns)
                × (ack c env false receipt q ≡ ack_head c env receipt ns q))
      go ns e (inl x) = inl (not_head, ground arith)
      go [] e (inr x) = inl (not_head, ground arith)
      go (n ∷ ns) e (inr x) = elim (Bool-cases (n == receipt)) [
        | inl y ↦ inr (ns, ground arith, ground arith)
        | inr y ↦ inl (not_head, ground arith)
      ]

  -- On every outcome of `Ack` no row is lost but the named first ready one: without an error it is
  -- gone from the files and from the memory; after an error or a crash the rows are as they were,
  -- or its file is gone, and the spool is closed or dead.
  pub ack-Acks :
      (ended : Bool) → Acks c receipt rs (ack c env ended receipt q).0 (ack c env ended receipt q).1
  ack-Acks ended = elim (ack-cases ended) [
    | inl (e, x) ↦ rw x (inl i)
    | inr (ns, e, x) ↦ rw x (ack_head-Acks ns e)
  ]
