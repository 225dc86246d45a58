-- ===== src/Queue/Logs/Deliver.antt =====
-- internal/queue/logs_disk_linux.go, `Next` and `Ack`: the first ready row is shown, and then dropped.
use observe_agent.Base.{
  ℕ, ◌≡◌, refl, sym, ◌∙◌, subst, ◌⊎◌, inl, inr, Bool, true, false, none, some, List, [], ◌∷◌, arith,
  Bool-cases, Bytes,
}
use observe_agent.Queue.Files.{
  Dir, rec, Faults, ok, err, crashed, IoError, io_error, readable, read,
}
use observe_agent.Queue.Files.AtName.{read-found}
use observe_agent.Queue.Disk.{Result, done, failed, waiting, died, io, cancelled, spool_closed}
use observe_agent.Queue.Logs.{LogDisk, next, next_from}
use observe_agent.Queue.Logs.Record.{LogCodec, max_record}
use observe_agent.Queue.Logs.Rows.{Row, entries, first_ready, drop_ready, ready_names}
use observe_agent.Queue.Logs.Held.{IsLogs, StoredRow, looked-IsLogs, head-StoredRow}

-- What `Next` may return and leave, of a spool that holds `rs`.
abbrev pub Shows : LogCodec → List Row → Result (ℕ × Bytes) → LogDisk → Type 0
Shows c rs (done (n, x)) q =
    IsLogs c q rs × ((r : Row) × (first_ready rs ≡ some r) × (r.seq ≡ n) × (r.payload ≡ x))
Shows c rs waiting q = IsLogs c q rs × (first_ready rs ≡ none)
Shows c rs (failed e) q = IsLogs c q rs
Shows c rs died q = IsLogs c q rs

none_ready : (rs : List Row) → ready_names rs ≡ [] → first_ready rs ≡ none
none_ready [] h = refl
none_ready (r ∷ rs) h = ground (arith, none_ready rs)

module _ (c : LogCodec) (env : Faults) (q : LogDisk) (n : ℕ) (ns : List ℕ) where
  abbrev d : Dir
  d = (read env (rec n) max_record q.dir).1

  next_from-ok :
      (r : Row) (s : StoredRow c q.dir r)
      → r.seq ≡ n
      → (read env (rec n) max_record q.dir).0 ≡ ok s.file.contents
      → next_from c env (n ∷ ns) q ≡ (done (n, r.payload), record q { dir = d; names = n ∷ ns })
  unfolding next_from
  next_from-ok r s same h = ground (arith, s.decodes)

  next_from-err :
      (e : IoError)
      → (read env (rec n) max_record q.dir).0 ≡ err e
      → next_from c env (n ∷ ns) q ≡ (failed (io e), record q { dir = d; names = n ∷ ns })
  unfolding next_from
  next_from-err e h = ground arith

  next_from-crashed :
      (read env (rec n) max_record q.dir).0 ≡ crashed
      → next_from c env (n ∷ ns) q ≡ (died, record q { dir = d; names = n ∷ ns })
  unfolding next_from
  next_from-crashed h = ground arith

  same_names :
      (e : Dir) → q.names ≡ n ∷ ns → record q { dir = e } ≡ record q { dir = e; names = n ∷ ns }
  same_names e h = ground arith

module _ (c : LogCodec) (env : Faults) (q : LogDisk) (rs : List Row) (i : IsLogs c q rs) where
  next_from-Shows :
      (ns : List ℕ) → q.names ≡ ns → Shows c rs (next_from c env ns q).0 (next_from c env ns q).1
  next_from-Shows [] e =
      let empty : record q { names = [] } ≡ q = ground arith in
      unfold next_from in
      (subst (λ (x : LogDisk). IsLogs c x rs) (sym empty) i, none_ready rs (sym i.delivery ∙ e))
  next_from-Shows (n ∷ ns) e =
      let (r, first, same, s, _) = head-StoredRow c q.dir rs n ns (sym i.delivery ∙ e) i.held in
      let j = looked-IsLogs c env q rs (λ fs. readable max_record (fs (rec n))) i in
      let j' = subst (λ (x : LogDisk). IsLogs c x rs) (same_names c env q n ns _ e) j in
      elim (read-found env (rec n) max_record q.dir s.file (rw (← same) s.found) s.readable
        s.fits) [
          | inl x ↦ rw (next_from-ok c env q n ns r s same x) (j', (r, first, same, refl))
          | inr (inl x) ↦ rw (next_from-err c env q n ns io_error x) j'
          | inr (inr x) ↦ rw (next_from-crashed c env q n ns x) j'
        ]

  next-eq :
      (ended : Bool)
      → (next c env ended q ≡ (failed cancelled, q))
        ⊎ ((next c env ended q ≡ (failed spool_closed, q))
            ⊎ (next c env ended q ≡ next_from c env q.names q))
  unfolding next
  next-eq true = inl refl
  next-eq false = elim (Bool-cases q.closed) [
    | inl e ↦ inr (inl (ground arith))
    | inr e ↦ inr (inr (ground arith))
  ]

  -- On every outcome `Next` leaves the rows; an item is the first ready row with its payload, and it
  -- waits only if no row is ready.
  pub next-Shows : (ended : Bool) → Shows c rs (next c env ended q).0 (next c env ended q).1
  next-Shows ended = elim (next-eq ended) [
    | inl e ↦ rw e i
    | inr (inl e) ↦ rw e i
    | inr (inr e) ↦ rw e (next_from-Shows q.names refl)
  ]

-- The file of the first ready row is gone, and the memory does not say so yet.
abbrev pub Gone : LogCodec → List Row → LogDisk → Type 0
Gone c rs q =
    IsLogs c
      (record q { admissions = entries (drop_ready rs); names = ready_names (drop_ready rs) })
      (drop_ready rs)

-- What `Ack` of a receipt may return and leave, of a spool that held `rs`.
abbrev pub Acks : LogCodec → ℕ → List Row → Result (Unit {0}) → LogDisk → Type 0
Acks c n rs (done _) q =
    IsLogs c q (drop_ready rs) × ((r : Row) × (first_ready rs ≡ some r) × (r.seq ≡ n))
Acks c n rs (failed e) q = IsLogs c q rs ⊎ ((q.closed ≡ true) × Gone c rs q)
Acks c n rs died q = IsLogs c q rs ⊎ Gone c rs q
Acks c n rs waiting q = ⊥
