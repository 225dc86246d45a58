-- ===== src/Queue/Logs/Activate.antt =====
-- internal/queue/logs_disk_linux.go, `Activate`: an admitted row becomes ready.
use observe_agent.Base.{
  ℕ, ◌≡◌, refl, sym, ap, ◌∙◌, ◌≢◌, ◌⊎◌, inl, inr, Bool, true, false, none, some, List, [], ◌∷◌,
  ◌++◌, arith, ◌==◌, Bool-cases, Option-cases, Bytes,
}
use observe_agent.Queue.Files.{
  io_error, readable, read, Dir, rec, Faults, ok, err, crashed, IoError,
}
use observe_agent.Queue.Files.Steps.{settled_file}
use observe_agent.Queue.Files.AtName.{read-found}
use observe_agent.Queue.Disk.{io, cancelled, Error, Result, done, failed, waiting, died}
use observe_agent.Queue.Logs.{LogDisk, activate, activate_name, make_ready, write_replacement}
use observe_agent.Queue.Logs.Names.{find_admission, sort_names, holds_name}
use observe_agent.Queue.Logs.Record.{LogCodec, LogCodecLaws, max_record}
use observe_agent.Queue.Logs.Rows.{
  mark_ready, mark_absent, Row, entries, mark, ready_names, sort_names-append, ready_names-mark,
  ready_names-IsAscending,
}
use observe_agent.Queue.Logs.Held.{
  StoredRow-agree, looked-IsLogs, look_same, IsLogs, StoredRow, record_of, IsLogs-Agree,
  IsLogs-flags,
}
use observe_agent.Queue.Logs.Mark.{located, ready_bytes, marked-IsLogs}
use observe_agent.Queue.Logs.Replaced.{
  replacement-ok, replacement-Settled, replacement-AgreeBut, replacement_at,
}

-- The record of `id` is ready on the disk, though it is not among the names yet.
abbrev pub Marked : LogCodec → Bytes → List Row → LogDisk → Type 0
Marked c id rs q = IsLogs c (record q { names = ready_names (mark id rs) }) (mark id rs)

-- What `Activate` may return and leave, of a spool that held `rs`.
abbrev pub Activates : LogCodec → Bytes → List Row → Result (Unit {0}) → LogDisk → Type 0
Activates c id rs (done _) q = IsLogs c q (mark id rs)
Activates c id rs (failed e) q = IsLogs c q rs ⊎ ((q.closed ≡ true) × Marked c id rs q)
Activates c id rs died q = IsLogs c q rs ⊎ Marked c id rs q
Activates c id rs waiting q = ⊥

module _ (c : LogCodec) (laws : LogCodecLaws c) (env : Faults) (id : Bytes) (q : LogDisk)
    (rs : List Row) (i : IsLogs c q rs) (r : Row) (s : StoredRow c q.dir r)
    (l : find_admission id (entries rs) ≡ some r.seq) where
  abbrev bytes : Bytes
  bytes = ready_bytes c laws q.dir r s

  abbrev after : Dir
  after = (write_replacement env (rec r.seq) bytes q.dir).1

  after-Marked :
      after.files (rec r.seq) ≡ some (settled_file bytes)
      → IsLogs c (record q { dir = after; names = ready_names (mark id rs) }) (mark id rs)
  after-Marked =
      marked-IsLogs c laws q rs id r after i l s
        (replacement-AgreeBut env r.seq bytes q.dir i.settled)
        (replacement-Settled env r.seq bytes q.dir i.settled)

  after_either :
      IsLogs c (record q { dir = after }) rs
      ⊎ IsLogs c (record q { dir = after; names = ready_names (mark id rs) }) (mark id rs)
  after_either = elim (replacement_at env r.seq bytes q.dir i.settled) [
    | inr e ↦ inr (after-Marked e)
    | inl e ↦ inl (
        IsLogs-Agree c q after rs i (replacement-Settled env r.seq bytes q.dir i.settled)
          (λ m lo hi. agree m e (Bool-cases (r.seq == m))))
  ]
    where
      agree :
          (m : ℕ)
          → after.files (rec r.seq) ≡ q.dir.files (rec r.seq)
          → (r.seq == m ≡ true) ⊎ (r.seq == m ≡ false)
          → after.files (rec m) ≡ q.dir.files (rec m)
      agree m e (inl x) = let same : r.seq ≡ m = ground arith in rw (← same) e
      agree m e (inr x) = replacement-AgreeBut env r.seq bytes q.dir i.settled m x

  make_ready-done :
      (make_ready c env r.seq (record_of c r) q).0 ≡ done tt
      → ((write_replacement env (rec r.seq) bytes q.dir).0 ≡ ok tt)
        × ((make_ready c env r.seq (record_of c r) q).1
            ≡ record q { dir = after; names = sort_names (q.names ++ (r.seq ∷ [])); wake = true })
  unfolding make_ready
  make_ready-done h = (ground arith, ground arith)

  make_ready-failed :
      (e : Error)
      → (make_ready c env r.seq (record_of c r) q).0 ≡ failed e
      → (make_ready c env r.seq (record_of c r) q).1 ≡ record q { dir = after; closed = true }
  unfolding make_ready
  make_ready-failed e h = ground arith

  make_ready-died :
      (make_ready c env r.seq (record_of c r) q).0 ≡ died
      → (make_ready c env r.seq (record_of c r) q).1 ≡ record q { dir = after }
  unfolding make_ready
  make_ready-died h = ground arith

  make_ready-not_waiting : (make_ready c env r.seq (record_of c r) q).0 ≢ waiting
  unfolding make_ready
  make_ready-not_waiting h = ground arith

  -- The names are those of the ready rows, in order.
  sorted_names :
      holds_name r.seq q.names ≡ false
      → sort_names (q.names ++ (r.seq ∷ [])) ≡ ready_names (mark id rs)
  sorted_names h =
      let absent = rw i.delivery at h in
      let m = ready_names-mark id r.seq 0 rs q.manifest.next i.ascending l absent in
      rw i.delivery (
        sort_names-append 0 r.seq (ready_names rs) q.manifest.next
          (ready_names-IsAscending 0 rs q.manifest.next i.ascending) m.1 absent
        ∙ sym m.2)

  pub make_ready-Activates :
      holds_name r.seq q.names ≡ false
      → Activates c id rs
          (make_ready c env r.seq (record_of c r) q).0
          (make_ready c env r.seq (record_of c r) q).1
  make_ready-Activates h = go (make_ready c env r.seq (record_of c r) q).0 refl
    where
      closed_too :
          IsLogs c (record q { dir = after }) rs
            ⊎ IsLogs c (record q { dir = after; names = ready_names (mark id rs) }) (mark id rs)
          → IsLogs c (record q { dir = after; closed = true }) rs
            ⊎ ((true ≡ true) × Marked c id rs (record q { dir = after; closed = true }))
      closed_too (inl x) = inl (IsLogs-flags c _ rs true q.wake q.open_lock x)
      closed_too (inr x) = inr (refl, IsLogs-flags c _ (mark id rs) true q.wake q.open_lock x)

      go :
          (x : Result (Unit {0}))
          → (make_ready c env r.seq (record_of c r) q).0 ≡ x
          → Activates c id rs x (make_ready c env r.seq (record_of c r) q).1
      go (done tt) e =
          let (w, f) = make_ready-done e in
          rw (f, sorted_names h)
            (IsLogs-flags c _ (mark id rs) q.closed true q.open_lock
              (after-Marked (replacement-ok env r.seq bytes q.dir i.settled w)))
      go (failed x) e = rw (make_ready-failed x e) (closed_too after_either)
      go died e = rw (make_ready-died e) after_either
      go waiting e = absurd (make_ready-not_waiting e)

module _ (c : LogCodec) (laws : LogCodecLaws c) (env : Faults) (id : Bytes) (q : LogDisk)
    (rs : List Row) (i : IsLogs c q rs) where
  activate_name-ok :
      (r : Row) (s : StoredRow c q.dir r)
      → (read env (rec r.seq) max_record q.dir).0 ≡ ok s.file.contents
      → activate_name c env r.seq q
        ≡ make_ready c env r.seq
            (record_of c r)
            (record q { dir = (read env (rec r.seq) max_record q.dir).1 })
  unfolding activate_name
  activate_name-ok r s h = ground (arith, s.decodes)

  activate_name-err :
      (n : ℕ) (e : IoError)
      → (read env (rec n) max_record q.dir).0 ≡ err e
      → activate_name c env n q
        ≡ (failed (io e), record q { dir = (read env (rec n) max_record q.dir).1 })
  unfolding activate_name
  activate_name-err n e h = ground arith

  activate_name-crashed :
      (n : ℕ)
      → (read env (rec n) max_record q.dir).0 ≡ crashed
      → activate_name c env n q ≡ (died, record q { dir = (read env (rec n) max_record q.dir).1 })
  unfolding activate_name
  activate_name-crashed n h = ground arith

  activate_name-Activates :
      (r : Row) (s : StoredRow c q.dir r)
      → find_admission id (entries rs) ≡ some r.seq
      → holds_name r.seq q.names ≡ false
      → Activates c id rs (activate_name c env r.seq q).0 (activate_name c env r.seq q).1
  activate_name-Activates r s l h =
      let d = (read env (rec r.seq) max_record q.dir).1 in
      let same = look_same env q.dir (λ fs. readable max_record (fs (rec r.seq))) i.settled in
      let j = looked-IsLogs c env q rs (λ fs. readable max_record (fs (rec r.seq))) i in
      elim (read-found env (rec r.seq) max_record q.dir s.file s.found s.readable s.fits) [
        | inl e ↦ rw (activate_name-ok r s e) (
            make_ready-Activates c laws env id (record q { dir = d }) rs j r
              (StoredRow-agree c q.dir d r (same r.seq) s) l h)
        | inr (inl e) ↦ rw (activate_name-err r.seq io_error e) (inl j)
        | inr (inr e) ↦ rw (activate_name-crashed r.seq e) (inl j)
      ]

  activate-cases :
      (ended : Bool)
      → (activate c env ended id q ≡ (failed cancelled, q))
        ⊎ (((find_admission id q.admissions ≡ none) × (activate c env ended id q ≡ (done tt, q)))
            ⊎ ((n : ℕ) × (find_admission id q.admissions ≡ some n)
                × (((holds_name n q.names ≡ true) × (activate c env ended id q ≡ (done tt, q)))
                    ⊎ ((holds_name n q.names ≡ false)
                        × (activate c env ended id q ≡ activate_name c env n q)))))
  unfolding activate
  activate-cases true = inl refl
  activate-cases false = elim (Option-cases (find_admission id q.admissions)) [
    | inl e ↦ inr (inl (e, ground arith))
    | inr (n, e) ↦ inr (inr (n, e, held n e (Bool-cases (holds_name n q.names))))
  ]
    where
      held :
          (n : ℕ)
          → find_admission id q.admissions ≡ some n
          → (holds_name n q.names ≡ true) ⊎ (holds_name n q.names ≡ false)
          → ((holds_name n q.names ≡ true) × (activate c env false id q ≡ (done tt, q)))
            ⊎ ((holds_name n q.names ≡ false)
                × (activate c env false id q ≡ activate_name c env n q))
      held n e (inl h) = inl (h, ground arith)
      held n e (inr h) = inr (h, ground arith)

  -- On every outcome of `Activate` no row is lost and none is changed but the named one: without an
  -- error it is ready (an unknown one has no row); after an error or a crash the rows are as they
  -- were, or that record is ready on the disk already, and the spool is closed or dead.
  pub activate-Activates :
      (ended : Bool) → Activates c id rs (activate c env ended id q).0 (activate c env ended id q).1
  activate-Activates ended = elim (activate-cases ended) [
    | inl e ↦ rw e (inl i)
    | inr (inl (l, e)) ↦ rw (e, mark_absent id rs (rw i.admitted at l)) i
    | inr (inr (n, l, inl (h, e))) ↦
        rw
          (
            e,
            mark_ready id n 0 rs q.manifest.next i.ascending (rw i.admitted at l)
                (rw i.delivery at h),
          )
          i
    | inr (inr (n, l, inr (h, e))) ↦
        let known = rw i.admitted at l in
        let (_, (r, same, named, s)) =
          located c q.dir id n 0 rs q.manifest.next i.ascending known i.held in
        rw (e, ← same)
          (activate_name-Activates r s (known ∙ ap (λ (k : ℕ). some k) (sym same)) (rw same h))
  ]
