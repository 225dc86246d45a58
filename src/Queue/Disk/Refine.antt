-- ===== src/Queue/Disk/Refine.antt =====
-- internal/queue/disk_linux.go: the spool refines a first-in, first-out queue of payloads.
use observe_agent.Base.{
  ℕ, ◌+◌, ◌≤◌, ◌≡◌, refl, ap, sym, subst, true, false, Bool, some, List, [], ◌∷◌, ◌++◌, inl, inr,
  Bytes, arith, length, length-append, ◌==◌, bytes_eq_refl,
}
use observe_agent.Queue.Files.{rec, Faults}
use observe_agent.Queue.Files.Laws.{control-rec, rec-rec}
use observe_agent.Queue.Files.Steps.{settled_file}
use observe_agent.Queue.Codec.{Codec, CodecLaws}
use observe_agent.Queue.Disk.{
  Disk, Result, done, failed, waiting, died, charge, decode, max_record, record_of, admit, put,
}
use observe_agent.Queue.Disk.Accept.{put-cases, put_files, put-Accepted, Accepted}
use observe_agent.Queue.Disk.Settled.{IsSettled, put-IsSettled}
use observe_agent.Queue.Disk.Fifo.{
  IsQueue, Agree, IsAscending-weaken, IsAscending-append, Holds-Agree, total-Agree, total-append,
  Holds-append,
}

-- The result is a receipt.
abbrev pub accepted : Result ℕ → Bool
accepted (done n) = true
accepted (failed e) = false
accepted waiting = false
accepted died = false

module _ (c : Codec) (env : Faults) (ended : Bool) (payload : Bytes) (q : Disk) where
  admit-frame :
      (b : Bytes) (cost : ℕ)
      → accepted (admit c env b cost q).0 ≡ false
      → ((admit c env b cost q).1.names ≡ q.names)
        × ((admit c env b cost q).1.count ≡ q.count)
        × ((admit c env b cost q).1.bytes ≡ q.bytes)
        × ((admit c env b cost q).1.next ≡ q.next + 1)
  unfolding admit
  admit-frame b cost h = ground arith

  admit-limits :
      (b : Bytes) (cost : ℕ)
      → ((admit c env b cost q).1.max_items ≡ q.max_items)
        × ((admit c env b cost q).1.max_bytes ≡ q.max_bytes)
  unfolding admit
  admit-limits b cost = ground arith

  put-limits :
      ((put c env ended payload q).1.max_items ≡ q.max_items)
      × ((put c env ended payload q).1.max_bytes ≡ q.max_bytes)
  put-limits = elim (put-cases c env ended payload q) [
    | inl r ↦ (ap (λ (x : Disk). x.max_items) r.0, ap (λ (x : Disk). x.max_bytes) r.0)
    | inr (p, e, r, x1, x2, x3, x4) ↦
        rw r (admit-limits (record_of c p) (charge (length (record_of c p))))
  ]

  pub put-frame :
      accepted (put c env ended payload q).0 ≡ false
      → ((put c env ended payload q).1.names ≡ q.names)
        × ((put c env ended payload q).1.count ≡ q.count)
        × ((put c env ended payload q).1.bytes ≡ q.bytes)
        × (q.next ≤ (put c env ended payload q).1.next)
        × ((put c env ended payload q).1.next ≤ q.next + 1)
  put-frame h = elim (put-cases c env ended payload q) [
    | inl r ↦ rw r.0 (refl, refl, refl, omega arith, omega arith)
    | inr (p, e, r, x1, x2, x3, x4) ↦
        let f = admit-frame (record_of c p) (charge (length (record_of c p))) (rw r at h) in
        rw r (f.0, f.1, f.2, omega (arith, f.3), omega (arith, f.3))
  ]

  put-Agree : IsSettled q.dir → Agree 0 q.next q.dir (put c env ended payload q).1.dir
  put-Agree s n lo hi =
      elim (put_files c env (rec n) (q.dir.files (rec n))
        (s.durable (rec n) (control-rec ".pending" n)) (control-rec ".pending" n)
        (control-rec "manifest.json" n) (control-rec "manifest.backup" n) ended payload q refl) [
          | inl h ↦ h
          | inr (p, e, same, x) ↦ absurd (distinct (rw rec-rec at same))
        ]
    where
      distinct : (q.next == n) ≡ true → ⊥
      distinct h = ground arith

  -- Without a receipt, on every error and after a crash, the queue holds what it held.
  pub put_keeps :
      (ps : List Bytes)
      → IsQueue c q ps
      → accepted (put c env ended payload q).0 ≡ false
      → IsQueue c (put c env ended payload q).1 ps
  put_keeps ps i h =
      let f = put-frame h in
      let a = put-Agree i.settled in
      let l = put-limits in
      record {
        settled = put-IsSettled env c ended payload q i.settled;
        held = rw f.0 (
            Holds-Agree c q.dir (put c env ended payload q).1.dir 0 q.names q.next ps i.ascending a
              i.held);
        ascending = rw f.0 (
            IsAscending-weaken 0 q.names q.next (put c env ended payload q).1.next i.ascending f.3);
        counted = rw (f.0, f.1) i.counted;
        charged =
            rw
              (
                f.0,
                f.2,
                total-Agree q.dir (put c env ended payload q).1.dir 0 q.names q.next i.ascending a,
              )
              i.charged;
        within = omega (arith, f, l, i.within);
      }

-- Records decode to the payload that was written.
pub decode-record_of :
    (c : Codec)
    → CodecLaws c
    → (payload p : Bytes) → c.normalize payload ≡ some p
    → decode c (record_of c p) ≡ some p
unfolding decode
decode-record_of c laws payload p e = rw (
  laws.decode-encode_record payload p 1 (c.digest p) e,
  laws.valid-normalize payload p e,
  bytes_eq_refl,
)

module _ (c : Codec) (env : Faults) (ended : Bool) (payload : Bytes) (q : Disk) (n : ℕ) where
  appends-Accepted :
      (ps : List Bytes) (q' : Disk)
      → q' ≡ (put c env ended payload q).1
      → CodecLaws c
      → IsQueue c q ps
      → (put c env ended payload q).0 ≡ done n
      → (a : Accepted c payload q n q') → length (record_of c a.text) ≤ max_record
      → IsQueue c q' (ps ++ (a.text ∷ []))
  appends-Accepted ps q' e laws i h a fits =
      let limits = put-limits c env ended payload q in
      let agree =
        subst (λ (x : Disk). Agree 0 q.next q.dir x.dir) (sym e)
          (put-Agree c env ended payload q i.settled) in
      let held = Holds-Agree c q.dir q'.dir 0 q.names q.next ps i.ascending agree i.held in
      let same = total-Agree q.dir q'.dir 0 q.names q.next i.ascending agree in
      record {
        settled = rw e (put-IsSettled env c ended payload q i.settled);
        held = rw a.appended (
            Holds-append c q'.dir q.names n ps a.text held (record {
              file = settled_file (record_of c a.text);
              found = a.stored;
              readable = refl;
              fits = fits;
              decodes = decode-record_of c laws payload a.text a.normalized;
            }));
        ascending =
            rw (a.appended, a.advanced, a.sequence)
              (IsAscending-append 0 q.names q.next i.ascending);
        counted =
            rw (a.appended, a.counted.0) (omega (arith, length-append q.names (n ∷ []), i.counted));
        charged =
            rw (a.appended, total-append, a.stored) (omega (arith, same, a.charged.0, i.charged));
        within = rw (e, limits.0, limits.1) (rw e at a.counted.1, rw e at a.charged.1);
      }

  -- A receipt means that the queue holds the payload, normalized, behind what it held, provided that
  -- its record is within the limit of the reads.
  pub put_appends :
      (ps : List Bytes) (p : Bytes)
      → CodecLaws c
      → IsQueue c q ps
      → c.normalize payload ≡ some p
      → length (record_of c p) ≤ max_record
      → (put c env ended payload q).0 ≡ done n
      → IsQueue c (put c env ended payload q).1 (ps ++ (p ∷ []))
  put_appends ps p laws i e fits h =
      let durable = i.settled.durable (rec q.next) (control-rec ".pending" q.next) in
      let a = put-Accepted c env ended payload q n durable h in
      let same = same_text a.text a.normalized in
      subst (λ t. IsQueue c (put c env ended payload q).1 (ps ++ (t ∷ []))) same
        (appends-Accepted ps (put c env ended payload q).1 refl laws i h a (rw same fits))
    where
      same_text : (t : Bytes) → c.normalize payload ≡ some t → t ≡ p
      same_text t h' = cc
