-- ===== src/Queue/Disk/Drop.antt =====
-- internal/queue/disk_linux.go, `Ack`: the drop of the head.
use observe_agent.Base.{
  ℕ, suc, ◌-◌, ◌≤◌, ◌≡◌, ◌≢◌, refl, ap, ◌∙◌, subst, true, false, none, List, ◌∷◌, ◌⊎◌, inl, inr,
  Bytes, arith, length, ◌==◌,
}
use observe_agent.Queue.Files.{
  rec, Dir, Faults, Fault, pass, fail, crash, ok, err, crashed, io_error, size_of, stat, remove,
  sync_dir, outcome, unchanged,
}
use observe_agent.Queue.Files.Laws.{control-rec, rec-rec}
use observe_agent.Queue.Files.Steps.{is_durable}
use observe_agent.Queue.Files.AtName.{look-files, remove-files, remove-ok}
use observe_agent.Queue.Codec.{Codec}
use observe_agent.Queue.Disk.{Error, Disk, done, failed, charge, drop_head}
use observe_agent.Queue.Disk.Settled.{look-IsSettled, remove-IsSettled, IsSettled}
use observe_agent.Queue.Disk.Fifo.{
  Stored, Holds, IsAscending, IsAscending-lower, total, IsQueue, Agree, charge_of, Holds-Agree,
  total-Agree,
}

module _ (c : Codec) (env : Faults) (n : ℕ) (ns : List ℕ) (q : Disk) where
  abbrev counted_file : Dir
  counted_file = (stat env (rec n) q.dir).1

  abbrev removed_file : Dir
  removed_file = (remove env (rec n) counted_file).1

  stat-Stored :
      (p : Bytes) (s : Stored c q.dir n p)
      → ((stat env (rec n) q.dir).0 ≡ ok (length s.file.contents))
        ⊎ (((stat env (rec n) q.dir).0 ≡ err io_error) ⊎ ((stat env (rec n) q.dir).0 ≡ crashed))
  stat-Stored p s = go (env.fault q.dir.ticks)
    where
      go :
          (x : Fault)
          → let r =
              outcome x
                (env.cut q.dir.ticks)
                (λ fs. size_of (fs (rec n)))
                unchanged
                unchanged
                q.dir in
            (r.0 ≡ ok (length s.file.contents)) ⊎ ((r.0 ≡ err io_error) ⊎ (r.0 ≡ crashed))
      go pass = inl (rw s.found)
      go fail = inr (inl refl)
      go crash = inr (inr refl)

  pub drop_head_done :
      (p : Bytes) (s : Stored c q.dir n p)
      → (drop_head env n ns q).0 ≡ done tt
      → (drop_head env n ns q).1 ≡ record q {
        dir = (sync_dir env removed_file).1;
        names = ns;
        count = q.count - 1;
        bytes = q.bytes - charge (length s.file.contents);
      }
  unfolding drop_head
  drop_head_done p s h = ground (arith, stat-Stored p s)

  -- Dropping the head touches no other record.
  drop_head-Agree :
      (hi : ℕ) → IsSettled q.dir → Agree (suc n) hi q.dir (sync_dir env removed_file).1
  drop_head-Agree hi s m lo below =
      let ne = control-rec ".pending" m in
      let s1 = look-IsSettled env (λ fs. size_of (fs (rec n))) q.dir s in
      let s2 = remove-IsSettled env (rec n) counted_file s1 in
      let e1 = look-files env (rec m) q.dir (s.durable (rec m) ne) (λ fs. size_of (fs (rec n))) in
      let e3 = look-files env (rec m) removed_file (s2.durable (rec m) ne) (λ _. ok tt) in
      elim (remove-files env (rec m) counted_file (s1.durable (rec m) ne) (rec n)) [
        | inl e2 ↦ e3 ∙ e2 ∙ e1
        | inr e2 ↦ absurd (later (rw rec-rec at e2.0))
      ]
    where
      later : (n == m) ≡ true → ⊥
      later h = ground arith

  drop_head_removed :
      (drop_head env n ns q).0 ≡ done tt
      → ((remove env (rec n) counted_file).0 ≡ ok tt)
        × ((drop_head env n ns q).1.dir ≡ (sync_dir env removed_file).1)
  unfolding drop_head
  drop_head_removed h = ground arith

  -- After a successful drop the file is gone.
  pub drop_head_gone :
      (drop_head env n ns q).0 ≡ done tt → (drop_head env n ns q).1.dir.files (rec n) ≡ none
  drop_head_gone h =
      let (r, e) = drop_head_removed h in
      let none_left = remove-ok env (rec n) counted_file r in
      ap (λ (d : Dir). d.files (rec n)) e
      ∙ look-files env (rec n) removed_file (ap is_durable none_left) (λ _. ok tt)
      ∙ none_left

  pub drop_head-IsQueue :
      (p : Bytes) (ps : List Bytes)
      → IsQueue c q (p ∷ ps)
      → q.names ≡ n ∷ ns
      → (drop_head env n ns q).0 ≡ done tt
      → IsQueue c (drop_head env n ns q).1 ps
  drop_head-IsQueue p ps i e h =
      let held = subst (λ l. Holds c q.dir l (p ∷ ps)) e i.held in
      let asc = subst (λ l. IsAscending 0 l q.next) e i.ascending in
      let d = (sync_dir env removed_file).1 in
      let agree = drop_head-Agree q.next i.settled in
      let same = total-Agree q.dir d (suc n) ns q.next asc.1 agree in
      let size = ap charge_of held.0.found in
      let all = subst (λ l. total q.dir l ≤ q.bytes) e i.charged in
      let few = subst (λ l. length l ≤ q.count) e i.counted in
      rw (drop_head_done p held.0 h) (record {
        settled =
            look-IsSettled env (λ _. ok tt) removed_file
              (remove-IsSettled env (rec n) counted_file
                (look-IsSettled env (λ fs. size_of (fs (rec n))) q.dir i.settled));
        held = Holds-Agree c q.dir d (suc n) ns q.next ps asc.1 agree held.1;
        ascending = IsAscending-lower 0 (suc n) ns q.next (omega arith) asc.1;
        counted = omega arith;
        charged = omega arith;
        within = omega (arith, i.within);
      })

module _ (c : Codec) (env : Faults) (n : ℕ) (ns : List ℕ) (q : Disk) where
  -- On every outcome the drop of the head leaves the other records.
  pub drop_head_others :
      (m : ℕ)
      → (n == m) ≡ false
      → IsSettled q.dir
      → (drop_head env n ns q).1.dir.files (rec m) ≡ q.dir.files (rec m)
  drop_head_others m ne s =
      let other = control-rec ".pending" m in
      let d1 = (stat env (rec n) q.dir).1 in
      let d2 = (remove env (rec n) d1).1 in
      let s1 = look-IsSettled env (λ fs. size_of (fs (rec n))) q.dir s in
      let s2 = remove-IsSettled env (rec n) d1 s1 in
      let e1 =
        look-files env (rec m) q.dir (s.durable (rec m) other) (λ fs. size_of (fs (rec n))) in
      let e3 = look-files env (rec m) d2 (s2.durable (rec m) other) (λ _. ok tt) in
      elim (remove-files env (rec m) d1 (s1.durable (rec m) other) (rec n)) [
        | inl e2 ↦ unfold drop_head in ground (arith, e1, e2, e3)
        | inr e2 ↦ cc (rw rec-rec at e2.0, ne)
      ]

  -- A drop that failed and left the queue open has only looked.
  pub drop_head_failed :
      (e : Error)
      → q.closed ≡ false
      → (drop_head env n ns q).0 ≡ failed e
      → (drop_head env n ns q).1.closed ≡ false
      → ((drop_head env n ns q).1 ≡ record q { dir = (stat env (rec n) q.dir).1 })
        ⊎ (((drop_head env n ns q).1
              ≡ record q { dir = (remove env (rec n) (stat env (rec n) q.dir).1).1 })
            × ((remove env (rec n) (stat env (rec n) q.dir).1).0 ≢ ok tt))
  unfolding drop_head
  drop_head_failed e o h f = ground arith
