-- ===== src/Queue/Disk/Ack.antt =====
-- internal/queue/disk_linux.go, `Ack`: the head of the queue is dropped, or nothing is.
use observe_agent.Base.{
  ℕ, ◌≡◌, ◌≢◌, refl, ap, ◌∙◌, sym, subst, true, false, Bool, none, List, [], ◌∷◌, ◌⊎◌, inl, inr,
  Bytes, arith, ◌==◌, Bool-cases,
}
use observe_agent.Queue.Files.{rec, Faults, ok, size_of, stat, remove}
use observe_agent.Queue.Files.Laws.{control-rec}
use observe_agent.Queue.Files.AtName.{remove-failed, look-files}
use observe_agent.Queue.Codec.{Codec}
use observe_agent.Queue.Disk.{Error, Disk, Result, done, failed, ack, drop_head}
use observe_agent.Queue.Disk.Settled.{look-IsSettled, remove-IsSettled, IsSettled}
use observe_agent.Queue.Disk.Fifo.{Holds, IsQueue, IsQueue-Agree}
use observe_agent.Queue.Disk.Drop.{
  drop_head_done, drop_head_gone, drop_head-IsQueue, drop_head_others, drop_head_failed,
}

-- What `Ack` of `id` has done to a queue that held `ps`.
pub record Dropped (c : Codec) (id : ℕ) (q : Disk) (ps : List Bytes) (q' : Disk) : Type 0 where
  pub rest_names : List ℕ
  pub names : q.names ≡ id ∷ rest_names
  pub payload : Bytes
  pub rest : List Bytes
  pub payloads : ps ≡ payload ∷ rest
  pub queue : IsQueue c q' rest
  pub names_after : q'.names ≡ rest_names
  pub gone : q'.dir.files (rec id) ≡ none

module _ (c : Codec) (env : Faults) (ended : Bool) (id : ℕ) (q : Disk) where
  -- A successful `Ack` went through the drop of the head that it names.
  ack_done :
      (n : ℕ) (ns : List ℕ)
      → q.names ≡ n ∷ ns
      → (ack env ended id q).0 ≡ done tt
      → (n ≡ id) × (ack env ended id q ≡ drop_head env n ns q)
  unfolding ack
  ack_done n ns e h = ground arith

  ack_empty : q.names ≡ [] → (ack env ended id q).0 ≢ done tt
  unfolding ack
  ack_empty e h = ground arith

  -- `Ack` succeeds only for the head: that record and its file are gone, and the queue holds the
  -- payloads behind it.
  pub ack-Dropped :
      (ps : List Bytes)
      → IsQueue c q ps
      → (ack env ended id q).0 ≡ done tt
      → Dropped c id q ps (ack env ended id q).1
  ack-Dropped ps i h = go q.names ps refl i
    where
      go :
          (ns : List ℕ) (ps' : List Bytes)
          → q.names ≡ ns
          → IsQueue c q ps'
          → Dropped c id q ps' (ack env ended id q).1
      go [] ps' e j = absurd (ack_empty e h)
      go (n ∷ ns) [] e j = absurd (subst (λ l. Holds c q.dir l []) e j.held)
      go (n ∷ ns) (p ∷ ps') e j =
          let (same, drop) = ack_done n ns e h in
          let r = ap (λ (x : Result (Unit {0}) × Disk). x.0) (sym drop) ∙ h in
          let s = (subst (λ l. Holds c q.dir l (p ∷ ps')) e j.held).0 in
          rw drop (record {
            rest_names = ns;
            names = e ∙ ap (λ x. x ∷ ns) same;
            payload = p;
            rest = ps';
            payloads = refl;
            queue = drop_head-IsQueue c env n ns q p ps' j e r;
            names_after = ap (λ (x : Disk). x.names) (drop_head_done c env n ns q p s r);
            gone = rw (← same) (drop_head_gone c env n ns q r);
          })

  -- Whatever `Ack` returns, a crash included, no record but the one it names is touched.
  pub ack_others :
      (m : ℕ)
      → (id == m) ≡ false
      → IsSettled q.dir
      → (ack env ended id q).1.dir.files (rec m) ≡ q.dir.files (rec m)
  ack_others m ne s = go q.names refl
    where
      go :
          (ns : List ℕ)
          → q.names ≡ ns
          → (ack env ended id q).1.dir.files (rec m) ≡ q.dir.files (rec m)
      go [] e = unfold ack in ground arith
      go (n ∷ ns) e = elim (Bool-cases (n == id)) [
        | inl same ↦
            unfold ack in ground (arith, drop_head_others c env n ns q m (same_ne n same) s)
        | inr other ↦ unfold ack in ground arith
      ]
        where
          same_ne : (k : ℕ) → (k == id) ≡ true → (k == m) ≡ false
          same_ne k h = ground arith

module _ (c : Codec) (env : Faults) (q : Disk) where
  looked-IsQueue :
      (ps : List Bytes) (n : ℕ)
      → IsQueue c q ps
      → IsQueue c (record q { dir = (stat env (rec n) q.dir).1 }) ps
  looked-IsQueue ps n i =
      IsQueue-Agree c q (stat env (rec n) q.dir).1 ps i
        (look-IsSettled env (λ fs. size_of (fs (rec n))) q.dir i.settled)
        (λ m x y.
          look-files env (rec m) q.dir (i.settled.durable (rec m) (control-rec ".pending" m))
            (λ fs. size_of (fs (rec n))))

  unremoved-IsQueue :
      (ps : List Bytes) (n : ℕ)
      → IsQueue c q ps
      → (remove env (rec n) q.dir).0 ≢ ok tt
      → IsQueue c (record q { dir = (remove env (rec n) q.dir).1 }) ps
  unremoved-IsQueue ps n i h =
      IsQueue-Agree c q (remove env (rec n) q.dir).1 ps i
        (remove-IsSettled env (rec n) q.dir i.settled)
        (λ m x y.
          remove-failed env (rec n) (rec m) q.dir
            (i.settled.durable (rec m) (control-rec ".pending" m)) h)

module _ (c : Codec) (env : Faults) (ended : Bool) (id : ℕ) (q : Disk) (e : Error) where
  ack_failed :
      (n : ℕ) (ns : List ℕ)
      → q.names ≡ n ∷ ns
      → ((ack env ended id q).1 ≡ q)
        ⊎ ((q.closed ≡ false) × (ack env ended id q ≡ drop_head env n ns q))
  unfolding ack
  ack_failed n ns x = ground arith

  -- An `Ack` that failed and left the spool open has dropped nothing.
  pub ack_keeps :
      (ps : List Bytes)
      → IsQueue c q ps
      → (ack env ended id q).0 ≡ failed e
      → (ack env ended id q).1.closed ≡ false
      → IsQueue c (ack env ended id q).1 ps
  ack_keeps ps i h f = go q.names refl
    where
      dropped :
          (n : ℕ) (ns : List ℕ)
          → q.closed ≡ false
          → ack env ended id q ≡ drop_head env n ns q
          → IsQueue c (ack env ended id q).1 ps
      dropped n ns o a = elim (drop_head_failed c env n ns q e o (rw a at h) (rw a at f)) [
        | inl x ↦ rw (a, x) (looked-IsQueue c env q ps n i)
        | inr (x, r) ↦
            rw (a, x)
              (unremoved-IsQueue c env (record q { dir = (stat env (rec n) q.dir).1 }) ps n
                (looked-IsQueue c env q ps n i) r)
      ]

      go : (ns : List ℕ) → q.names ≡ ns → IsQueue c (ack env ended id q).1 ps
      go [] x = rw (ack_none x) i
        where
          ack_none : q.names ≡ [] → (ack env ended id q).1 ≡ q
          ack_none y = unfold ack in ground arith
      go (n ∷ ns) x = elim (ack_failed n ns x) [
        | inl same ↦ rw same i
        | inr (o, a) ↦ dropped n ns o a
      ]
