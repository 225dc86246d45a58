-- ===== src/Collector/Delivered.antt =====
-- internal/collectors/metrics.go: a payload leaves the spool only after the backend accepted it.
use observe_agent.Base.{
  ℕ, ◌+◌, ◌≡◌, refl, sym, ap, ◌∙◌, subst, ◌⊎◌, inl, inr, List, [], ◌∷◌, Bool-cases, Bytes,
}
use observe_agent.Queue.Files.{Faults}
use observe_agent.Queue.Codec.{Codec}
use observe_agent.Queue.Disk.{Result, done, failed, waiting, died, next, ack}
use observe_agent.Queue.Disk.Fifo.{IsQueue}
use observe_agent.Queue.Disk.Deliver.{IsHead, next-Peeks}
use observe_agent.Queue.Disk.Ack.{ack-Dropped}
use observe_agent.Sender.{Outcome, accepted, rejected, unauthorized, exhausted, cancelled}
use observe_agent.Collector.{
  Worker, Pass, again, Meets, acknowledged, after_send, after_next, deliver,
}

-- The head of the spool was accepted, and a pass that goes on has dropped it and counted it.
pub record HeadAccepted (c : Codec) (send : Bytes → Outcome) (ps : List Bytes) (w : Worker)
    (r : Pass × Worker) : Type 0 where
  pub payload : Bytes
  pub rest : List Bytes
  pub payloads : ps ≡ payload ∷ rest
  pub sent : send payload ≡ accepted
  pub dropped : r.0 ≡ again → IsQueue c r.1.queue rest × (r.1.delivered ≡ w.delivered + 1)

acknowledged_lem :
    (r : Result (Unit {0})) (w : Worker)
    → ((acknowledged r w).1.queue ≡ w.queue)
      × ((acknowledged r w).0 ≡ again
          → (r ≡ done tt) × ((acknowledged r w).1.delivered ≡ w.delivered + 1))
unfolding acknowledged
acknowledged_lem (done _) w = (refl, λ h. (refl, refl))
acknowledged_lem (failed e) w = (refl, λ h. cc)
acknowledged_lem waiting w = (refl, λ h. cc)
acknowledged_lem died w = (refl, λ h. cc)

module _ (c : Codec) (env : Faults) (x : Meets) where
  head_of :
      (n : ℕ) (y : Bytes) (ns : List ℕ) (ps : List Bytes)
      → IsHead n y ns ps
      → (rest : List Bytes) × (ps ≡ y ∷ rest)
  head_of n y [] ps h = absurd h
  head_of n y (m ∷ ns) [] h = absurd h
  head_of n y (m ∷ ns) (p ∷ ps) h = (ps, ap (λ z. z ∷ ps) (sym h.1))

  dropped_lem :
      (id : ℕ) (y : Bytes) (rest ps : List Bytes) (w : Worker)
      → IsQueue c w.queue ps
      → ps ≡ y ∷ rest
      → let a = ack env x.ended_ack id w.queue in
        let r = acknowledged a.0 (record w { queue = a.1 }) in
        r.0 ≡ again → IsQueue c r.1.queue rest × (r.1.delivered ≡ w.delivered + 1)
  dropped_lem id y rest ps w i e h =
      let a = ack env x.ended_ack id w.queue in
      let l = acknowledged_lem a.0 (record w { queue = a.1 }) in
      let d = ack-Dropped c env x.ended_ack id w.queue ps i (l.1 h).0 in
      (rw l.0 (subst (λ t. IsQueue c a.1 t) (tail_same (sym d.payloads ∙ e)) d.queue), (l.1 h).1)
    where
      tail_same : {p q : Bytes} {ps' qs : List Bytes} → p ∷ ps' ≡ q ∷ qs → ps' ≡ qs
      tail_same z = cc

  -- The payload that was shown is sent, and the head is dropped if it is accepted.
  sent_lem :
      (id : ℕ) (y : Bytes) (rest ps : List Bytes) (w : Worker)
      → IsQueue c w.queue ps
      → ps ≡ y ∷ rest
      → (o : Outcome) → x.send y ≡ o
      → (IsQueue c (after_send c env x o id w).1.queue ps
          × ((after_send c env x o id w).1.delivered ≡ w.delivered))
        ⊎ HeadAccepted c x.send ps w (after_send c env x o id w)
  unfolding after_send
  sent_lem id y rest ps w i e accepted f = inr (record {
    payload = y;
    rest = rest;
    payloads = e;
    sent = f;
    dropped = dropped_lem id y rest ps w i e;
  })
  sent_lem id y rest ps w i e unauthorized f = inl (i, refl)
  sent_lem id y rest ps w i e rejected f = inl (i, refl)
  sent_lem id y rest ps w i e cancelled f = inl (i, refl)
  sent_lem id y rest ps w i e exhausted f = inl (i, refl)

  after_next_lem :
      (ns : List ℕ) (ps : List Bytes) (w : Worker) (r : Result (ℕ × Bytes))
      → IsQueue c w.queue ps
      → ((n : ℕ) (y : Bytes) → r ≡ done (n, y) → IsHead n y ns ps)
      → (IsQueue c (after_next c env x r w).1.queue ps
          × ((after_next c env x r w).1.delivered ≡ w.delivered))
        ⊎ HeadAccepted c x.send ps w (after_next c env x r w)
  unfolding after_next
  after_next_lem ns ps w (done (id, y)) i h =
      let (rest, s) = head_of id y ns ps (h id y refl) in
      sent_lem id y rest ps w i s (x.send y) refl
  after_next_lem ns ps w (failed e) i h = elim (Bool-cases x.ended_after) [
    | inl f ↦ rw f (inl (i, refl))
    | inr f ↦ rw f (inl (i, refl))
  ]
  after_next_lem ns ps w waiting i h = inl (i, refl)
  after_next_lem ns ps w died i h = inl (i, refl)

  -- On every outcome of a pass over a spool that holds `ps`, it holds `ps` still and nothing was
  -- counted, or the sender reported the head of `ps` as accepted, and then a pass that goes on has
  -- dropped just that head and counted it once.
  pub deliver_lem :
      (w : Worker) (ps : List Bytes)
      → IsQueue c w.queue ps
      → (IsQueue c (deliver c env x w).1.queue ps × ((deliver c env x w).1.delivered ≡ w.delivered))
        ⊎ HeadAccepted c x.send ps w (deliver c env x w)
  unfolding deliver
  deliver_lem w ps i =
      let p = next-Peeks c env x.ended w.queue ps i in
      counted (
        after_next_lem w.queue.names ps (record w { queue = (next c env x.ended w.queue).1 })
          (next c env x.ended w.queue).0 p.queue p.item)
    where
      counted :
          {z : Pass × Worker}
          → (IsQueue c z.1.queue ps × (z.1.delivered ≡ w.delivered))
            ⊎ HeadAccepted c x.send ps (record w { queue = (next c env x.ended w.queue).1 }) z
          → (IsQueue c z.1.queue ps × (z.1.delivered ≡ w.delivered)) ⊎ HeadAccepted c x.send ps w z
      counted (inl k) = inl k
      counted (inr k) = inr (record {
        payload = k.payload;
        rest = k.rest;
        payloads = k.payloads;
        sent = k.sent;
        dropped = k.dropped;
      })
