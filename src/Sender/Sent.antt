-- ===== src/Sender/Sent.antt =====
-- internal/exporter/sender.go: what a delivery guarantees.
use observe_agent.Base.{
  ℕ, zero, suc, ◌+◌, ◌≤◌, ◌<◌, ◌≡◌, refl, ap, ◌∙◌, subst, ◌≢◌, ◌⊎◌, inl, inr, Bool, true, false,
  not, arith, ◌==◌, if◌then◌else◌, Bool-cases,
}
use observe_agent.Policy.{Capability}
use observe_agent.Sender.{Outcome, accepted, unauthorized, cancelled, Counters}
use observe_agent.Sender.Reply.{
  Json, Response, Reply, broken, response, failure, judge, is_success, is_transient,
}
use observe_agent.Sender.Send.{
  Surroundings, Progress, stop, go_on, pause, after_reply, attempt, send_from, send,
}
use observe_agent.Sender.Delay.{unset, RetryAfter}
use observe_agent.Sender.Judged.{is_retryable, is_answered, judge_lem}

module _ (j : Json) (env : Surroundings) (signal : Capability) (max_attempts : ℕ) where
  -- What an attempt has done: it made at most one request; it ended the delivery with an accepted
  -- batch only for an answer of success, and let it go on only after a reply that may be retried.
  record Attempted (a : ℕ) (s : Counters) (p : Progress) (s' : Counters) : Type 0 where
    few : s'.requests ≤ s.requests + 1
    few_retries : s'.retries ≤ s.retries + 1
    same_batches : p ≢ stop accepted → s'.batches_accepted ≡ s.batches_accepted
    one_batch :
        p ≡ stop accepted
        → (is_answered (env.reply a) ≡ true) × (s'.batches_accepted ≡ s.batches_accepted + 1)
    retried : p ≡ go_on → is_retryable (env.reply a) ≡ true

  pause_lem :
      (a : ℕ) (h : RetryAfter) (s : Counters)
      → let r = pause j env signal max_attempts a h s in
        (r.1.requests ≡ s.requests)
        × (r.1.retries ≤ s.retries + 1)
        × (r.1.batches_accepted ≡ s.batches_accepted)
        × (r.0 ≢ stop accepted)
  unfolding pause
  pause_lem a h s = ground arith

  after_broken :
      (a : ℕ) (permanent : Bool) (s : Counters)
      → let r = after_reply j env signal max_attempts a (broken permanent) s in
        (r.1.requests ≡ s.requests)
        × (r.1.retries ≤ s.retries + 1)
        × (r.1.batches_accepted ≡ s.batches_accepted)
        × (r.0 ≢ stop accepted)
        × (r.0 ≡ go_on → permanent ≡ false)
  unfolding after_reply
  after_broken a permanent s = ground (arith, pause_lem a unset (failure s))

  after_response :
      (a : ℕ) (x : Response) (s : Counters)
      → let r = after_reply j env signal max_attempts a (response x) s in
        (r.1.requests ≡ s.requests)
        × (r.1.retries ≤ s.retries + 1)
        × (r.0 ≢ stop accepted → r.1.batches_accepted ≡ s.batches_accepted)
        × (r.0 ≡ stop accepted
            → (is_success x.status ≡ true) × (r.1.batches_accepted ≡ s.batches_accepted + 1))
        × (r.0 ≡ go_on → is_transient x.status ≡ true)
  unfolding after_reply
  after_response a x s =
      let l = judge_lem j signal x s in
      let p = pause_lem a x.retry_after (judge j signal x s).1 in ground (arith, l, p)

  after_reply_lem :
      (a : ℕ) (x : Reply) (s : Counters)
      → let r = after_reply j env signal max_attempts a x s in
        (r.1.requests ≡ s.requests)
        × (r.1.retries ≤ s.retries + 1)
        × (r.0 ≢ stop accepted → r.1.batches_accepted ≡ s.batches_accepted)
        × (r.0 ≡ stop accepted
            → (is_answered x ≡ true) × (r.1.batches_accepted ≡ s.batches_accepted + 1))
        × (r.0 ≡ go_on → is_retryable x ≡ true)
  after_reply_lem a (response x) s = after_response a x s
  after_reply_lem a (broken permanent) s =
      let h = after_broken a permanent s in
      (h.0, h.1, λ _. h.2, λ e. absurd (h.3 e), λ e. ap not (h.4 e))

  attempt-Attempted :
      (a : ℕ) (s : Counters)
      → let r = attempt j env signal max_attempts a s in Attempted a s r.0 r.1
  unfolding attempt
  attempt-Attempted a s = go (a == 0) (env.ended a) (env.built a)
    where
      go :
          (first ended built : Bool)
          → let s1 = if first then s else record s { retried_records = s.retried_records + 1 } in
            let x : Progress × Counters =
              if ended
              then (stop cancelled, s1)
              else if built
              then after_reply j env signal max_attempts a
                  (env.reply a)
                  (record s1 { requests = s1.requests + 1 })
              else (
                stop unauthorized,
                record s1 {
                  auth_failures = s1.auth_failures + 1;
                  export_failures = s1.export_failures + 1;
                },
              ) in
            Attempted a s x.0 x.1
      go first true built = record {
        few = ground arith;
        few_retries = ground arith;
        same_batches = λ e. ground arith;
        one_batch = λ e. cc;
        retried = λ e. cc;
      }
      go first false false = record {
        few = ground arith;
        few_retries = ground arith;
        same_batches = λ e. ground arith;
        one_batch = λ e. cc;
        retried = λ e. cc;
      }
      go true false true =
          let h = after_reply_lem a (env.reply a) (record s { requests = s.requests + 1 }) in
          record {
            few = omega (arith, h.0);
            few_retries = h.1;
            same_batches = h.2;
            one_batch = h.3;
            retried = h.4;
          }
      go false false true =
          let h =
            after_reply_lem a (env.reply a)
              (record s { retried_records = s.retried_records + 1; requests = s.requests + 1 }) in
          record {
            few = omega (arith, h.0);
            few_retries = h.1;
            same_batches = h.2;
            one_batch = h.3;
            retried = h.4;
          }

-- The attempt that a delivery was accepted at: it was answered with success, and every attempt
-- before it met a reply that may be retried.
pub record AcceptedAt (env : Surroundings) (first left : ℕ) : Type 0 where
  pub index : ℕ
  pub from_first : first ≤ index
  pub in_time : index < first + left
  pub answered : is_answered (env.reply index) ≡ true
  pub retried_before : (k : ℕ) → first ≤ k → k < index → is_retryable (env.reply k) ≡ true

-- What a delivery of at most `left` attempts has done.
pub record Sent (env : Surroundings) (first left : ℕ) (s : Counters) (o : Outcome) (s' : Counters)
    : Type 0 where
  pub few_requests : s'.requests ≤ s.requests + left
  pub few_retries : s'.retries ≤ s.retries + left
  pub not_counted : o ≢ accepted → s'.batches_accepted ≡ s.batches_accepted
  pub counted_once : o ≡ accepted → s'.batches_accepted ≡ s.batches_accepted + 1
  pub at : o ≡ accepted → AcceptedAt env first left

module _ (j : Json) (env : Surroundings) (signal : Capability) (max_attempts : ℕ) where
  stop_accepted : (o : Outcome) → stop o ≡ stop accepted → o ≡ accepted
  stop_accepted o e = cc

  go_on_later :
      (a left : ℕ)
      → is_retryable (env.reply a) ≡ true
      → AcceptedAt env (a + 1) left
      → AcceptedAt env a (suc left)
  go_on_later a left r t = record {
    index = t.index;
    from_first = omega (arith, t.from_first);
    in_time = omega (arith, t.in_time);
    answered = t.answered;
    retried_before = λ k x y. before k x y (Bool-cases (a == k));
  }
    where
      before :
          (k : ℕ)
          → a ≤ k
          → k < t.index
          → ((a == k) ≡ true) ⊎ ((a == k) ≡ false)
          → is_retryable (env.reply k) ≡ true
      before k x y (inl e) = subst (λ i. is_retryable (env.reply i) ≡ true) (same e) r
        where
          same : (a == k) ≡ true → a ≡ k
          same h = ground arith
      before k x y (inr e) = t.retried_before k (ground arith) y

  send_from-Sent :
      (left a : ℕ) (s : Counters)
      → let r = send_from j env signal max_attempts left a s in Sent env a left s r.0 r.1
  unfolding send_from
  send_from-Sent zero a s = record {
    few_requests = omega arith;
    few_retries = omega arith;
    not_counted = λ e. refl;
    counted_once = λ e. cc;
    at = λ e. cc;
  }
  send_from-Sent (suc left) a s =
      let x = attempt j env signal max_attempts a s in
      go x.0 x.1 (attempt-Attempted j env signal max_attempts a s) (send_from-Sent left (a + 1) x.1)
    where
      go :
          (p : Progress) (s' : Counters)
          → Attempted j env signal max_attempts a s p s'
          → (let r = send_from j env signal max_attempts left (a + 1) s' in
              Sent env (a + 1) left s' r.0 r.1)
          → let x : Outcome × Counters = elim p [
            | stop o ↦ (o, s')
            | go_on ↦ send_from j env signal max_attempts left (a + 1) s'
          ] in
            Sent env a (suc left) s x.0 x.1
      go (stop o) s' h t = record {
        few_requests = omega (arith, h.few);
        few_retries = omega (arith, h.few_retries);
        not_counted = λ e. h.same_batches (λ f. e (stop_accepted o f));
        counted_once = λ e. (h.one_batch (ap stop e)).1;
        at = λ e. record {
          index = a;
          from_first = omega arith;
          in_time = omega arith;
          answered = (h.one_batch (ap stop e)).0;
          retried_before = λ k x y. absurd (omega arith);
        };
      }
      go go_on s' h t =
          let same = h.same_batches (λ e. cc) in
          record {
            few_requests = omega (arith, h.few, t.few_requests);
            few_retries = omega (arith, h.few_retries, t.few_retries);
            not_counted = λ e. t.not_counted e ∙ same;
            counted_once = λ e. t.counted_once e ∙ ap (λ n. n + 1) same;
            at = λ e. go_on_later a left (h.retried refl) (t.at e);
          }

  -- A delivery makes at most as many requests and retries as there are attempts; it counts an
  -- accepted batch exactly if it is accepted; and then one of its attempts was answered with success
  -- and all attempts before met replies that may be retried.
  pub send-Sent :
      (s : Counters) → let r = send j env signal max_attempts s in Sent env 0 max_attempts s r.0 r.1
  unfolding send
  send-Sent s = send_from-Sent max_attempts 0 s
