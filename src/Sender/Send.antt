-- ===== src/Sender/Send.antt =====
-- internal/exporter/sender.go: `Send`, the delivery with bounded retries.
use observe_agent.Base.{ℕ, zero, suc, ◌+◌, Bool, ◌==◌, if◌then◌else◌}
use observe_agent.Policy.{Capability}
use observe_agent.Sender.{Outcome, rejected, unauthorized, exhausted, cancelled, Counters}
use observe_agent.Sender.Delay.{RetryAfter, unset, delay_for}
use observe_agent.Sender.Reply.{Json, Reply, broken, response, final, retry, failure, judge}

-- What meets the attempt of each number: whether the context has ended when it begins, whether the
-- request is built, the reply, whether the context has ended then, the jitter, and whether the sleep
-- of a duration is not cut short.
pub record Surroundings : Type 0 where
  pub ended : ℕ → Bool
  pub built : ℕ → Bool
  pub reply : ℕ → Reply
  pub ended_after : ℕ → Bool
  pub jitter : ℕ → ℕ
  pub sleeps : ℕ → ℕ → Bool

pub data Progress : Type 0 where
  stop : Outcome → Progress
  go_on : Progress

module _ (j : Json) (env : Surroundings) (signal : Capability) (max_attempts : ℕ) where
  -- The end of an attempt that may be made again. The last attempt after a response still waits.
  unfoldable pub pause : ℕ → RetryAfter → Counters → Progress × Counters
  pause a header s =
      let slept = env.sleeps a (delay_for signal header a (env.jitter a)) in
      if a + 1 == max_attempts
      then (stop (if slept then exhausted else cancelled), s)
      else ((if slept then go_on else stop cancelled), record s { retries = s.retries + 1 })

  unfoldable pub after_reply : ℕ → Reply → Counters → Progress × Counters
  after_reply a (broken permanent) s =
      if permanent
      then (stop rejected, failure s)
      else if env.ended_after a
      then (stop cancelled, failure s)
      else if a + 1 == max_attempts
      then (stop exhausted, failure s)
      else pause a unset (failure s)
  after_reply a (response r) s =
      let (v, s') = judge j signal r s in
      elim v [ final o ↦ (stop o, s') | retry ↦ pause a r.retry_after s' ]

  -- The body of the loop.
  unfoldable pub attempt : ℕ → Counters → Progress × Counters
  attempt a s =
      let s1 = if a == 0 then s else record s { retried_records = s.retried_records + 1 } in
      let s2 = record s1 { requests = s1.requests + 1 } in
      if env.ended a
      then (stop cancelled, s1)
      else if env.built a
      then after_reply a (env.reply a) s2
      else (
        stop unauthorized,
        record s1 {
          auth_failures = s1.auth_failures + 1;
          export_failures = s1.export_failures + 1;
        },
      )

  -- The loop with `left` attempts left.
  unfoldable pub send_from : ℕ → ℕ → Counters → Outcome × Counters
  send_from zero a s = (exhausted, s)
  send_from (suc left) a s =
      let (p, s') = attempt a s in
      let rest = send_from left (a + 1) s' in elim p [ stop o ↦ (o, s') | go_on ↦ rest ]

  -- `Send`
  unfoldable pub send : Counters → Outcome × Counters
  send s = send_from max_attempts 0 s
