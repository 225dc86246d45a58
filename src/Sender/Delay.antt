-- ===== src/Sender/Delay.antt =====
-- internal/exporter/sender.go: the delay before the next attempt, in nanoseconds.
use observe_agent.Base.{
  ℕ, ◌+◌, ◌-◌, ◌*◌, ◌/◌, ◌%◌, ◌^◌, ◌≤◌, ◌<◌, min, ◌≡◌, true, false, arith, str_eq, ltb, leb,
  if◌then◌else◌,
}
use observe_agent.Policy
use observe_agent.Policy.{Capability}

abbrev pub second : ℕ
second = 10 ^ 9

abbrev pub max_duration : ℕ
max_duration = 2 ^ 63 - 1

-- A Retry-After header as strconv.ParseInt and http.ParseTime read it: a number of seconds that is
-- not negative, a date as the time from now to it if it lies ahead, or neither.
pub data RetryAfter : Type 0 where
  seconds until : ℕ → RetryAfter
  unset : RetryAfter

-- The delay without a header, `wait` being the jitter: time.Duration(1<<attempt) * time.Second
-- wraps around as an int64. A sum that is negative is given as 0, since a timer takes both as none.
abbrev pub exponential : ℕ → ℕ → ℕ
exponential attempt wait =
    let d = 2 ^ attempt * second % 2 ^ 64 in
    if leb (2 ^ 63) d then d + wait - 2 ^ 64 else min d (30 * second) + wait

-- `retryDelay`; `jitter` is what rand.IntN gives below 500. `date.Sub` saturates.
unfoldable pub retry_delay : RetryAfter → ℕ → ℕ → ℕ
retry_delay (seconds s) attempt jitter =
    if ltb (max_duration / second) s then max_duration else s * second
retry_delay (until d) attempt jitter = min d max_duration
retry_delay unset attempt jitter = exponential attempt (jitter * 10 ^ 6)

-- `retryDelayForSignal`
unfoldable pub delay_for : Capability → RetryAfter → ℕ → ℕ → ℕ
delay_for signal header attempt jitter =
    let d = retry_delay header attempt jitter in
    if str_eq signal Policy.logs then min d (30 * (60 * second)) else d

-- The delay never overflows, logs wait at most half an hour, and other signals at least as long as
-- the server asks for, up to the greatest duration.
pub delay_for_bounds :
    (signal : Capability) (header : RetryAfter) (attempt jitter : ℕ)
    → jitter < 500
    → (delay_for signal header attempt jitter ≤ max_duration)
      × (str_eq signal Policy.logs ≡ true
          → delay_for signal header attempt jitter ≤ 30 * (60 * second))
      × ((s : ℕ)
          → str_eq signal Policy.logs ≡ false
          → header ≡ seconds s
          → min (s * second) max_duration ≤ delay_for signal header attempt jitter)
unfolding delay_for retry_delay
delay_for_bounds signal (seconds s) attempt jitter small =
    (ground arith, λ e. ground arith, λ t e h. ground arith)
delay_for_bounds signal (until d) attempt jitter small =
    (ground arith, λ e. ground arith, λ t e h. cc)
delay_for_bounds signal unset attempt jitter small = (ground arith, λ e. ground arith, λ t e h. cc)
