-- ===== src/Sender.antt =====
-- internal/exporter: the requests to the backend, and the delivery with retries.
pub mod Delay
pub mod Reply
pub mod Send
pub mod Judged
pub mod Sent
pub mod Request
mod Tests
use observe_agent.Base.{ℕ}

-- `Outcome`
pub data Outcome : Type 0 where
  accepted rejected unauthorized exhausted cancelled : Outcome

-- The counters of internal/selftelemetry that the sender adds to; `requests` counts the calls of
-- client.Do.
pub record Counters : Type 0 where
  pub retried_records : ℕ
  pub auth_failures : ℕ
  pub export_failures : ℕ
  pub retries : ℕ
  pub throttles : ℕ
  pub batches_accepted : ℕ
  pub points_rejected : ℕ
  pub requests : ℕ
