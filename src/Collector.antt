-- ===== src/Collector.antt =====
-- internal/collectors/metrics.go: the delivery loop between the spool and the sender.
pub mod Delivered
pub mod Enqueue
pub mod Enqueued
mod Tests
use observe_agent.Base.{ℕ, ◌+◌, Bool, true, if◌then◌else◌, Bytes}
use observe_agent.Queue.Files.{Faults}
use observe_agent.Queue.Codec.{Codec}
use observe_agent.Queue.Disk.{Disk, Result, done, failed, waiting, died, next, ack}
use observe_agent.Sender.{Outcome, accepted, rejected, unauthorized, exhausted, cancelled}

-- The part of `Metrics` that the loop works on.
pub record Worker : Type 0 where
  pub queue : Disk
  pub blocked : Bool
  pub paused : Bool
  pub delivered : ℕ
  pub retried : ℕ
  pub export_failures : ℕ

-- How a pass ends: with another pass, with the end of the loop, in the wait of `Next`, or in a crash.
pub data Pass : Type 0 where
  again returns waits crashes : Pass

-- What a pass meets: whether the context has ended at its calls, what the sender returns for a
-- payload, and whether the wait after exhausted attempts is not cut short.
pub record Meets : Type 0 where
  pub ended : Bool
  pub ended_after : Bool
  pub ended_ack : Bool
  pub send : Bytes → Outcome
  pub waits_out : Bool

-- After an `Ack`.
unfoldable pub acknowledged : Result (Unit {0}) → Worker → Pass × Worker
acknowledged (done _) w = (again, record w { delivered = w.delivered + 1 })
acknowledged (failed e) w =
    (returns, record w { export_failures = w.export_failures + 1; blocked = true })
acknowledged waiting w = (waits, w)
acknowledged died w = (crashes, w)

module _ (c : Codec) (env : Faults) (x : Meets) where
  -- The switch on the outcome of `Send`.
  unfoldable pub after_send : Outcome → ℕ → Worker → Pass × Worker
  after_send accepted id w =
      let (r, q) = ack env x.ended_ack id w.queue in acknowledged r (record w { queue = q })
  after_send unauthorized id w = (returns, record w { blocked = true; paused = true })
  after_send rejected id w = (returns, record w { blocked = true; paused = true })
  after_send cancelled id w = (returns, w)
  after_send exhausted id w =
      ((if x.waits_out then again else returns), record w { retried = w.retried + 1 })

  -- After a `Next`.
  unfoldable pub after_next : Result (ℕ × Bytes) → Worker → Pass × Worker
  after_next (done (id, payload)) w = after_send (x.send payload) id w
  after_next (failed e) w = (
    returns,
    (if x.ended_after
        then w
        else record w { export_failures = w.export_failures + 1; paused = true; blocked = true }),
  )
  after_next waiting w = (waits, w)
  after_next died w = (crashes, w)

  -- A pass of the second loop of `launch`.
  unfoldable pub deliver : Worker → Pass × Worker
  deliver w = let (r, q) = next c env x.ended w.queue in after_next r (record w { queue = q })
