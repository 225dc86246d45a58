-- ===== src/Collector/Enqueue.antt =====
-- internal/collectors/metrics.go: the end of `scrape`, which puts the batches into the spool.
use observe_agent.Base.{ℕ, ◌+◌, Bool, true, false, not, ◌&&◌, List, [], ◌∷◌, if◌then◌else◌, Bytes}
use observe_agent.Queue.Files.{Faults}
use observe_agent.Queue.Codec.{Codec}
use observe_agent.Queue.Disk.{Disk, Result, Error, full, done, failed, waiting, died, put}

-- The spool, the flags and the counters that the loop works on.
pub record Scraper : Type 0 where
  pub queue : Disk
  pub blocked : Bool
  pub paused : Bool
  pub accepted_records : ℕ
  pub queued_records : ℕ
  pub queue_rejected : ℕ
  pub dropped_batches : ℕ
  pub export_failures : ℕ

-- errors.Is(err, queue.ErrFull)
abbrev pub is_full : Error → Bool
is_full full = true
is_full _ = false

-- After a `Put`; `ended` is whether the context has ended then. `true` is to go on.
unfoldable pub after_put : Bool → Result ℕ → Scraper → Bool × Scraper
after_put ended (done n) s = (true, record s { queued_records = s.queued_records + 1 })
after_put ended (failed e) s =
    let lost = record s {
      queue_rejected = s.queue_rejected + 1;
      dropped_batches = s.dropped_batches + 1;
    } in
    if not (is_full e) && not ended
    then (
      false,
      record lost { export_failures = s.export_failures + 1; paused = true; blocked = true },
    )
    else (true, lost)
after_put ended waiting s = (false, s)
after_put ended died s = (false, s)

-- `ends` says, by the number of the read, whether the context has ended: `Put` reads it for each
-- batch, and so does the test behind it.
module _ (c : Codec) (env : Faults) (ends : ℕ → Bool) where
  -- The body of the loop for one batch, from read `k` on.
  abbrev pub put_batch : ℕ → Bytes → Scraper → Bool × Scraper
  put_batch k b s =
      let (r, q) = put c env (ends k) b s.queue in
      after_put (ends (k + 1)) r (record s { queue = q; accepted_records = s.accepted_records + 1 })

  -- The loop over the batches.
  unfoldable pub enqueue : ℕ → List Bytes → Scraper → Bool × Scraper
  enqueue k [] s = (true, s)
  enqueue k (b ∷ bs) s =
      let (on, s1) = put_batch k b s in
      let rest = enqueue (k + 2) bs s1 in if on then rest else (false, s1)
