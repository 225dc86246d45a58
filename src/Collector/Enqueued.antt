-- ===== src/Collector/Enqueued.antt =====
-- internal/collectors/metrics.go: what a scrape leaves in the spool.
use observe_agent.Base.{
  ℕ, ◌+◌, ◌≤◌, ◌≡◌, Bool, true, false, some, List, [], ◌∷◌, ◌++◌, if◌then◌else◌, length, Bytes,
}
use observe_agent.Queue.Files.{Faults}
use observe_agent.Queue.Codec.{Codec, CodecLaws}
use observe_agent.Queue.Disk.{record_of, max_record}
use observe_agent.Queue.Disk.Fifo.{IsQueue}
use observe_agent.Collector.Enqueue.{Scraper, enqueue}

-- The record of a batch is within the limit of the reads.
abbrev pub Fits : Codec → Bytes → Type 0
Fits c b = (p : Bytes) → c.normalize b ≡ some p → length (record_of c p) ≤ max_record

-- `Taken c bs added lost`: of a first part of the batches, in order, the payloads `added` are those
-- of the ones that the spool has accepted, each once, and `lost` is the number of the others.
pub data Taken (c : Codec) : List Bytes → List Bytes → ℕ → Type 0 where
  stops : {bs : List Bytes} → Taken c bs [] 0
  takes :
      {b p : Bytes} {bs ps : List Bytes} {n : ℕ}
      → c.normalize b ≡ some p
      → Taken c bs ps n
      → Taken c (b ∷ bs) (p ∷ ps) n
  loses : {b : Bytes} {bs ps : List Bytes} {n : ℕ} → Taken c bs ps n → Taken c (b ∷ bs) ps (n + 1)

-- The spool holds what it held and, behind it, the payloads of the accepted batches, which were
-- counted as queued; the others that were tried were counted as rejected and dropped; and a loop
-- that has not stopped has tried every batch.
pub record Enqueued (c : Codec) (bs ps : List Bytes) (s : Scraper) (r : Bool × Scraper)
    : Type 0 where
  pub added : List Bytes
  pub lost : ℕ
  pub taken : Taken c bs added lost
  pub queue : IsQueue c r.1.queue (ps ++ added)
  pub queued : r.1.queued_records ≡ s.queued_records + length added
  pub rejected : r.1.queue_rejected ≡ s.queue_rejected + lost
  pub dropped : r.1.dropped_batches ≡ s.dropped_batches + lost
  pub all_tried : r.0 ≡ true → length bs ≡ length added + lost

module _ (c : Codec) (env : Faults) (laws : CodecLaws c) (ends : ℕ → Bool) where
  -- The loop has stopped, or it goes on with the rest of the batches.
  abbrev and_then : Bool × Scraper → Bool × Scraper → Bool × Scraper
  and_then (on, s) rest = if on then rest else (false, s)

  abbrev Rest : ℕ → List Bytes → Type 0
  Rest k bs =
      (ps : List Bytes) (s : Scraper)
      → IsQueue c s.queue ps
      → Enqueued c bs ps s (enqueue c env ends k bs s)
