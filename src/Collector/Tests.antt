-- ===== src/Collector/Tests.antt =====
-- A pass of the delivery loop over a spool of one payload.
use observe_agent.Base.{ℕ, Bool, List, Bytes, leb, ◌≡◌, refl, ◌⊎◌, true, false, [], ◌∷◌}
use observe_agent.Queue.Files.{name_eq}
use observe_agent.Queue.Disk.{
  put, admit, save_manifest, write, charge, next, next_from, quarantine, decode, ack, drop_head,
}
use observe_agent.Queue.Disk.Tests.{plain, calm, sample, one, one-IsQueue}
use observe_agent.Queue.Disk.Fifo.{IsQueue}
use observe_agent.Sender.{accepted}
use observe_agent.Collector.{Worker, Meets, deliver, after_next, after_send, acknowledged, again}
use observe_agent.Collector.Enqueue.{Scraper, enqueue, after_put}
use observe_agent.Collector.Enqueued.{Enqueued}
use observe_agent.Collector.Delivered.{HeadAccepted, deliver_lem}

abbrev worker : Worker
worker = record {
  queue = one;
  blocked = false;
  paused = false;
  delivered = 0;
  retried = 0;
  export_failures = 0;
}

abbrev accepts_all : Meets
accepts_all = record {
  ended = false;
  ended_after = false;
  ended_ack = false;
  send = λ _. accepted;
  waits_out = true;
}

one_delivered :
    let r = deliver plain calm accepts_all worker in
    (r.0 ≡ again) × (r.1.delivered ≡ 1) × (r.1.queue.names ≡ [])
unfolding deliver after_next after_send acknowledged put admit save_manifest write charge name_eq
    next next_from quarantine decode ack drop_head
one_delivered = (refl, refl, refl)

deliver_lem_example :
    (IsQueue plain (deliver plain calm accepts_all worker).1.queue (sample ∷ [])
      × ((deliver plain calm accepts_all worker).1.delivered ≡ 0))
    ⊎ HeadAccepted plain
        (λ _. accepted)
        (sample ∷ [])
        worker
        (deliver plain calm accepts_all worker)
deliver_lem_example = deliver_lem plain calm accepts_all worker (sample ∷ []) one-IsQueue

abbrev scraper : Scraper
scraper = record {
  queue = one;
  blocked = false;
  paused = false;
  accepted_records = 0;
  queued_records = 0;
  queue_rejected = 0;
  dropped_batches = 0;
  export_failures = 0;
}

-- Two batches, before and behind the end of the context.
abbrev two_batches : List Bytes
two_batches = (91 ∷ 93 ∷ []) ∷ (91 ∷ 93 ∷ []) ∷ []

abbrev ends_later : ℕ → Bool
ends_later k = leb 2 k

second_lost :
    let r = enqueue plain calm ends_later 0 two_batches scraper in
    (r.0 ≡ true) × (r.1.queued_records ≡ 1) × (r.1.dropped_batches ≡ 1)
unfolding enqueue after_put put admit save_manifest write charge name_eq
second_lost = (refl, refl, refl)
