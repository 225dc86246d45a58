-- ===== src/Queue/Disk/Run.antt =====
-- internal/queue/disk_linux.go: runs of the methods of an open spool.
use observe_agent.Base.{ℕ, ◌≤◌, ◌≡◌, false, Bool, some, List, [], ◌∷◌, ◌++◌, Bytes, length}
use observe_agent.Queue.Files.{Faults}
use observe_agent.Queue.Codec.{Codec}
use observe_agent.Queue.Disk.{Disk, Error, done, failed, max_record, record_of, put, next, ack}
use observe_agent.Queue.Disk.Fifo.{IsQueue}
use observe_agent.Queue.Disk.Refine.{accepted}
use observe_agent.Queue.Disk.Seen.{Seen, Showed}

-- `Run c env seen q ins outs q'`: a sequence of calls from `q` to `q'`. The receipts of `Put` were for
-- `ins`, and the payloads `outs` were shown by `Next` and then acknowledged, other calls in between
-- or not. `seen` are the receipts that `Next` has given before. A run goes on after any failure that
-- leaves the spool open.
pub data Run (c : Codec) (env : Faults)
    : Seen → Disk → List Bytes → List Bytes → Disk → Type 0 where
  stays : {seen : Seen} {q : Disk} → Run c env seen q [] [] q
  accepts :
      {seen : Seen} {q : Disk} {ins outs : List Bytes} {q' : Disk} (ended : Bool)
      (payload p : Bytes) (n : ℕ)
      → c.normalize payload ≡ some p
      → length (record_of c p) ≤ max_record
      → (put c env ended payload q).0 ≡ done n
      → Run c env seen (put c env ended payload q).1 ins outs q'
      → Run c env seen q (p ∷ ins) outs q'
  refuses :
      {seen : Seen} {q : Disk} {ins outs : List Bytes} {q' : Disk} (ended : Bool) (payload : Bytes)
      → accepted (put c env ended payload q).0 ≡ false
      → Run c env seen (put c env ended payload q).1 ins outs q'
      → Run c env seen q ins outs q'
  shows :
      {seen : Seen} {q : Disk} {ins outs : List Bytes} {q' : Disk} (ended : Bool) (id : ℕ)
      (x : Bytes)
      → (next c env ended q).0 ≡ done (id, x)
      → Run c env ((id, x) ∷ seen) (next c env ended q).1 ins outs q'
      → Run c env seen q ins outs q'
  shows_nothing :
      {seen : Seen} {q : Disk} {ins outs : List Bytes} {q' : Disk} (ended : Bool)
      → Run c env seen (next c env ended q).1 ins outs q'
      → Run c env seen q ins outs q'
  acknowledges :
      {seen : Seen} {q : Disk} {ins outs : List Bytes} {q' : Disk} (ended : Bool) (id : ℕ)
      (x : Bytes)
      → Showed id x seen
      → (ack env ended id q).0 ≡ done tt
      → Run c env seen (ack env ended id q).1 ins outs q'
      → Run c env seen q ins (x ∷ outs) q'
  retries :
      {seen : Seen} {q : Disk} {ins outs : List Bytes} {q' : Disk} (ended : Bool) (id : ℕ)
      (e : Error)
      → (ack env ended id q).0 ≡ failed e
      → (ack env ended id q).1.closed ≡ false
      → Run c env seen (ack env ended id q).1 ins outs q'
      → Run c env seen q ins outs q'

-- What a run leaves in the spool.
pub record Remains (c : Codec) (ps ins outs : List Bytes) (q' : Disk) : Type 0 where
  pub rest : List Bytes
  pub queue : IsQueue c q' rest
  pub in_order : ps ++ ins ≡ outs ++ rest
