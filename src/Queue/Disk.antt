-- ===== src/Queue/Disk.antt =====
-- internal/queue/disk_linux.go: the metrics spool.
-- A method returns its result and the queue. Sequence numbers stand for the names of the records.
pub mod Write
pub mod Put
pub mod Accept
pub mod Settled
pub mod Fifo
pub mod Refine
pub mod Deliver
pub mod Drop
pub mod Ack
pub mod Seen
pub mod Run
pub mod Open
pub mod Listing
pub mod Reopened
mod OpenTests
pub mod Tests
use observe_agent.Base.{
  ℕ, ◌+◌, ◌-◌, ◌*◌, ◌/◌, ◌^◌, Bool, true, false, not, ◌||◌, List, [], ◌∷◌, ◌++◌, Option, none, some,
  length, Bytes, bytes_eq, ◌==◌, leb, ltb, if◌then◌else◌,
}
use observe_agent.Queue.Files.{
  Name, rec, bad, pending, manifest, backup, Dir, Faults, Io, ok, err, crashed, IoError, M, ◌>>=◌,
  ◌>>◌, attempt, rethrow, deferring, create, write_data, sync, close_file, sync_dir, rename, remove,
  stat, read,
}
use observe_agent.Queue.Codec.{Codec}

-- `Disk`; `version`, `scope` and `next` are the manifest's, `open_lock` is `lock != nil`.
pub record Disk : Type 0 where
  pub dir : Dir
  pub version : ℕ
  pub scope : Bytes
  pub next : ℕ
  pub names : List ℕ
  pub bytes : ℕ
  pub count : ℕ
  pub max_bytes : ℕ
  pub max_items : ℕ
  pub closed : Bool
  pub wake : Bool
  pub corrupt : ℕ
  pub open_lock : Bool

pub data Error : Type 0 where
  cancelled spool_closed invalid_payload full exhausted not_head corrupt_record : Error
  io : IoError → Error

-- `died`: the process ended by a crash. `waiting`: the call blocks until it is woken.
pub data Result {ℓ} (A : Type ℓ) : Type ℓ where
  done : A → Result A
  failed : Error → Result A
  waiting died : Result A

unfoldable pub charge : ℕ → ℕ
charge n = (n + 4095) / 4096 * 4096

abbrev pub max_payload : ℕ
max_payload = 4 * 2 ^ 20

-- The limit of `read` for records.
abbrev pub max_record : ℕ
max_record = 5 * 2 ^ 20

abbrev pub last_sequence : ℕ
last_sequence = 2 ^ 64 - 1

module _ (env : Faults) where
  -- `write`
  unfoldable pub write : Name → Bytes → M (Unit {0})
  write name b = do
    create env pending
    deferring (remove env pending) (do
      written ← attempt (do write_data env pending b; sync env pending)
      closed ← attempt (close_file env)
      rethrow written
      rethrow closed
      rename env pending name
      sync_dir env)

  unfoldable pub quarantine : ℕ → Disk → Io (Unit {0}) × Disk
  quarantine n q =
      let (r, d) = rename env (rec n) (bad n) q.dir in
      let (s, d') = sync_dir env d in
      elim r [
        | ok _ ↦ (s, record q { dir = d'; corrupt = q.corrupt + 1 })
        | err e ↦ (err e, record q { dir = d })
        | crashed ↦ (crashed, record q { dir = d })
      ]

  -- `Ack` of the head, from the os.Stat on.
  unfoldable pub drop_head : ℕ → List ℕ → Disk → Result (Unit {0}) × Disk
  drop_head n rest q =
      let (size, d1) = stat env (rec n) q.dir in
      let (removed, d2) = remove env (rec n) d1 in
      let (synced, d3) = sync_dir env d2 in
      elim size [
        | crashed ↦ (died, record q { dir = d1 })
        | err e ↦ (failed (io e), record q { dir = d1 })
        | ok k ↦ elim removed [
          | crashed ↦ (died, record q { dir = d2 })
          | err e ↦ (failed (io e), record q { dir = d2 })
          | ok _ ↦ elim synced [
            | crashed ↦ (died, record q { dir = d3 })
            | err e ↦ (failed (io e), record q { dir = d3; closed = true })
            | ok _ ↦ (
              done tt,
              record q { dir = d3; names = rest; count = q.count - 1; bytes = q.bytes - charge k },
            )
          ]
        ]
      ]

  -- `Ack`
  unfoldable pub ack : Bool → ℕ → Disk → Result (Unit {0}) × Disk
  ack ended id q =
      if ended
      then (failed cancelled, q)
      else if q.closed
      then (failed spool_closed, q)
      else elim q.names [
        | [] ↦ (failed not_head, q)
        | n ∷ rest ↦ if n == id then drop_head n rest q else (failed not_head, q)
      ]

  -- `Close`
  unfoldable pub close : Disk → Result (Unit {0}) × Disk
  close q =
      let shut = record q { closed = true; wake = true } in
      let (r, d) = close_file env q.dir in
      let freed = record shut { dir = d; open_lock = false } in
      if q.open_lock
      then elim r [
        | ok _ ↦ (done tt, freed)
        | err e ↦ (failed (io e), freed)
        | crashed ↦ (died, freed)
      ]
      else (done tt, shut)

module _ (c : Codec) where
  -- The bytes that `Put` writes for a normalized payload.
  abbrev pub record_of : Bytes → Bytes
  record_of p = c.encode_record 1 (c.digest p) p

  -- `decodeRecord`: the payload of a record of version 1 whose hash fits.
  abbrev pub verified : Option (ℕ × Bytes × Bytes) → Option Bytes
  verified none = none
  verified (some (v, h, p)) =
      if not (v == 1) || not (c.valid p)
      then none
      else if bytes_eq (c.digest p) h
      then some p
      else none

  unfoldable pub decode : Bytes → Option Bytes
  decode b = verified (c.decode_record b)

  module _ (env : Faults) where
    -- `saveManifest`: the backup first, then the manifest.
    unfoldable pub save_manifest : ℕ → Bytes → ℕ → M (Unit {0})
    save_manifest version scope next = do
      write env backup (c.encode_manifest version scope next)
      write env manifest (c.encode_manifest version scope next)

    -- `Put` from the sequence number on, for a record `b` that is charged `cost`.
    unfoldable pub admit : Bytes → ℕ → Disk → Result ℕ × Disk
    admit b cost q =
        let n = q.next in
        let (saved, d) = save_manifest q.version q.scope (n + 1) q.dir in
        let (written, d') = write env (rec n) b d in
        elim saved [
          | crashed ↦ (died, record q { dir = d; next = n + 1 })
          | err e ↦ (failed (io e), record q { dir = d; next = n + 1; closed = true })
          | ok _ ↦ elim written [
            | crashed ↦ (died, record q { dir = d'; next = n + 1 })
            | err e ↦ (failed (io e), record q { dir = d'; next = n + 1; closed = true })
            | ok _ ↦ (
              done n,
              record q {
                dir = d';
                next = n + 1;
                names = q.names ++ (n ∷ []);
                count = q.count + 1;
                bytes = q.bytes + cost;
                wake = true;
              },
            )
          ]
        ]

    -- `Put`; `cancelled` is whether the context has ended.
    unfoldable pub put : Bool → Bytes → Disk → Result ℕ × Disk
    put ended payload q =
        if ended
        then (failed cancelled, q)
        else if q.closed
        then (failed spool_closed, q)
        else if ltb max_payload (length payload) || not (c.valid payload)
        then (failed invalid_payload, q)
        else elim (c.normalize payload) [
          | none ↦ (failed invalid_payload, q)
          | some p ↦
              let b = record_of p in
              let cost = charge (length b) in
              if leb q.max_items q.count || ltb q.max_bytes (q.bytes + cost)
              then (failed full, q)
              else if q.next == last_sequence
              then (failed exhausted, q)
              else admit b cost q
        ]

    -- The loop of `Next` over the names: records that do not decode are quarantined.
    unfoldable pub next_from : List ℕ → Disk → Result (ℕ × Bytes) × Disk
    next_from [] q = (waiting, record q { names = [] })
    next_from (n ∷ ns) q =
        let (r, d) = read env (rec n) max_record q.dir in
        let here = record q { dir = d; names = n ∷ ns } in
        let (s, q') = quarantine env n here in
        let rest = next_from ns q' in
        elim r [
          | err e ↦ (failed (io e), here)
          | crashed ↦ (died, here)
          | ok b ↦ elim (decode b) [
            | some p ↦ (done (n, p), here)
            | none ↦ elim s [ ok _ ↦ rest | err e ↦ (failed (io e), q') | crashed ↦ (died, q') ]
          ]
        ]

    -- `Next`
    unfoldable pub next : Bool → Disk → Result (ℕ × Bytes) × Disk
    next ended q =
        if ended
        then (failed cancelled, q)
        else if q.closed
        then (failed spool_closed, q)
        else next_from q.names q
