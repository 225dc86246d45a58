-- ===== src/Queue/Logs/Held.antt =====
-- internal/queue/logs_disk_linux.go: the invariant of the logs spool, on its memory and its files.
use observe_agent.Base.{
  ℕ, suc, ◌≤◌, ◌≡◌, ◌∙◌, inl, inr, Bool, true, some, List, [], ◌∷◌, ◌++◌, arith, Bool-cases, length,
  All,
}
use observe_agent.Queue.Files.{
  unchanged, perform, Files, Faults, Io, Io, Io, Io, Io, Io, Io, Io, Io, Io, Io, Io, Io, Io, Io, Io,
  Io, Io, Io, Io, Io, Io, Io, Io, Io, rec, File, Dir,
}
use observe_agent.Queue.Files.Steps.{IsDurable}
use observe_agent.Queue.Files.AtName.{look-files}
use observe_agent.Queue.Disk.Fifo.{IsAscending, IsAscending-le, total, Agree, total-Agree}
use observe_agent.Queue.Logs.{LogDisk}
use observe_agent.Queue.Logs.Record.{LogRecord, LogCodec, decode, max_record, valid_admission}
use observe_agent.Queue.Logs.Rows.{
  drop_ready, first_ready, Row, entries, seqs, ready_names, IsDistinct,
}

-- The record that the file of a row holds.
abbrev pub record_of : LogCodec → Row → LogRecord
record_of c r = record {
  version = 1;
  admission_id = r.id;
  ready = r.ready;
  hash = c.digest r.payload;
  payload = r.payload;
}

pub record StoredRow (c : LogCodec) (d : Dir) (r : Row) : Type 0 where
  pub file : File
  pub found : d.files (rec r.seq) ≡ some file
  pub readable : file.exclusive ≡ true
  pub contents : file.contents ≡ c.encode (record_of c r)
  pub fits : length file.contents ≤ max_record
  pub decodes : decode c file.contents ≡ some (record_of c r)
  pub normal : c.normalize r.payload ≡ some r.payload
  pub identified : valid_admission r.id ≡ true

abbrev pub Settled : Dir → Type 0
Settled d = (n : ℕ) → IsDurable (d.files (rec n))

-- The spool holds the rows: their files, its map, its names and its limits.
pub record IsLogs (c : LogCodec) (q : LogDisk) (rs : List Row) : Type 0 where
  pub settled : Settled q.dir
  pub held : All (StoredRow c q.dir) rs
  pub ascending : IsAscending 0 (seqs rs) q.manifest.next
  pub admitted : q.admissions ≡ entries rs
  pub delivery : q.names ≡ ready_names rs
  pub distinct : IsDistinct (entries rs)
  pub counted : length rs ≤ q.count
  pub charged : total q.dir (seqs rs) ≤ q.bytes
  pub within : (q.count ≤ q.max_items) × (q.bytes ≤ q.max_bytes)

module _ (c : LogCodec) (d e : Dir) where
  pub StoredRow-agree :
      (r : Row) → e.files (rec r.seq) ≡ d.files (rec r.seq) → StoredRow c d r → StoredRow c e r
  StoredRow-agree r h s = record {
    file = s.file;
    found = h ∙ s.found;
    readable = s.readable;
    contents = s.contents;
    fits = s.fits;
    decodes = s.decodes;
    normal = s.normal;
    identified = s.identified;
  }

  pub held-Agree :
      (lo : ℕ) (rs : List Row) (hi : ℕ)
      → IsAscending lo (seqs rs) hi
      → Agree lo hi d e
      → All (StoredRow c d) rs
      → All (StoredRow c e) rs
  held-Agree lo [] hi asc a h = tt
  held-Agree lo (r ∷ rs) hi asc a h =
      let below = IsAscending-le (suc r.seq) (seqs rs) hi asc.1 in
      (
        StoredRow-agree r (a r.seq asc.0 below) h.0,
        held-Agree (suc r.seq) rs hi asc.1 (λ m x y. a m (omega arith) y) h.1,
      )

-- Only the directory changed, and the records are as they were.
pub IsLogs-Agree :
    (c : LogCodec) (q : LogDisk) (d : Dir) (rs : List Row)
    → IsLogs c q rs
    → Settled d
    → Agree 0 q.manifest.next q.dir d
    → IsLogs c (record q { dir = d }) rs
IsLogs-Agree c q d rs i s a = record {
  settled = s;
  held = held-Agree c q.dir d 0 rs q.manifest.next i.ascending a i.held;
  ascending = i.ascending;
  admitted = i.admitted;
  delivery = i.delivery;
  distinct = i.distinct;
  counted = i.counted;
  charged = rw (total-Agree q.dir d 0 (seqs rs) q.manifest.next i.ascending a) i.charged;
  within = i.within;
}

-- Records with fields that only `Next`, `Close` and the waiting read.
pub IsLogs-flags :
    (c : LogCodec) (q : LogDisk) (rs : List Row) (closed wake lock : Bool)
    → IsLogs c q rs
    → IsLogs c (record q { closed = closed; wake = wake; open_lock = lock }) rs
IsLogs-flags c q rs closed wake lock i = record {
  settled = i.settled;
  held = i.held;
  ascending = i.ascending;
  admitted = i.admitted;
  delivery = i.delivery;
  distinct = i.distinct;
  counted = i.counted;
  charged = i.charged;
  within = i.within;
}

-- A head of the names is a ready row whose record is stored.
pub head-StoredRow :
    (c : LogCodec) (d : Dir) (rs : List Row) (n : ℕ) (ns : List ℕ)
    → ready_names rs ≡ n ∷ ns
    → All (StoredRow c d) rs
    → (r : Row) × (first_ready rs ≡ some r)
      × (r.seq ≡ n)
      × StoredRow c d r
      × (ready_names (drop_ready rs) ≡ ns)
head-StoredRow c d [] n ns e h = cc
head-StoredRow c d (r ∷ rs) n ns e h = elim (Bool-cases r.ready) [
  | inl x ↦ let p = rw x at e in (r, rw x, ground arith, h.0, ground arith)
  | inr x ↦
      let (s, f, q, t, w) = head-StoredRow c d rs n ns (rw x at e) h.1 in
      (s, rw x f, q, t, ground arith)
]

pub held-append :
    (c : LogCodec) (d : Dir) (rs : List Row) (r : Row)
    → All (StoredRow c d) rs
    → StoredRow c d r
    → All (StoredRow c d) (rs ++ (r ∷ []))
held-append c d [] r h s = (s, tt)
held-append c d (x ∷ rs) r h s = (h.0, held-append c d rs r h.1 s)

-- Looking at the directory changes no record.
module _ (env : Faults) (d : Dir) {A : Type 0} (result : Files → Io A) (settled : Settled d) where
  pub look_same :
      (n : ℕ) → (perform env result unchanged unchanged d).1.files (rec n) ≡ d.files (rec n)
  look_same n = look-files env (rec n) d (settled n) result

  pub look-Settled : Settled (perform env result unchanged unchanged d).1
  look-Settled n = rw (look_same n) (settled n)

pub looked-IsLogs :
    (c : LogCodec) (env : Faults) (q : LogDisk) (rs : List Row) {A : Type 0} (result : Files → Io A)
    → IsLogs c q rs
    → IsLogs c (record q { dir = (perform env result unchanged unchanged q.dir).1 }) rs
looked-IsLogs c env q rs result i =
    IsLogs-Agree c q (perform env result unchanged unchanged q.dir).1 rs i
      (look-Settled env q.dir result i.settled) (λ n lo hi. look_same env q.dir result i.settled n)
