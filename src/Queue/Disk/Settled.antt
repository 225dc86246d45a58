-- ===== src/Queue/Disk/Settled.antt =====
-- internal/queue/disk_linux.go: no method leaves a file unsynced, but the pending one.
use observe_agent.Base.{
  ℕ, ◌+◌, ◌≡◌, refl, false, Bool, Option, inl, inr, Bytes, arith, length, List, [], ◌∷◌,
}
use observe_agent.Queue.Files.{
  Name, rec, bad, pending, manifest, backup, name_eq, File, Dir, Files, Faults, Io, ok, err,
  crashed, ◌>>=◌, unchanged, perform, readable, size_of, rename, remove, stat, read, readable,
  size_of,
}
use observe_agent.Queue.Files.Laws.{pending-backup, pending-manifest, control-rec}
use observe_agent.Queue.Files.Steps.{IsDurable}
use observe_agent.Queue.Files.AtName.{look-files, remove-files, rename-files}
use observe_agent.Queue.Codec.{Codec}
use observe_agent.Queue.Disk.{
  Disk, write, save_manifest, admit, put, charge, record_of, next_from, next, drop_head, ack,
  quarantine, max_record,
}
use observe_agent.Queue.Disk.Write.{replaced, Either}
use observe_agent.Queue.Disk.Put.{write-Either}
use observe_agent.Queue.Disk.Accept.{put-cases}

-- Every file but the pending one is synced, so that a crash cannot cut it.
pub record IsSettled (d : Dir) : Type 0 where
  pub durable : (k : Name) → name_eq pending k ≡ false → IsDurable (d.files k)

replaced-IsDurable :
    (name : Name) (b : Bytes) (k : Name) (o : Option File)
    → IsDurable o
    → IsDurable (replaced name b k o)
replaced-IsDurable name b k o h = ground arith

module _ (env : Faults) where
  write-IsSettled :
      (name : Name) (b : Bytes) (d : Dir)
      → name_eq pending name ≡ false
      → IsSettled d
      → IsSettled (write env name b d).1
  write-IsSettled name b d other s = record {
    durable = λ k ne.
        go k (s.durable k ne)
          (write-Either env k (d.files k) (s.durable k ne) ne name b d other refl);
  }
    where
      go :
          (k : Name)
          → IsDurable (d.files k)
          → Either name b k (d.files k) (write env name b d).1
          → IsDurable ((write env name b d).1.files k)
      go k h (inl e) = rw e h
      go k h (inr e) = rw e (replaced-IsDurable name b k (d.files k) h)

  module _ (c : Codec) where
    save_manifest-IsSettled :
        (version : ℕ) (scope : Bytes) (n : ℕ) (d : Dir)
        → IsSettled d
        → IsSettled (save_manifest c env version scope n d).1
    unfolding save_manifest
    save_manifest-IsSettled version scope n d s =
        let b = c.encode_manifest version scope n in
        let s1 = write-IsSettled backup b d pending-backup s in
        let s2 = write-IsSettled manifest b (write env backup b d).1 pending-manifest s1 in
        go (write env backup b d).0 s1 s2
      where
        go :
            (r : Io (Unit {0}))
            → IsSettled (write env backup (c.encode_manifest version scope n) d).1
            → IsSettled
                (write env manifest
                  (c.encode_manifest version scope n)
                  (write env backup (c.encode_manifest version scope n) d).1).1
            → IsSettled
                (observe_agent.Queue.Files.continue r
                  (λ _. write env manifest (c.encode_manifest version scope n))
                  (write env backup (c.encode_manifest version scope n) d).1).1
        go (ok a) s1 s2 = s2
        go (err e) s1 s2 = s1
        go crashed s1 s2 = s1

    admit-IsSettled :
        (b : Bytes) (cost : ℕ) (q : Disk) → IsSettled q.dir → IsSettled (admit c env b cost q).1.dir
    admit-IsSettled b cost q s =
        let saved = save_manifest c env q.version q.scope (q.next + 1) q.dir in
        let s1 = save_manifest-IsSettled q.version q.scope (q.next + 1) q.dir s in
        let s2 = write-IsSettled (rec q.next) b saved.1 (control-rec ".pending" q.next) s1 in
        record {
          durable = λ k ne. unfold admit in ground (arith, s1.durable k ne, s2.durable k ne);
        }

    pub put-IsSettled :
        (ended : Bool) (payload : Bytes) (q : Disk)
        → IsSettled q.dir
        → IsSettled (put c env ended payload q).1.dir
    put-IsSettled ended payload q s = elim (put-cases c env ended payload q) [
      | inl r ↦ rw r.0 s
      | inr (p, e, r, x1, x2, x3, x4) ↦
          rw r (admit-IsSettled (record_of c p) (charge (length (record_of c p))) q s)
    ]

  pub look-IsSettled :
      {A : Type 0} (result : Files → Io A) (d : Dir)
      → IsSettled d
      → IsSettled (perform env result unchanged unchanged d).1
  look-IsSettled result d s = record {
    durable = λ k ne. rw (look-files env k d (s.durable k ne) result) (s.durable k ne);
  }

  pub remove-IsSettled : (n : Name) (d : Dir) → IsSettled d → IsSettled (remove env n d).1
  remove-IsSettled n d s = record {
    durable = λ k ne. elim (remove-files env k d (s.durable k ne) n) [
      | inl e ↦ rw e (s.durable k ne)
      | inr e ↦ rw e.1 refl
    ];
  }

  rename-IsSettled :
      (a b : Name) (d : Dir)
      → name_eq pending a ≡ false
      → IsSettled d
      → IsSettled (rename env a b d).1
  rename-IsSettled a b d na s = record {
    durable = λ k ne. elim (rename-files env k d (s.durable k ne) a b) [
      | inl e ↦ rw e (s.durable k ne)
      | inr (inl e) ↦ rw e.1 (s.durable a na)
      | inr (inr e) ↦ rw e.1 refl
    ];
  }

  quarantine-IsSettled : (n : ℕ) (q : Disk) → IsSettled q.dir → IsSettled (quarantine env n q).1.dir
  quarantine-IsSettled n q s =
      let d = (rename env (rec n) (bad n) q.dir).1 in
      let s1 = rename-IsSettled (rec n) (bad n) q.dir (control-rec ".pending" n) s in
      let s2 = look-IsSettled (λ _. ok tt) d s1 in
      record {
        durable = λ k ne. unfold quarantine in ground (arith, s1.durable k ne, s2.durable k ne);
      }

  module _ (c : Codec) where
    pub next_from-IsSettled :
        (ns : List ℕ) (q : Disk) → IsSettled q.dir → IsSettled (next_from c env ns q).1.dir
    unfolding next_from
    next_from-IsSettled [] q s = record { durable = s.durable }
    next_from-IsSettled (n ∷ ns) q s =
        let d = (read env (rec n) max_record q.dir).1 in
        let s1 = look-IsSettled (λ fs. readable max_record (fs (rec n))) q.dir s in
        let here = record q { dir = d; names = n ∷ ns } in
        let s2 = quarantine-IsSettled n here s1 in
        let s3 = next_from-IsSettled ns (quarantine env n here).1 s2 in
        record {
          durable = λ k ne. ground (arith, s1.durable k ne, s2.durable k ne, s3.durable k ne);
        }

    pub next-IsSettled :
        (ended : Bool) (q : Disk) → IsSettled q.dir → IsSettled (next c env ended q).1.dir
    unfolding next
    next-IsSettled ended q s =
        let s1 = next_from-IsSettled q.names q s in
        record { durable = λ k ne. ground (arith, s.durable k ne, s1.durable k ne) }

  pub drop_head-IsSettled :
      (n : ℕ) (rest : List ℕ) (q : Disk)
      → IsSettled q.dir
      → IsSettled (drop_head env n rest q).1.dir
  drop_head-IsSettled n rest q s =
      let d1 = (stat env (rec n) q.dir).1 in
      let s1 = look-IsSettled (λ fs. size_of (fs (rec n))) q.dir s in
      let d2 = (remove env (rec n) d1).1 in
      let s2 = remove-IsSettled (rec n) d1 s1 in
      let s3 = look-IsSettled (λ _. ok tt) d2 s2 in
      record {
        durable = λ k ne.
            unfold drop_head in ground (arith, s1.durable k ne, s2.durable k ne, s3.durable k ne);
      }

  pub ack-IsSettled :
      (ended : Bool) (id : ℕ) (q : Disk) → IsSettled q.dir → IsSettled (ack env ended id q).1.dir
  ack-IsSettled ended id q s = go q.names refl
    where
      go : (ns : List ℕ) → q.names ≡ ns → IsSettled (ack env ended id q).1.dir
      go [] e = record { durable = λ k ne. unfold ack in ground (arith, s.durable k ne) }
      go (n ∷ rest) e =
          let s1 = drop_head-IsSettled n rest q s in
          record { durable = λ k ne. unfold ack in ground (arith, s.durable k ne, s1.durable k ne) }
