-- ===== src/Queue/Disk/Put.antt =====
-- internal/queue/disk_linux.go, `saveManifest` and the end of `Put`: what they leave in the directory.
use observe_agent.Base.{
  ℕ, ◌+◌, ◌≡◌, refl, ◌⊎◌, inl, inr, false, Option, [], ◌∷◌, ◌++◌, arith, Bytes,
}
use observe_agent.Queue.Files.{
  Name, rec, pending, manifest, backup, name_eq, File, Dir, Faults, Io, ok, err, crashed, IoError,
}
use observe_agent.Queue.Files.Laws.{pending-backup, pending-manifest, control-rec}
use observe_agent.Queue.Files.Logic.{Triple, Triple-bind, Triple-weaken}
use observe_agent.Queue.Files.Steps.{IsDurable, Has}
use observe_agent.Queue.Files.Keeps.{Ensures-all}
use observe_agent.Queue.Files.Install.{Either-after, replaced-after}
use observe_agent.Queue.Codec.{Codec}
use observe_agent.Queue.Disk.{Disk, done, write, save_manifest, admit}
use observe_agent.Queue.Disk.Write.{replaced, Either, write-Triple}

pub Io-cases : (r : Io (Unit {0})) → (r ≡ ok tt) ⊎ (((e : IoError) × (r ≡ err e)) ⊎ (r ≡ crashed))
Io-cases (ok a) = inl refl
Io-cases (err e) = inr (inl (e, refl))
Io-cases crashed = inr (inr refl)

module _ (env : Faults) (k : Name) (o : Option File) (durable : IsDurable o)
    (ne : name_eq pending k ≡ false) where
  pub write-Either :
      (name : Name) (b : Bytes) (d : Dir)
      → name_eq pending name ≡ false
      → d.files k ≡ o
      → Either name b k o (write env name b d).1
  write-Either name b d other h =
      Either-after name b k o (write env name b) (write-Triple env name b k o durable ne other) d h

  pub write-ok :
      (name : Name) (b : Bytes) (d : Dir)
      → name_eq pending name ≡ false
      → d.files k ≡ o
      → (write env name b d).0 ≡ ok tt
      → (write env name b d).1.files k ≡ replaced name b k o
  write-ok name b d other h e =
      replaced-after name b k o (write env name b) (write-Triple env name b k o durable ne other) d
        h e

  write_untouched :
      (name : Name) (b : Bytes)
      → name_eq pending name ≡ false
      → name_eq name k ≡ false
      → Triple (Has k o) (write env name b) (λ _. Has k o) (Has k o) (Has k o)
  write_untouched name b other n =
      Triple-weaken (λ _. Has k (replaced name b k o)) (λ _. Has k o) (Either name b k o) (Has k o)
        (Either name b k o) (Has k o) (λ d h. h) (λ a d h. same d h) both both
        (write-Triple env name b k o durable ne other)
    where
      same : (d : Dir) → d.files k ≡ replaced name b k o → d.files k ≡ o
      same d h = rw n at h

      both : (d : Dir) → Either name b k o d → d.files k ≡ o
      both d (inl h) = h
      both d (inr h) = same d h

  module _ (c : Codec) where
    -- Saving the manifest touches no other file.
    pub save_manifest-Triple :
        (version : ℕ) (scope : Bytes) (next : ℕ)
        → name_eq manifest k ≡ false
        → name_eq backup k ≡ false
        → Triple
            (Has k o)
            (save_manifest c env version scope next)
            (λ _. Has k o)
            (Has k o)
            (Has k o)
    unfolding save_manifest
    save_manifest-Triple version scope next nm nb =
        Triple-bind (λ _. Has k o)
          (write_untouched backup (c.encode_manifest version scope next) pending-backup nb)
          (λ _. write_untouched manifest (c.encode_manifest version scope next) pending-manifest nm)

    module _ (nm : name_eq manifest k ≡ false) (nb : name_eq backup k ≡ false) where
      saved_untouched :
          (version : ℕ) (scope : Bytes) (next : ℕ) (d : Dir)
          → d.files k ≡ o
          → (save_manifest c env version scope next d).1.files k ≡ o
      saved_untouched version scope next d h =
          let r = save_manifest c env version scope next d in
          Ensures-all (Has k o) r.0 r.1 ((save_manifest-Triple version scope next nm nb).at d h)

      -- Whatever happens, admitting a record leaves the file as it was, or the whole record.
      pub admit-Either :
          (b : Bytes) (cost : ℕ) (q : Disk)
          → q.dir.files k ≡ o
          → Either (rec q.next) b k o (admit c env b cost q).1.dir
      unfolding admit
      admit-Either b cost q h =
          let s = save_manifest c env q.version q.scope (q.next + 1) q.dir in
          let w = write env (rec q.next) b s.1 in
          let hs = saved_untouched q.version q.scope (q.next + 1) q.dir h in
          let hw = write-Either (rec q.next) b s.1 (control-rec ".pending" q.next) hs in
          ground (arith, hs, hw)

      pub admit-ok :
          (b : Bytes) (cost n : ℕ) (q : Disk)
          → q.dir.files k ≡ o
          → (admit c env b cost q).0 ≡ done n
          → (n ≡ q.next)
            × ((admit c env b cost q).1.dir.files k ≡ replaced (rec n) b k o)
            × ((admit c env b cost q).1.names ≡ q.names ++ (n ∷ []))
            × ((admit c env b cost q).1.next ≡ n + 1)
            × ((admit c env b cost q).1.count ≡ q.count + 1)
            × ((admit c env b cost q).1.bytes ≡ q.bytes + cost)
            × ((admit c env b cost q).1.closed ≡ q.closed)
      unfolding admit
      admit-ok b cost n q h r =
          let s = save_manifest c env q.version q.scope (q.next + 1) q.dir in
          let hs = saved_untouched q.version q.scope (q.next + 1) q.dir h in
          ground (arith, hs, write-ok (rec q.next) b s.1 (control-rec ".pending" q.next) hs)
