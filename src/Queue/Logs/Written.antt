-- ===== src/Queue/Logs/Written.antt =====
-- internal/queue/logs_disk_linux.go, `PutAdmission`: what it leaves in the directory.
use observe_agent.Base.{
  ℕ, ◌+◌, ◌%◌, ◌^◌, ◌≡◌, refl, ◌≢◌, Bool, false, Option, some, [], ◌∷◌, ◌++◌, arith, Bytes,
}
use observe_agent.Queue.Files.{ok, Dir, File, rec, pending, manifest, Faults}
use observe_agent.Queue.Files.Laws.{control-rec, name_eq_refl}
use observe_agent.Queue.Files.Steps.{IsDurable, Has, settled_file}
use observe_agent.Queue.Files.Install.{
  replaced-after, created_install-Triple, Either-after, Either, replaced,
}
use observe_agent.Queue.Files.Keeps.{
  install-Keeps, open_truncated-Keeps, Keeps, Keeps-bind, Keeps-after,
}
use observe_agent.Queue.Disk.{Result, done}
use observe_agent.Queue.Logs.{LogDisk, admit, write, save_manifest, manifest_pending}
use observe_agent.Queue.Logs.Record.{LogManifest, LogCodec}

module _ (env : Faults) (k : ℕ) (o : Option File) (durable : IsDurable o) where
  pub write-Either :
      (n : ℕ) (b : Bytes) (d : Dir)
      → d.files (rec k) ≡ o
      → Either (rec n) b (rec k) o (write env (rec n) b d).1
  unfolding write
  write-Either n b d h =
      Either-after (rec n) b (rec k) o _
        (created_install-Triple env pending (rec n) b (rec k) o durable (control-rec ".pending" k)
          (control-rec ".pending" n))
        d h

  pub write-ok :
      (n : ℕ) (b : Bytes) (d : Dir)
      → d.files (rec k) ≡ o
      → (write env (rec n) b d).0 ≡ ok tt
      → (write env (rec n) b d).1.files (rec k) ≡ replaced (rec n) b (rec k) o
  unfolding write
  write-ok n b d h =
      replaced-after (rec n) b (rec k) o _
        (created_install-Triple env pending (rec n) b (rec k) o durable (control-rec ".pending" k)
          (control-rec ".pending" n))
        d h

  save_manifest-Keeps :
      (c : LogCodec) (m : LogManifest) → Keeps (Has (rec k) o) (save_manifest c env m)
  unfolding save_manifest
  save_manifest-Keeps c m =
      Keeps-bind (Has (rec k) o)
        (open_truncated-Keeps env (rec k) o durable manifest_pending
          (control-rec ".manifest.pending" k))
        (λ _.
          install-Keeps env (rec k) o durable manifest_pending (control-rec ".manifest.pending" k)
            manifest (c.encode_manifest m) (control-rec "manifest.json" k))

  pub admit-Either :
      (c : LogCodec) (id : Bytes) (b : Bytes) (cost : ℕ) (q : LogDisk)
      → q.dir.files (rec k) ≡ o
      → Either (rec q.manifest.next) b (rec k) o (admit c env id b cost q).1.dir
  unfolding admit
  admit-Either c id b cost q h =
      let n = q.manifest.next in
      let m = record q.manifest { next = (n + 1) % 2 ^ 64 } in
      let d = (save_manifest c env m q.dir).1 in
      let hs = Keeps-after (Has (rec k) o) (save_manifest-Keeps c m) q.dir h in
      let hw = write-Either n b d hs in ground (arith, hs, hw)

module _ (c : LogCodec) (env : Faults) (id : Bytes) (b : Bytes) (cost : ℕ) (q : LogDisk) where
  abbrev pub admitted_disk : LogDisk
  admitted_disk = (admit c env id b cost q).1

  -- The record was written, and the memory follows.
  pub admit-done :
      (x : ℕ × Bool)
      → IsDurable (q.dir.files (rec q.manifest.next))
      → (admit c env id b cost q).0 ≡ done x
      → (x ≡ (q.manifest.next, false))
        × (admitted_disk.dir.files (rec q.manifest.next) ≡ some (settled_file b))
        × (admitted_disk ≡ record q {
          dir = admitted_disk.dir;
          manifest = record q.manifest { next = (q.manifest.next + 1) % 2 ^ 64 };
          admissions = q.admissions ++ ((id, q.manifest.next) ∷ []);
          count = q.count + 1;
          bytes = q.bytes + cost;
        })
  unfolding admit
  admit-done x durable h =
      let n = q.manifest.next in
      let o = q.dir.files (rec n) in
      let m = record q.manifest { next = (n + 1) % 2 ^ 64 } in
      let d = (save_manifest c env m q.dir).1 in
      let hs = Keeps-after (Has (rec n) o) (save_manifest-Keeps env n o durable c m) q.dir refl in
      let hw = write-ok env n o durable n b d hs in
      let self = name_eq_refl (rec n) in (ground arith, ground (arith, hw, self), ground arith)

  -- Without a receipt only the directory, the sequence number and the flag changed.
  pub admit-frame :
      (r : Result (ℕ × Bool))
      → (admit c env id b cost q).0 ≡ r
      → ((x : ℕ × Bool) → r ≢ done x)
      → admitted_disk ≡ record q {
        dir = admitted_disk.dir;
        manifest = record q.manifest { next = (q.manifest.next + 1) % 2 ^ 64 };
        closed = admitted_disk.closed;
      }
  unfolding admit
  admit-frame r e h = ground (arith, h (q.manifest.next, false))
