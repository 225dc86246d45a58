-- ===== src/Queue/Logs/Looked.antt =====
-- internal/queue/logs_disk_linux.go: the reads of the opening, and the recovery of the manifest.
use observe_agent.Base.{
  ℕ, ◌≡◌, refl, inl, inr, true, false, ◌&&◌, Option, none, some, ltb, leb, if◌then◌else◌,
  Bool-cases, length, Bytes,
}
use observe_agent.Queue.Files.{
  answered, Name, rec, manifest, File, Files, Dir, Faults, Io, ok, err, crashed, conflict, M, ◌>>=◌,
  Answer, got, refused, ask, raise, perform, unchanged, rename, read, outcome, Fault, pass, fail,
  crash, readable, name_eq,
}
use observe_agent.Queue.Files.Laws.{control-rec}
use observe_agent.Queue.Files.Logic.{Assertion, Ensures, Triple}
use observe_agent.Queue.Files.Steps.{IsDurable, Has}
use observe_agent.Queue.Files.Keeps.{
  Keeps-after, Keeps, Keeps-bind, Keeps-ask, Keeps-give, Keeps-raise, Keeps-if, Keeps-both, Both,
  look-Keeps, rename-Keeps,
}
use observe_agent.Queue.Logs.{replace_pending, manifest_pending}
use observe_agent.Queue.Logs.Record.{
  LogRecord, LogManifest, LogCodec, decode, decode_manifest, max_manifest,
}
use observe_agent.Queue.Logs.Open.{
  is_missing, finish_manifest, replace_manifest, pending_manifest, recover_manifest,
}

-- What a read says of the file.
abbrev pub Read : Name → Answer Bytes → Assertion
Read n (got raw) d = (f : File) × (d.files n ≡ some f) × (f.contents ≡ raw)
Read n (refused e) d = is_missing e ≡ true → d.files n ≡ none

-- A read, with what it says of the file.
module _ (env : Faults) (S : Assertion) (n : Name) (limit : ℕ)
    (keep : Keeps S (read env n limit)) where
  pub ask-read-Triple : Triple S (ask (read env n limit)) (λ a d. S d × Read n a d) S S
  ask-read-Triple = record {
    at = λ d h. go d (env.fault d.ticks) (d.files n) refl (Keeps-after S keep d h);
  }
    where
      go :
          (d : Dir) (x : Fault) (o : Option File)
          → d.files n ≡ o
          → let r =
              outcome x (env.cut d.ticks) (λ fs. readable limit (fs n)) unchanged unchanged d in
            S r.1 → Ensures (λ a d'. S d' × Read n a d') S S (answered r.0) r.1
      go d pass none e k = rw e (k, λ m. e)
      go d pass (some f) e k = elim (Bool-cases (f.exclusive && leb (length f.contents) limit)) [
        | inl t ↦ rw (e, t) (k, (f, e, refl))
        | inr t ↦ rw (e, t) (k, λ m. cc)
      ]
      go d fail o e k = (k, λ m. cc)
      go d crash o e k = k

  pub read-Triple : Triple S (read env n limit) (λ raw d. S d × Read n (got raw) d) S S
  read-Triple = record {
    at = λ d h. go (read env n limit d).0 (read env n limit d).1 (ask-read-Triple.at d h);
  }
    where
      go :
          (r : Io Bytes) (d : Dir)
          → Ensures (λ a d'. S d' × Read n a d') S S (answered r) d
          → Ensures (λ raw d'. S d' × Read n (got raw) d') S S r d
      go (ok b) d h = h
      go (err e) d h = h.0
      go crashed d h = h

-- A record `r` that is stored as `k`, in a synced file, and what stands for its next version.
module _ (c : LogCodec) (env : Faults) (k : ℕ) (f : File) (r : LogRecord) (o : Option File)
    (synced : f.synced ≡ true) (durable : IsDurable o)
    (decodes : decode c f.contents ≡ some r) where
  abbrev pub Here : Assertion
  Here = Both (Has (rec k) (some f)) (Has replace_pending o)

  pub look-Here :
      {A : Type 0} (result : Files → Io A) → Keeps Here (perform env result unchanged unchanged)
  look-Here result =
      Keeps-both (Has (rec k) (some f)) (Has replace_pending o)
        (look-Keeps env (rec k) (some f) synced result)
        (look-Keeps env replace_pending o durable result)

  pub rename-Here :
      (a b : Name)
      → name_eq a (rec k) ≡ false
      → name_eq b (rec k) ≡ false
      → name_eq a replace_pending ≡ false
      → name_eq b replace_pending ≡ false
      → Keeps Here (rename env a b)
  rename-Here a b ak bk ap' bp =
      Keeps-both (Has (rec k) (some f)) (Has replace_pending o)
        (rename-Keeps env (rec k) (some f) synced a ak b bk)
        (rename-Keeps env replace_pending o durable a ap' b bp)

  finish_manifest-Here : Keeps Here (finish_manifest c env)
  finish_manifest-Here =
      Keeps-bind Here
        (rename-Here manifest_pending manifest (control-rec ".manifest.pending" k)
          (control-rec "manifest.json" k) (unfold name_eq in refl) (unfold name_eq in refl))
        (λ _. look-Here (λ _. ok tt))

  replace_manifest-Here :
      (scope : Bytes) (p : LogManifest) (a : Answer Bytes)
      → Keeps Here (replace_manifest c env scope p a)
  unfolding replace_manifest
  replace_manifest-Here scope p (refused e) =
      Keeps-if Here (is_missing e) finish_manifest-Here (Keeps-raise Here e)
  replace_manifest-Here scope p (got raw) = go (decode_manifest c raw scope)
    where
      go :
          (m : Option LogManifest)
          → Keeps Here (elim m as (λ _. M (Unit {0})) [
            | none ↦ raise conflict
            | some current ↦
                if ltb p.next current.next then raise conflict else finish_manifest c env
          ])
      go none = Keeps-raise Here conflict
      go (some x) =
          Keeps-if Here (ltb p.next x.next) (Keeps-raise Here conflict) finish_manifest-Here

  pending_manifest-Here :
      (scope : Bytes) (a : Answer Bytes) → Keeps Here (pending_manifest c env scope a)
  unfolding pending_manifest
  pending_manifest-Here scope (refused e) =
      Keeps-if Here (is_missing e) (Keeps-give Here tt) (Keeps-raise Here e)
  pending_manifest-Here scope (got raw) = go (decode_manifest c raw scope)
    where
      go :
          (m : Option LogManifest)
          → Keeps Here (elim m as (λ _. M (Unit {0})) [
            | none ↦ raise conflict
            | some p ↦ ask (read env manifest max_manifest) >>= replace_manifest c env scope p
          ])
      go none = Keeps-raise Here conflict
      go (some p) =
          Keeps-bind Here (Keeps-ask Here (look-Here _)) (λ a. replace_manifest-Here scope p a)

  pub recover_manifest-Here : (scope : Bytes) → Keeps Here (recover_manifest c env scope)
  unfolding recover_manifest
  recover_manifest-Here scope =
      Keeps-bind Here (Keeps-ask Here (look-Here _)) (λ a. pending_manifest-Here scope a)
