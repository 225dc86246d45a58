-- ===== src/Queue/Files/Install.antt =====
-- The installation of a file by a synced temporary one: what it leaves on every outcome.
use observe_agent.Base.{
  ◌≡◌, refl, ◌⊎◌, inl, inr, Bool, true, false, Option, none, some, [], if◌then◌else◌, Bytes,
}
use observe_agent.Queue.Files.{
  crashed, err, ok, create, Io, Name, File, Dir, Faults, IoError, M, name_eq, write_data, sync,
  close_file, rename, sync_dir, attempt, rethrow, install, ◌>>=◌,
}
use observe_agent.Queue.Files.Logic.{
  Ensures, Triple, Triple-bind, Triple-attempt, Triple-weaken, Tried, Assertion,
}
use observe_agent.Queue.Files.Steps.{
  create-Triple, IsDurable, Has, settled_file, unsynced, HasBoth, write_data-Triple, sync-Triple,
  rename-Triple, sync_dir-Triple, close_file-Triple,
}

-- The file at `k` once `name` holds the bytes `b`.
abbrev pub replaced : Name → Bytes → Name → Option File → Option File
replaced name b k o = if name_eq name k then some (settled_file b) else o

-- The file at `k` is the old one, or `name` holds the bytes `b`.
abbrev pub Either : Name → Bytes → Name → Option File → Assertion
Either name b k o d = (d.files k ≡ o) ⊎ (d.files k ≡ replaced name b k o)

module _ (env : Faults) (tmp name : Name) (b : Bytes) (k : Name) (o : Option File)
    (durable : IsDurable o) (ne : name_eq tmp k ≡ false) (other : name_eq tmp name ≡ false) where
  abbrev pub Old : Assertion
  Old = Has k o

  abbrev pub New : Assertion
  New = Has k (replaced name b k o)

  abbrev pub Full : Assertion
  Full = HasBoth k o tmp (some (settled_file b))

  pub replaced-IsDurable : IsDurable (replaced name b k o)
  replaced-IsDurable = go (name_eq name k)
    where
      go : (x : Bool) → IsDurable (if x then some (settled_file b) else o)
      go true = refl
      go false = durable

  fill-Triple :
      Triple
        (HasBoth k o tmp (some (unsynced [])))
        (write_data env tmp b >>= λ _. sync env tmp)
        (λ _. Full)
        Old
        Old
  fill-Triple =
      Triple-bind (λ _. HasBoth k o tmp (some (unsynced b)))
        (write_data-Triple env tmp k o durable ne b) (λ _. sync-Triple env tmp k o durable ne b)

  -- What is known while the results of the write and of the close are held.
  close-Triple :
      (w : Option IoError)
      → Triple (Tried Full Old w) (close_file env) (λ _. Tried Full Old w) (Tried Full Old w) Old
  close-Triple none =
      close_file-Triple env k o durable (λ fs. (fs k ≡ o) × (fs tmp ≡ some (settled_file b)))
        (λ fs h. h.0)
  close-Triple (some e) = close_file-Triple env k o durable (λ fs. fs k ≡ o) (λ fs h. h)

  abbrev pub Mixed : Assertion
  Mixed = Either name b k o

  rename_synced-Triple :
      Triple Full (rename env tmp name >>= λ _. sync_dir env) (λ _. New) Mixed Mixed
  rename_synced-Triple =
      Triple-bind (λ _. New)
        (Triple-weaken (λ _. New) (λ _. New) Old Mixed Old Mixed (λ d h. h) (λ a d h. h)
          (λ d h. inl h) (λ d h. inl h) (rename-Triple env tmp k o durable ne name b other))
        (λ _.
          Triple-weaken (λ _. New) (λ _. New) New Mixed New Mixed (λ d h. h) (λ a d h. h)
            (λ d h. inr h) (λ d h. inr h)
            (sync_dir-Triple env k (replaced name b k o) replaced-IsDurable))

  -- An error of the write or of the close leaves the old file.
  pub old_errors :
      {A : Type 0} (P : Assertion) (Q : A → Assertion) {m : M A}
      → Triple P m Q Old Old
      → Triple P m Q Mixed Mixed
  old_errors P Q t =
      Triple-weaken Q Q Old Mixed Old Mixed (λ d h. h) (λ a d h. h) (λ d h. inl h) (λ d h. inl h) t

  -- Both held results are returned, and only without an error is the file renamed.
  finish-Triple :
      (w c : Option IoError)
      → Triple
          (Tried (Tried Full Old w) (Tried Full Old w) c)
          (rethrow w >>= λ _. rethrow c >>= λ _. rename env tmp name >>= λ _. sync_dir env)
          (λ _. New)
          Mixed
          Mixed
  finish-Triple none none = rename_synced-Triple
  finish-Triple none (some e) = record { at = λ d h. inl h.0 }
  finish-Triple (some e) none = record { at = λ d h. inl h }
  finish-Triple (some e) (some f) = record { at = λ d h. inl h }

  Tried-Mixed : (w : Option IoError) (d : Dir) → Tried Full Old w d → Mixed d
  Tried-Mixed none d h = inl h.0
  Tried-Mixed (some e) d h = inl h

  held-Triple :
      (w : Option IoError)
      → Triple
          (Tried Full Old w)
          (attempt (close_file env))
          (Tried (Tried Full Old w) (Tried Full Old w))
          Mixed
          Mixed
  held-Triple w =
      Triple-weaken (Tried (Tried Full Old w) (Tried Full Old w))
        (Tried (Tried Full Old w) (Tried Full Old w)) (Tried Full Old w) Mixed Old Mixed (λ d h. h)
        (λ a d h. h) (Tried-Mixed w) (λ d h. inl h) (Triple-attempt (close-Triple w))

  pub install-Triple :
      Triple (HasBoth k o tmp (some (unsynced []))) (install env tmp name b) (λ _. New) Mixed Mixed
  install-Triple =
      Triple-bind (Tried Full Old)
        (old_errors (HasBoth k o tmp (some (unsynced []))) (Tried Full Old)
          (Triple-attempt fill-Triple))
        (λ w.
          Triple-bind (Tried (Tried Full Old w) (Tried Full Old w)) (held-Triple w)
            (λ c. finish-Triple w c))

  -- The same behind the exclusive creation of the temporary file.
  pub created_install-Triple :
      Triple Old (create env tmp >>= λ _. install env tmp name b) (λ _. New) Mixed Mixed
  created_install-Triple =
      Triple-bind (λ _. HasBoth k o tmp (some (unsynced [])))
        (old_errors Old (λ _. HasBoth k o tmp (some (unsynced [])))
          (create-Triple env tmp k o durable ne))
        (λ _. install-Triple)

-- What an installing operation leaves after any outcome, and after success.
module _ (name : Name) (b : Bytes) (k : Name) (o : Option File) (m : M Unit)
    (t : Triple
      (Has k o)
      m
      (λ _. Has k (replaced name b k o))
      (Either name b k o)
      (Either name b k o))
    (d : Dir) (h : d.files k ≡ o) where
  pub Either-after : Either name b k o (m d).1
  Either-after = into (m d).0 (m d).1 (t.at d h)
    where
      into :
          (r : Io Unit) (d' : Dir)
          → Ensures (λ _. Has k (replaced name b k o)) (Either name b k o) (Either name b k o) r d'
          → Either name b k o d'
      into (ok a) d' x = inr x
      into (err e) d' x = x
      into crashed d' x = x

  pub replaced-after : (m d).0 ≡ ok tt → (m d).1.files k ≡ replaced name b k o
  replaced-after e = into (m d).0 (m d).1 e (t.at d h)
    where
      into :
          (r : Io Unit) (d' : Dir)
          → r ≡ ok tt
          → Ensures (λ _. Has k (replaced name b k o)) (Either name b k o) (Either name b k o) r d'
          → d'.files k ≡ replaced name b k o
      into (ok a) d' x y = y
      into (err e) d' x y = cc
      into crashed d' x y = cc
