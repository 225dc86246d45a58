-- ===== src/Journal/Save.antt =====
-- internal/journaltail/reader_linux.go: what `saveCheckpoint` leaves on every outcome.
use observe_agent.Base.{◌≡◌, refl, ◌⊎◌, inl, inr, Bool, true, false, Option, none, some, [], Bytes}
use observe_agent.Queue.Files.{
  File, Files, Dir, Faults, Fault, Io, ok, err, crashed, M, ◌>>=◌, name_eq, open_truncated, install,
  rename, attempt, rethrow, write_data, sync, close_file, truncated, unchanged, moved, present,
  outcome, pass, fail, crash,
}
use observe_agent.Queue.Files.Laws.{name_eq_refl}
use observe_agent.Queue.Files.Logic.{Assertion, Ensures, Triple, Triple-bind, Triple-weaken}
use observe_agent.Queue.Files.Steps.{
  IsDurable, Has, HasBoth, settled_file, unsynced, lose-durable, outcome-Ensures,
}
use observe_agent.Queue.Files.Install.{replaced, Either, install-Triple}
use observe_agent.Queue.Files.Keeps.{look-Keeps}
use observe_agent.Queue.Migration.Gives.{Any, Gives, anything}
use observe_agent.Journal.{Outside, Checkpoint, target, pending, save_checkpoint}

-- The temporary file is absent, or a private file.
abbrev pub is_safe : Option File → Bool
is_safe none = true
is_safe (some f) = f.exclusive

Triple-and :
    {A : Type 0} {P : Assertion} {m : M A} {Q R : A → Assertion} {E C : Assertion}
    → Triple P m Q E C
    → Gives P m R
    → Triple P m (λ a d. Q a d × R a d) E C
Triple-and {A} {P} {m} {Q} {R} {E} {C} s t = record {
  at = λ d h. go (m d).0 (m d).1 (s.at d h) (t.at d h);
}
  where
    go :
        (r : Io A) (d : Dir)
        → Ensures Q E C r d
        → Ensures R Any Any r d
        → Ensures (λ a e. Q a e × R a e) E C r d
    go (ok a) d h k = (h, k)
    go (err e) d h k = h
    go crashed d h k = h

module _ (out : Outside) (env : Faults) (o : Option File) (durable : IsDurable o) where
  abbrev pub Before : Assertion
  Before d = (d.files target ≡ o) × (is_safe (d.files pending) ≡ true)

  apart : name_eq pending target ≡ false
  unfolding name_eq
  apart = refl

  swapped : name_eq target pending ≡ false
  unfolding name_eq
  swapped = refl

  open-Triple :
      Triple Before
        (open_truncated env pending)
        (λ _. HasBoth target o pending (some (unsynced [])))
        (Has target o)
        (Has target o)
  open-Triple = record {
    at = λ d h.
        outcome-Ensures (env.fault d.ticks) (env.cut d.ticks) (λ _. ok tt)
          (λ fs. truncated pending (fs pending) fs) unchanged d
          (λ _. HasBoth target o pending (some (unsynced []))) (Has target o) (Has target o)
          (go d.files (d.files pending) h.0 h.1) h.0
          (lose-durable (env.cut d.ticks) d.files target o durable h.0);
  }
    where
      go :
          (fs : Files) (p : Option File)
          → fs target ≡ o
          → is_safe p ≡ true
          → (truncated pending p fs target ≡ o)
            × (truncated pending p fs pending ≡ some (unsynced []))
      go fs none h s = (rw apart h, rw (name_eq_refl pending) refl)
      go fs (some f) h s = (rw apart h, rw (name_eq_refl pending, s) refl)

  rename-absent : Gives Any (rename env pending target) (λ _ d. d.files pending ≡ none)
  rename-absent = record { at = λ d h. go d (env.fault d.ticks) (d.files pending) refl }
    where
      go :
          (d : Dir) (x : Fault) (p : Option File)
          → d.files pending ≡ p
          → let r =
              outcome x
                (env.cut d.ticks)
                (λ fs. present (fs pending))
                (λ fs. moved pending target (fs pending) fs)
                unchanged
                d in
            Ensures (λ _ e. e.files pending ≡ none) Any Any r.0 r.1
      go d pass none e = rw e tt
      go d pass (some f) e = rw e (rw (swapped, name_eq_refl pending) refl)
      go d fail p e = tt
      go d crash p e = tt

  install-absent :
      (b : Bytes) → Gives Any (install env pending target b) (λ _ d. d.files pending ≡ none)
  install-absent b =
      Triple-bind (λ _. Any)
        (anything Any (attempt (write_data env pending b >>= λ _. sync env pending)))
        (λ w.
          Triple-bind (λ _. Any) (anything Any (attempt (close_file env)))
            (λ c.
              Triple-bind (λ _. Any) (anything Any (rethrow w))
                (λ _.
                  Triple-bind (λ _. Any) (anything Any (rethrow c))
                    (λ _.
                      Triple-bind (λ _ d. d.files pending ≡ none) rename-absent
                        (λ _.
                          Triple-weaken (λ _ d. d.files pending ≡ none)
                            (λ _ d. d.files pending ≡ none) (λ d. d.files pending ≡ none) Any
                            (λ d. d.files pending ≡ none) Any (λ d h. h) (λ a d h. h) (λ d h. tt)
                            (λ d h. tt) (look-Keeps env pending none refl (λ _. ok tt)))))))

  -- After a failure or a crash: the file is as it was, or it holds these bytes.
  abbrev pub Torn : Bytes → Assertion
  Torn b d = (d.files target ≡ o) ⊎ (d.files target ≡ some (settled_file b))

  installed :
      (b : Bytes) (d : Dir)
      → d.files target ≡ replaced target b target o
      → d.files target ≡ some (settled_file b)
  installed b d h = rw (name_eq_refl target) at h

  torn : (b : Bytes) (d : Dir) → Either target b target o d → Torn b d
  torn b d (inl h) = inl h
  torn b d (inr h) = inr (installed b d h)

  -- After success the checkpoint file holds the checkpoint, synced, and the temporary one is gone;
  -- otherwise the file is as it was, or that.
  pub save_checkpoint-Triple :
      (cp : Checkpoint)
      → Triple Before
          (save_checkpoint out env cp)
          (λ _ d. (d.files target ≡ some (settled_file (out.encode cp))) × (d.files pending ≡ none))
          (Torn (out.encode cp))
          (Torn (out.encode cp))
  unfolding save_checkpoint
  save_checkpoint-Triple cp =
      let b = out.encode cp in
      let Opened = HasBoth target o pending (some (unsynced [])) in
      Triple-bind (λ _. Opened)
        (Triple-weaken (λ _. Opened) (λ _. Opened) (Has target o) (Torn b) (Has target o) (Torn b)
          (λ d h. h) (λ a d h. h) (λ d h. inl h) (λ d h. inl h) open-Triple)
        (λ _.
          Triple-weaken
            (λ _ d. (d.files target ≡ replaced target b target o) × (d.files pending ≡ none))
            (λ _ d. (d.files target ≡ some (settled_file b)) × (d.files pending ≡ none))
            (Either target b target o) (Torn b) (Either target b target o) (Torn b) (λ d h. h)
            (λ a d h. (installed b d h.0, h.1)) (λ d h. torn b d h) (λ d h. torn b d h)
            (Triple-and (install-Triple env pending target b target o durable apart apart) (
              Triple-weaken (λ _ d. d.files pending ≡ none) (λ _ d. d.files pending ≡ none) Any Any
                Any Any (λ d h. tt) (λ a d h. h) (λ d h. h) (λ d h. h) (install-absent b))))
