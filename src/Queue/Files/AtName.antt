-- ===== src/Queue/Files/AtName.antt =====
-- What looking, removing and renaming do to one name of the directory, on every outcome.
use observe_agent.Base.{
  ℕ, ◌≤◌, ◌≡◌, refl, sym, ap, ◌∙◌, ◌≢◌, ◌⊎◌, inl, inr, true, false, Option, none, some, arith,
  Bool-cases, length,
}
use observe_agent.Queue.Files.{
  readable, crashed, io_error, err, read, Name, name_eq, File, Files, Dir, Faults, Fault, pass,
  fail, crash, Io, ok, outcome, perform, update, rename, remove, moved, unchanged, present,
}
use observe_agent.Queue.Files.Laws.{name_eq_refl, name_eq→≡}
use observe_agent.Queue.Files.Steps.{IsDurable, lose-durable}

-- One operation at one name, on every outcome.
module _ (env : Faults) (k : Name) (d : Dir) (durable : IsDurable (d.files k)) where
  -- An operation that only looks.
  pub look-files :
      {A : Type 0} (result : Files → Io A)
      → (perform env result unchanged unchanged d).1.files k ≡ d.files k
  look-files {A} result = go (env.fault d.ticks)
    where
      go :
          (x : Fault)
          → (outcome x (env.cut d.ticks) result unchanged unchanged d).1.files k ≡ d.files k
      go pass = refl
      go fail = refl
      go crash = lose-durable (env.cut d.ticks) d.files k (d.files k) durable refl

  pub remove-files :
      (n : Name)
      → ((remove env n d).1.files k ≡ d.files k)
        ⊎ ((name_eq n k ≡ true) × ((remove env n d).1.files k ≡ none))
  remove-files n = go (env.fault d.ticks) (Bool-cases (name_eq n k))
    where
      go :
          (x : Fault)
          → (name_eq n k ≡ true) ⊎ (name_eq n k ≡ false)
          → let r =
              outcome x
                (env.cut d.ticks)
                (λ fs. present (fs n))
                (λ fs. update fs n none)
                unchanged
                d in
            (r.1.files k ≡ d.files k) ⊎ ((name_eq n k ≡ true) × (r.1.files k ≡ none))
      go pass (inl e) = inr (e, rw e)
      go pass (inr e) = inl (rw e)
      go fail h = inl refl
      go crash h = inl (lose-durable (env.cut d.ticks) d.files k (d.files k) durable refl)

  -- A rename moves one file to another name.
  pub rename-files :
      (a b : Name)
      → ((rename env a b d).1.files k ≡ d.files k)
        ⊎ (((name_eq b k ≡ true) × ((rename env a b d).1.files k ≡ d.files a))
            ⊎ ((name_eq a k ≡ true) × ((rename env a b d).1.files k ≡ none)))
  rename-files a b =
      go (env.fault d.ticks) (d.files a) refl (Bool-cases (name_eq b k)) (Bool-cases (name_eq a k))
    where
      go :
          (x : Fault) (p : Option File)
          → d.files a ≡ p
          → (name_eq b k ≡ true) ⊎ (name_eq b k ≡ false)
          → (name_eq a k ≡ true) ⊎ (name_eq a k ≡ false)
          → let r =
              outcome x
                (env.cut d.ticks)
                (λ fs. present (fs a))
                (λ fs. moved a b (fs a) fs)
                unchanged
                d in
            (r.1.files k ≡ d.files k)
            ⊎ (((name_eq b k ≡ true) × (r.1.files k ≡ d.files a))
                ⊎ ((name_eq a k ≡ true) × (r.1.files k ≡ none)))
      go pass none e hb ha = inl (rw e)
      go pass (some f) e (inl hb) ha = inr (inl (hb, rw (e, hb)))
      go pass (some f) e (inr hb) (inl ha) = inr (inr (ha, rw (e, hb, ha)))
      go pass (some f) e (inr hb) (inr ha) = inl (rw (e, hb, ha))
      go fail p e hb ha = inl refl
      go crash p e hb ha = inl (lose-durable (env.cut d.ticks) d.files k (d.files k) durable refl)

-- What the result of a removal says.
pub remove-ok :
    (env : Faults) (n : Name) (d : Dir)
    → (remove env n d).0 ≡ ok tt
    → (remove env n d).1.files n ≡ none
remove-ok env n d = go (env.fault d.ticks) (d.files n) refl
  where
    go :
        (x : Fault) (p : Option File)
        → d.files n ≡ p
        → let r =
            outcome x
              (env.cut d.ticks)
              (λ fs. present (fs n))
              (λ fs. update fs n none)
              unchanged
              d in
          r.0 ≡ ok tt → r.1.files n ≡ none
    go pass p e h = rw name_eq_refl
    go fail p e h = cc
    go crash p e h = cc

-- A removal that did not succeed leaves the durable files.
pub remove-failed :
    (env : Faults) (n k : Name) (d : Dir)
    → IsDurable (d.files k)
    → (remove env n d).0 ≢ ok tt
    → (remove env n d).1.files k ≡ d.files k
remove-failed env n k d durable = go (env.fault d.ticks) (d.files n) refl (Bool-cases (name_eq n k))
  where
    go :
        (x : Fault) (p : Option File)
        → d.files n ≡ p
        → (name_eq n k ≡ true) ⊎ (name_eq n k ≡ false)
        → let r =
            outcome x
              (env.cut d.ticks)
              (λ fs. present (fs n))
              (λ fs. update fs n none)
              unchanged
              d in
          r.0 ≢ ok tt → r.1.files k ≡ d.files k
    go pass none x (inl s) h = rw s (sym x ∙ ap d.files (name_eq→≡ n k s))
    go pass none x (inr s) h = rw s
    go pass (some f) x s h = absurd (h (rw x))
    go fail p x s h = refl
    go crash p x s h = lose-durable (env.cut d.ticks) d.files k (d.files k) durable refl

-- A read of a safe file within the limit gives its contents, or fails by a fault.
pub read-found :
    (env : Faults) (n : Name) (limit : ℕ) (d : Dir) (f : File)
    → d.files n ≡ some f
    → f.exclusive ≡ true
    → length f.contents ≤ limit
    → ((read env n limit d).0 ≡ ok f.contents)
      ⊎ (((read env n limit d).0 ≡ err io_error) ⊎ ((read env n limit d).0 ≡ crashed))
read-found env n limit d f found safe fits = go (env.fault d.ticks)
  where
    here : readable limit (d.files n) ≡ ok f.contents
    here = rw found (ground arith)

    go :
        (x : Fault)
        → let r = outcome x (env.cut d.ticks) (λ fs. readable limit (fs n)) unchanged unchanged d in
          (r.0 ≡ ok f.contents) ⊎ ((r.0 ≡ err io_error) ⊎ (r.0 ≡ crashed))
    go pass = inl here
    go fail = inr (inl refl)
    go crash = inr (inr refl)
