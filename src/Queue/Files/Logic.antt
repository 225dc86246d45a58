-- ===== src/Queue/Files/Logic.antt =====
-- A program logic for file operations: what holds after success, after an error and after a crash.
use observe_agent.Base.{Option, none, some, ◌⊎◌, inl, inr}
use observe_agent.Queue.Files.{
  Dir, Io, ok, err, crashed, IoError, M, ◌>>=◌, continue, caught, after_defer, attempt, rethrow,
  deferring,
}

abbrev pub Assertion : Type 1
Assertion = Dir → Type 0

abbrev pub Ensures : {A : Type 0} → (A → Assertion) → Assertion → Assertion → Io A → Assertion
Ensures Q E C (ok a) d = Q a d
Ensures Q E C (err _) d = E d
Ensures Q E C crashed d = C d

pub record Triple {A : Type 0} (P : Assertion) (m : M A) (Q : A → Assertion) (E C : Assertion)
    : Type 0 where
  pub at : (d : Dir) → P d → Ensures Q E C (m d).0 (m d).1

-- What is known of an error held as a value.
abbrev pub Tried : Assertion → Assertion → Option IoError → Assertion
Tried Q E none d = Q d
Tried Q E (some e) d = E d

Ensures-continue :
    {A B : Type 0} (Q : A → Assertion) (R : B → Assertion) (E C : Assertion) (f : A → M B)
    (r : Io A) (d : Dir)
    → ((a : A) → Triple (Q a) (f a) R E C)
    → Ensures Q E C r d
    → Ensures R E C (continue r f d).0 (continue r f d).1
Ensures-continue Q R E C f (ok a) d tf h = (tf a).at d h
Ensures-continue Q R E C f (err e) d tf h = h
Ensures-continue Q R E C f crashed d tf h = h

pub Triple-bind :
    {A B : Type 0} {P : Assertion} (Q : A → Assertion) {R : B → Assertion} {E C : Assertion}
    {m : M A} {f : A → M B}
    → Triple P m Q E C
    → ((a : A) → Triple (Q a) (f a) R E C)
    → Triple P (m >>= f) R E C
Triple-bind Q {R} {E} {C} {m} {f} tm tf = record {
  at = λ d p. Ensures-continue Q R E C f (m d).0 (m d).1 tf (tm.at d p);
}

Tried-caught :
    (Q E C : Assertion) (r : Io Unit) (d : Dir)
    → Ensures (λ _. Q) E C r d
    → Ensures (Tried Q E) E C (caught r) d
Tried-caught Q E C (ok a) d h = h
Tried-caught Q E C (err e) d h = h
Tried-caught Q E C crashed d h = h

pub Triple-attempt :
    {P Q E C : Assertion} {m : M Unit}
    → Triple P m (λ _. Q) E C
    → Triple P (attempt m) (Tried Q E) E C
Triple-attempt {P} {Q} {E} {C} {m} tm = record {
  at = λ d p. Tried-caught Q E C (m d).0 (m d).1 (tm.at d p);
}

pub Triple-rethrow :
    {Q E C : Assertion} (o : Option IoError) → Triple (Tried Q E o) (rethrow o) (λ _. Q) E C
Triple-rethrow none = record { at = λ d h. h }
Triple-rethrow (some e) = record { at = λ d h. h }

-- Whatever a cleanup returns, `r` is the result, unless the cleanup crashes.
Ensures-after_defer :
    (Q E C : Assertion) (r s : Io Unit) (d : Dir)
    → Ensures (λ _. Ensures (λ _. Q) E C r) (Ensures (λ _. Q) E C r) C s d
    → Ensures (λ _. Q) E C (after_defer r s) d
Ensures-after_defer Q E C (ok a) (ok b) d h = h
Ensures-after_defer Q E C (ok a) (err e) d h = h
Ensures-after_defer Q E C (ok a) crashed d h = h
Ensures-after_defer Q E C (err e) (ok b) d h = h
Ensures-after_defer Q E C (err e) (err f) d h = h
Ensures-after_defer Q E C (err e) crashed d h = h
Ensures-after_defer Q E C crashed (ok b) d h = h
Ensures-after_defer Q E C crashed (err e) d h = h
Ensures-after_defer Q E C crashed crashed d h = h

module _ (Q E C Q' E' : Assertion) where
  Ensures-deferring :
      (cleanup : M Unit) (r : Io Unit) (d : Dir)
      → Triple Q cleanup (λ _. Q') Q' C
      → Triple E cleanup (λ _. E') E' C
      → Ensures (λ _. Q) E C r d
      → Ensures
          (λ _. Q')
          E'
          C
          (deferring cleanup (λ d'. (r, d')) d).0
          (deferring cleanup (λ d'. (r, d')) d).1
  Ensures-deferring cleanup (ok a) d tq te h =
      Ensures-after_defer Q' E' C (ok a) (cleanup d).0 (cleanup d).1 (tq.at d h)
  Ensures-deferring cleanup (err e) d tq te h =
      Ensures-after_defer Q' E' C (err e) (cleanup d).0 (cleanup d).1 (te.at d h)
  Ensures-deferring cleanup crashed d tq te h = h

  pub Triple-deferring :
      {P : Assertion} {cleanup m : M Unit}
      → Triple P m (λ _. Q) E C
      → Triple Q cleanup (λ _. Q') Q' C
      → Triple E cleanup (λ _. E') E' C
      → Triple P (deferring cleanup m) (λ _. Q') E' C
  Triple-deferring {cleanup = cleanup} {m = m} tm tq te = record {
    at = λ d p. Ensures-deferring cleanup (m d).0 (m d).1 tq te (tm.at d p);
  }

pub Triple-weaken :
    {A : Type 0} {P P' : Assertion} {m : M A} (Q Q' : A → Assertion) (E E' C C' : Assertion)
    → ((d : Dir) → P' d → P d)
    → ((a : A) (d : Dir) → Q a d → Q' a d)
    → ((d : Dir) → E d → E' d)
    → ((d : Dir) → C d → C' d)
    → Triple P m Q E C
    → Triple P' m Q' E' C'
Triple-weaken {A} {m = m} Q Q' E E' C C' p q e c t = record {
  at = λ d h. go (m d).0 (m d).1 (t.at d (p d h));
}
  where
    go : (r : Io A) (d : Dir) → Ensures Q E C r d → Ensures Q' E' C' r d
    go (ok a) d h = q a d h
    go (err x) d h = e d h
    go crashed d h = c d h

pub Triple-⊎ :
    {A : Type 0} {P P' : Assertion} {m : M A} {Q : A → Assertion} {E C : Assertion}
    → Triple P m Q E C
    → Triple P' m Q E C
    → Triple (λ d. P d ⊎ P' d) m Q E C
Triple-⊎ {P = P} {P' = P'} {m = m} {Q = Q} {E = E} {C = C} s t = record { at = λ d. go d }
  where
    go : (d : Dir) → P d ⊎ P' d → Ensures Q E C (m d).0 (m d).1
    go d (inl h) = s.at d h
    go d (inr h) = t.at d h
