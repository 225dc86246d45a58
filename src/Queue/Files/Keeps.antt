-- ===== src/Queue/Files/Keeps.antt =====
-- Operations that leave the file at one name as it is, on every outcome.
use observe_agent.Base.{◌≡◌, Bool, true, false, Option, none, some, if◌then◌else◌, take, Bytes}
use observe_agent.Queue.Files.{
  raise, give, Name, name_eq, File, Files, Dir, Faults, Io, ok, err, crashed, M, IoError, perform,
  create, open_truncated, write_data, sync, rename, remove, attempt, rethrow, install, ◌>>=◌,
  unchanged, created, truncated, filled, settled, moved, ask, answered, caught,
}
use observe_agent.Queue.Files.Logic.{Assertion, Ensures, Triple, Triple-bind}
use observe_agent.Queue.Files.Steps.{IsDurable, Has, lose-durable, outcome-Ensures}

pub Ensures-const :
    {A : Type 0} (S : Assertion) (r : Io A) (d : Dir) → S d → Ensures (λ _. S) S S r d
Ensures-const S (ok a) d h = h
Ensures-const S (err e) d h = h
Ensures-const S crashed d h = h

-- What holds after every outcome holds.
pub Ensures-all : {A : Type 0} (S : Assertion) (r : Io A) (d : Dir) → Ensures (λ _. S) S S r d → S d
Ensures-all S (ok a) d h = h
Ensures-all S (err e) d h = h
Ensures-all S crashed d h = h

-- The operation keeps the assertion on every outcome.
abbrev pub Keeps : {A : Type 0} → Assertion → M A → Type 0
Keeps S m = Triple S m (λ _. S) S S

pub Keeps-after : {A : Type 0} (S : Assertion) {m : M A} → Keeps S m → (d : Dir) → S d → S (m d).1
Keeps-after S {m} t d h = Ensures-all S (m d).0 (m d).1 (t.at d h)

pub Keeps-bind :
    {A B : Type 0} (S : Assertion) {m : M A} {f : A → M B}
    → Keeps S m
    → ((a : A) → Keeps S (f a))
    → Keeps S (m >>= f)
Keeps-bind S t u = Triple-bind (λ _. S) t u

pub Keeps-attempt : (S : Assertion) {m : M Unit} → Keeps S m → Keeps S (attempt m)
Keeps-attempt S {m} t = record { at = λ d h. go (m d).0 (m d).1 (t.at d h) }
  where
    go : (r : Io Unit) (d : Dir) → Ensures (λ _. S) S S r d → Ensures (λ _. S) S S (caught r) d
    go (ok a) d h = h
    go (err e) d h = h
    go crashed d h = h

pub Keeps-ask : {A : Type 0} (S : Assertion) {m : M A} → Keeps S m → Keeps S (ask m)
Keeps-ask {A} S {m} t = record { at = λ d h. go (m d).0 (m d).1 (t.at d h) }
  where
    go : (r : Io A) (d : Dir) → Ensures (λ _. S) S S r d → Ensures (λ _. S) S S (answered r) d
    go (ok a) d h = h
    go (err e) d h = h
    go crashed d h = h

pub Keeps-rethrow : (S : Assertion) (o : Option IoError) → Keeps S (rethrow o)
Keeps-rethrow S none = record { at = λ d h. h }
Keeps-rethrow S (some e) = record { at = λ d h. h }

module _ (env : Faults) (k : Name) (o : Option File) (durable : IsDurable o) where
  pub perform-Keeps :
      {A : Type 0} (result : Files → Io A) (done failed : Files → Files)
      → ((fs : Files) → fs k ≡ o → done fs k ≡ o)
      → ((fs : Files) → fs k ≡ o → failed fs k ≡ o)
      → Keeps (Has k o) (perform env result done failed)
  perform-Keeps result done failed p q = record {
    at = λ d h.
        outcome-Ensures (env.fault d.ticks) (env.cut d.ticks) result done failed d (λ _. Has k o)
          (Has k o) (Has k o) (Ensures-const (Has k o) (result d.files) _ (p d.files h))
          (q d.files h) (lose-durable (env.cut d.ticks) (failed d.files) k o durable (q d.files h));
  }

  pub look-Keeps :
      {A : Type 0} (result : Files → Io A)
      → Keeps (Has k o) (perform env result unchanged unchanged)
  look-Keeps result = perform-Keeps result unchanged unchanged (λ fs h. h) (λ fs h. h)

  -- Operations on another name.
  module _ (n : Name) (ne : name_eq n k ≡ false) where
    update_other :
        (fs : Files) (v : Option File) → fs k ≡ o → observe_agent.Queue.Files.update fs n v k ≡ o
    update_other fs v h = rw ne h

    pub create-Keeps : Keeps (Has k o) (create env n)
    create-Keeps = perform-Keeps _ _ unchanged (λ fs h. go fs (fs n) h) (λ fs h. h)
      where
        go : (fs : Files) (p : Option File) → fs k ≡ o → created n p fs k ≡ o
        go fs none h = rw ne h
        go fs (some f) h = h

    pub open_truncated-Keeps : Keeps (Has k o) (open_truncated env n)
    open_truncated-Keeps = perform-Keeps _ _ unchanged (λ fs h. go fs (fs n) h) (λ fs h. h)
      where
        go : (fs : Files) (p : Option File) → fs k ≡ o → truncated n p fs k ≡ o
        go fs none h = rw ne h
        go fs (some f) h = rw ne h

    filled_other : (fs : Files) (b : Bytes) (p : Option File) → fs k ≡ o → filled n b p fs k ≡ o
    filled_other fs b none h = h
    filled_other fs b (some f) h = rw ne h

    pub write_data-Keeps : (b : Bytes) → Keeps (Has k o) (write_data env n b)
    write_data-Keeps b = record {
      at = λ d h.
          (perform-Keeps (λ _. ok tt) (λ fs. filled n b (fs n) fs)
              (λ fs. filled n (take (env.cut d.ticks) b) (fs n) fs)
              (λ fs x. filled_other fs b (fs n) x)
              (λ fs x. filled_other fs (take (env.cut d.ticks) b) (fs n) x)).at
            d h;
    }

    pub sync-Keeps : Keeps (Has k o) (sync env n)
    sync-Keeps = perform-Keeps _ _ unchanged (λ fs h. go fs (fs n) h) (λ fs h. h)
      where
        go : (fs : Files) (p : Option File) → fs k ≡ o → settled n p fs k ≡ o
        go fs none h = h
        go fs (some f) h = rw ne h

    pub remove-Keeps : Keeps (Has k o) (remove env n)
    remove-Keeps = perform-Keeps _ _ unchanged (λ fs h. rw ne h) (λ fs h. h)

    pub rename-Keeps : (m : Name) → name_eq m k ≡ false → Keeps (Has k o) (rename env n m)
    rename-Keeps m nm = perform-Keeps _ _ unchanged (λ fs h. go fs (fs n) h) (λ fs h. h)
      where
        go : (fs : Files) (p : Option File) → fs k ≡ o → moved n m p fs k ≡ o
        go fs none h = h
        go fs (some f) h = rw (ne, nm) h

    pub install-Keeps :
        (m : Name) (b : Bytes) → name_eq m k ≡ false → Keeps (Has k o) (install env n m b)
    install-Keeps m b nm =
        let S = Has k o in
        Keeps-bind S (Keeps-attempt S (Keeps-bind S (write_data-Keeps b) (λ _. sync-Keeps))) (λ w.
          Keeps-bind S (Keeps-attempt S (look-Keeps (λ _. ok tt))) (λ c.
            Keeps-bind S (Keeps-rethrow S w) (λ _.
              Keeps-bind S (Keeps-rethrow S c)
                (λ _. Keeps-bind S (rename-Keeps m nm) (λ _. look-Keeps (λ _. ok tt))))))

pub Keeps-give : {A : Type 0} (S : Assertion) (a : A) → Keeps S (give a)
Keeps-give S a = record { at = λ d h. h }

pub Keeps-raise : {A : Type 0} (S : Assertion) (e : IoError) → Keeps S (raise {A = A} e)
Keeps-raise S e = record { at = λ d h. h }

pub Keeps-if :
    {A : Type 0} (S : Assertion) (b : Bool) {m n : M A}
    → Keeps S m
    → Keeps S n
    → Keeps S (if b then m else n)
Keeps-if S true s t = s
Keeps-if S false s t = t

abbrev pub Both : Assertion → Assertion → Assertion
Both S T d = S d × T d

pub Keeps-both :
    {A : Type 0} (S T : Assertion) {m : M A} → Keeps S m → Keeps T m → Keeps (Both S T) m
Keeps-both {A} S T {m} s t = record { at = λ d h. go (m d).0 (m d).1 (s.at d h.0) (t.at d h.1) }
  where
    go :
        (r : Io A) (d : Dir)
        → Ensures (λ _. S) S S r d
        → Ensures (λ _. T) T T r d
        → Ensures (λ _. Both S T) (Both S T) (Both S T) r d
    go (ok a) d h k = (h, k)
    go (err e) d h k = (h, k)
    go crashed d h k = (h, k)

pub Keeps-pre :
    {A : Type 0} (S T : Assertion) {m : M A} → Keeps S m → Triple (λ d. S d × T d) m (λ _. S) S S
Keeps-pre S T t = record { at = λ d h. t.at d h.0 }
