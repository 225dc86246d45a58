-- ===== src/Queue/Migration/Gives.antt =====
-- internal/queue/migration_linux.go: what an operation gives when it succeeds.
use observe_agent.Base.{◌≡◌, refl, Bool, true, false, if◌then◌else◌}
use observe_agent.Queue.Files.{Dir, Io, ok, err, crashed, M, IoError, give, raise}
use observe_agent.Queue.Files.Logic.{Assertion, Ensures, Triple}

abbrev pub Any : Assertion
Any d = Unit {0}

-- What the operation gives when it succeeds.
abbrev pub Gives : {A : Type 0} → Assertion → M A → (A → Assertion) → Type 0
Gives P m Q = Triple P m Q Any Any

pub anything : {A : Type 0} (P : Assertion) (m : M A) → Gives P m (λ _. Any)
anything {A} P m = record { at = λ d h. go (m d).0 (m d).1 }
  where
    go : (r : Io A) (d : Dir) → Ensures (λ _. Any) Any Any r d
    go (ok a) d = tt
    go (err e) d = tt
    go crashed d = tt

pub Gives-give :
    {A : Type 0} {P : Assertion} {Q : A → Assertion} (a : A)
    → ((d : Dir) → P d → Q a d)
    → Gives P (give a) Q
Gives-give a h = record { at = λ d p. h d p }

pub Gives-raise :
    {A : Type 0} (P : Assertion) (Q : A → Assertion) (e : IoError) → Gives P (raise e) Q
Gives-raise P Q e = record { at = λ d p. tt }

pub Gives-if :
    {A : Type 0} {P : Assertion} {Q : A → Assertion} (b : Bool) {m n : M A}
    → (b ≡ true → Gives P m Q)
    → (b ≡ false → Gives P n Q)
    → Gives P (if b then m else n) Q
Gives-if true s t = s refl
Gives-if false s t = t refl

pub Gives-pure :
    {A : Type 0} {P : Assertion} {X : Type 0} {Q : A → Assertion} {m : M A}
    → (X → Gives P m Q)
    → Gives (λ d. P d × X) m Q
Gives-pure t = record { at = λ d h. (t h.1).at d h.0 }
