-- ===== src/Policy.antt =====
-- internal/policy/policy.go: the capability policy.
use observe_agent.Base.{
  ℕ, String, Bool, true, false, ◌&&◌, &&-parts, List, [], ◌∷◌, Option, none, some, ◌==◌, contains,
  lookup, ◌≡◌, arith, eq_iff, if◌then◌else◌,
}

-- `Capability` is a text.
abbrev pub Capability : Type 0
Capability = String

abbrev pub metrics : Capability
metrics = "metrics"

abbrev pub logs : Capability
logs = "logs"

abbrev pub traces : Capability
traces = "traces"

-- `All`
abbrev pub all : List Capability
all = metrics ∷ logs ∷ traces ∷ "processes" ∷ "containers" ∷ []

unfoldable pub known : Capability → Bool
known c = contains c all

pub record Document : Type 0 where
  pub version : ℕ
  pub enabled : List (Capability × Bool)

-- `p.Enabled[c]`: a missing key reads as false.
unfoldable pub is_on : Document → Capability → Bool
is_on p c = elim (lookup c p.enabled) [ none ↦ false | some b ↦ b ]

pub data Invalid : Type 0 where
  version_not_positive unknown_capability : Invalid

unfoldable pub all_known : List (Capability × Bool) → Bool
unfolding known
all_known [] = true
all_known ((c, on) ∷ m) = known c && all_known m

-- `none` is the nil error.
unfoldable pub validate : Document → Option Invalid
unfolding all_known
validate p =
    if p.version == 0
    then some version_not_positive
    else if all_known p.enabled
    then none
    else some unknown_capability

unfoldable pub same_on : Document → Document → List Capability → Bool
unfolding is_on
same_on p q [] = true
same_on p q (c ∷ cs) =
    (if is_on p c then is_on q c else if is_on q c then false else true) && same_on p q cs

-- `Equal`
unfoldable pub equal : Document → Document → Bool
unfolding same_on
equal p q = p.version == q.version && same_on p q all

same_on-eq :
    (p q : Document) (cs : List Capability) (x : Capability)
    → same_on p q cs ≡ true
    → contains x cs ≡ true
    → is_on p x ≡ is_on q x
unfolding same_on
same_on-eq p q (c ∷ cs) x h mem = ground (arith, same_on-eq p q cs x, eq_iff x c)
same_on-eq p q [] x h mem = cc

-- Documents that `Equal` accepts enable the same capabilities.
pub equal-is_on :
    (p q : Document) (x : Capability)
    → equal p q ≡ true
    → contains x all ≡ true
    → is_on p x ≡ is_on q x
unfolding equal
equal-is_on p q x h mem =
    same_on-eq p q all x (&&-parts (p.version == q.version) (same_on p q all) h).1 mem
