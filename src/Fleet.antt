-- ===== src/Fleet.antt =====
-- internal/fleet/fleet.go: the gate that a remote policy passes before the manager applies it.
pub mod Allowed
pub mod Store
mod Tests
use observe_agent.Base.{
  ℕ, ◌*◌, ◌^◌, String, Bool, true, not, ◌&&◌, ◌||◌, Option, none, some, List, [], ◌∷◌, str_eq, ltb,
  ◌==◌, if◌then◌else◌, length, contains, Bytes,
}
use observe_agent.Manager
use observe_agent.Manager.{Manager, Call, apply}
use observe_agent.Policy
use observe_agent.Policy.{Capability, Document, validate}

pub record Envelope : Type 0 where
  pub organization : String
  pub installation : String
  pub expires_at : ℕ
  pub policy : Document

-- `Gate`; `apply` is the manager's.
pub record Gate : Type 0 where
  pub organization : String
  pub installation : String
  pub allowed : List Capability
  pub has_verifier : Bool
  pub has_apply : Bool

pub data Refusal : Type 0 where
  unavailable unauthenticated wrong_scope expired exceeds : Refusal
  invalid : Policy.Invalid → Refusal
  not_applied : Manager.Error → Refusal

abbrev pub max_policy_bytes : ℕ
max_policy_bytes = 64 * 2 ^ 10

-- The loop over the enabled capabilities.
unfoldable pub within_allowance : List Capability → List (Capability × Bool) → Bool
within_allowance allowed [] = true
within_allowance allowed ((c, on) ∷ m) =
    not (on && not (contains c allowed)) && within_allowance allowed m

abbrev pub not_applied_if : Option Manager.Error → Option Refusal
not_applied_if none = none
not_applied_if (some e) = some (not_applied e)

module _ (answer : List Call → Call → Bool) (g : Gate) (now : ℕ) where
  -- `Accept` behind the verifier.
  unfoldable pub admit : Envelope → Manager → Manager × Option Refusal
  admit e m =
      let (m1, r) = apply answer m e.policy in
      if not (str_eq e.organization g.organization) || not (str_eq e.installation g.installation)
      then (m, some wrong_scope)
      else if not (ltb now e.expires_at)
      then (m, some expired)
      else elim (validate e.policy) [
        | some x ↦ (m, some (invalid x))
        | none ↦
            if within_allowance g.allowed e.policy.enabled
            then (m1, not_applied_if r)
            else (m, some exceeds)
      ]

  -- `Accept`; `verify` is the verifier, of the exact bytes.
  unfoldable pub accept : (Bytes → Option Envelope) → Bytes → Manager → Manager × Option Refusal
  accept verify raw m =
      if length raw == 0
        || ltb max_policy_bytes (length raw)
        || not g.has_verifier
        || not g.has_apply
        || str_eq g.organization ""
        || str_eq g.installation ""
      then (m, some unavailable)
      else elim (verify raw) [ none ↦ (m, some unauthenticated) | some e ↦ admit e m ]
