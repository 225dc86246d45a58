-- ===== src/Fleet/Allowed.antt =====
-- internal/fleet/fleet.go: a remote policy never exceeds the local allowance.
use observe_agent.Base.{
  ℕ, ◌<◌, ◌≡◌, ◌∙◌, ◌⊎◌, inl, inr, Bool, true, Option, none, some, List, [], ◌∷◌, arith, eq_iff,
  Option-cases, contains, Bytes,
}
use observe_agent.Manager.{Manager, Call, apply}
use observe_agent.Manager.Apply.{apply-IsConsistent, apply_version}
use observe_agent.Manager.Switch.{IsConsistent}
use observe_agent.Policy.{Capability, is_on, validate}
use observe_agent.Fleet.{Gate, Envelope, accept, admit, within_allowance}

-- The current policy enables only what is allowed locally.
pub record IsAllowed (g : Gate) (m : Manager) : Type 0 where
  pub only : (x : Capability) → is_on m.current x ≡ true → contains x g.allowed ≡ true

within-is_on :
    (allowed : List Capability) (version : ℕ) (entries : List (Capability × Bool)) (x : Capability)
    → within_allowance allowed entries ≡ true
    → is_on (record { version = version; enabled = entries }) x ≡ true
    → contains x allowed ≡ true
unfolding within_allowance is_on
within-is_on allowed version [] x h on = cc
within-is_on allowed version ((c, b) ∷ m) x h on =
    let rest = within-is_on allowed version m x in ground (arith, rest, eq_iff c x)

module _ (answer : List Call → Call → Bool) (g : Gate) (now : ℕ) where
  -- What the gate may do to the manager: nothing, or an application of an allowed policy.
  admit_cases :
      (e : Envelope) (m : Manager)
      → ((admit answer g now e m).0 ≡ m)
        ⊎ (((admit answer g now e m).0 ≡ (apply answer m e.policy).0)
            × (within_allowance g.allowed e.policy.enabled ≡ true))
  unfolding admit
  admit_cases e m = elim (Option-cases (validate e.policy)) [
    | inl v ↦ ground arith
    | inr (x, v) ↦ ground arith
  ]

  accept_either :
      (verify : Bytes → Option Envelope) (raw : Bytes) (m : Manager) (e : Envelope)
      → verify raw ≡ some e
      → ((accept answer g now verify raw m).0 ≡ m)
        ⊎ ((accept answer g now verify raw m).0 ≡ (admit answer g now e m).0)
  unfolding accept
  accept_either verify raw m e v = ground arith

  accept_unverified :
      (verify : Bytes → Option Envelope) (raw : Bytes) (m : Manager)
      → verify raw ≡ none
      → (accept answer g now verify raw m).0 ≡ m
  unfolding accept
  accept_unverified verify raw m v = ground arith

  accept_cases :
      (verify : Bytes → Option Envelope) (raw : Bytes) (m : Manager)
      → ((accept answer g now verify raw m).0 ≡ m)
        ⊎ ((e : Envelope) × (verify raw ≡ some e)
            × ((accept answer g now verify raw m).0 ≡ (apply answer m e.policy).0)
            × (within_allowance g.allowed e.policy.enabled ≡ true))
  accept_cases verify raw m = elim (Option-cases (verify raw)) [
    | inl v ↦ inl (accept_unverified verify raw m v)
    | inr (e, v) ↦ both e v (accept_either verify raw m e v) (admit_cases e m)
  ]
    where
      both :
          (e : Envelope)
          → verify raw ≡ some e
          → ((accept answer g now verify raw m).0 ≡ m)
            ⊎ ((accept answer g now verify raw m).0 ≡ (admit answer g now e m).0)
          → ((admit answer g now e m).0 ≡ m)
            ⊎ (((admit answer g now e m).0 ≡ (apply answer m e.policy).0)
                × (within_allowance g.allowed e.policy.enabled ≡ true))
          → ((accept answer g now verify raw m).0 ≡ m)
            ⊎ ((e' : Envelope) × (verify raw ≡ some e')
                × ((accept answer g now verify raw m).0 ≡ (apply answer m e'.policy).0)
                × (within_allowance g.allowed e'.policy.enabled ≡ true))
      both e v (inl a) d = inl a
      both e v (inr a) (inl d) = inl (a ∙ d)
      both e v (inr a) (inr (d, w)) = inr (e, v, a ∙ d, w)

  -- Whatever is received and whatever the collectors, the store and the contexts answer, Accept
  -- keeps the manager's policy within the local allowance, and keeps the manager consistent.
  pub accept-IsAllowed :
      (verify : Bytes → Option Envelope) (raw : Bytes) (m : Manager)
      → IsAllowed g m
      → IsConsistent m
      → IsAllowed g (accept answer g now verify raw m).0
        × IsConsistent (accept answer g now verify raw m).0
  accept-IsAllowed verify raw m a c = elim (accept_cases verify raw m) [
    | inl s ↦ rw s (a, c)
    | inr (e, v, s, w) ↦
        rw s (applied e w (apply_version answer m e.policy), apply-IsConsistent answer m e.policy c)
  ]
    where
      applied :
          (e : Envelope)
          → within_allowance g.allowed e.policy.enabled ≡ true
          → ((apply answer m e.policy).0.current ≡ m.current)
            ⊎ (((apply answer m e.policy).0.current ≡ e.policy)
                × (m.current.version < e.policy.version)
                × (validate e.policy ≡ none))
          → IsAllowed g (apply answer m e.policy).0
      applied e w (inl s) = record { only = λ x on. a.only x (rw s at on) }
      applied e w (inr (s, _, _)) = record {
        only = λ x on. within-is_on g.allowed e.policy.version e.policy.enabled x w (rw s at on);
      }
