-- ===== src/Identity/Resolved.antt =====
-- internal/identity/identity.go: what a resolved identity guarantees.
use observe_agent.Base.{◌≡◌, ◌⊎◌, true, false, str_eq}
use observe_agent.Identity.{Identity, is_safe, is_instance, no_evidence}

-- The agent has a name; without a configured one it is the host's. Evidence of a cloud is kept only
-- if it is of a verified instance, which then is the host.
pub record IsResolved (r : Identity) : Type 0 where
  pub agent_named : str_eq r.agent_id "" ≡ false
  pub evidence :
      ((is_instance r.cloud ≡ true) × (r.host_id ≡ r.cloud.instance_id))
      ⊎ ((r.cloud ≡ no_evidence) × ((r.host_id ≡ "") ⊎ (is_safe r.host_id ≡ true)))
  pub agent_safe : (is_safe r.agent_id ≡ true) ⊎ (r.agent_id ≡ r.host_id)
