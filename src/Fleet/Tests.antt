-- ===== src/Fleet/Tests.antt =====
-- The gate at a concrete policy.
use observe_agent.Base.{◌≡◌, refl, true, false, none, some, [], ◌∷◌}
use observe_agent.Manager.{Manager}
use observe_agent.Manager.Switch.{IsConsistent}
use observe_agent.Policy.{is_on, validate, all_known, known}
use observe_agent.Fleet.{Gate, Envelope, accept, admit, within_allowance, exceeds}
use observe_agent.Fleet.Store.{Format, LocalStore, save, replace}
use observe_agent.Fleet.Allowed.{IsAllowed, accept-IsAllowed}

abbrev metrics_only : Gate
metrics_only = record {
  organization = "org";
  installation = "host";
  allowed = "metrics" ∷ [];
  has_verifier = true;
  has_apply = true;
}

abbrev remote : Envelope
remote = record {
  organization = "org";
  installation = "host";
  expires_at = 9;
  policy = record { version = 2; enabled = ("logs", true) ∷ [] };
}

abbrev idle : Manager
idle = record {
  registry = [];
  active = [];
  current = record { version = 0; enabled = [] };
  has_store = false;
  degraded = false;
  closed = false;
  calls = [];
  audit = [];
}

idle-IsConsistent : IsConsistent idle
unfolding is_on
idle-IsConsistent = record { runs = λ d x mem. refl }

idle-IsAllowed : IsAllowed metrics_only idle
unfolding is_on
idle-IsAllowed = record { only = λ x on. cc }

accept-IsAllowed_example :
    let m = (accept (λ _ _. true) metrics_only 5 (λ _. some remote) (1 ∷ []) idle).0 in
    IsAllowed metrics_only m × IsConsistent m
accept-IsAllowed_example =
    accept-IsAllowed (λ _ _. true) metrics_only 5 (λ _. some remote) (1 ∷ []) idle idle-IsAllowed
      idle-IsConsistent

logs_exceed :
    (accept (λ _ _. true) metrics_only 5 (λ _. some remote) (1 ∷ []) idle).1 ≡ some exceeds
unfolding accept admit within_allowance observe_agent.Policy.validate observe_agent.Policy.all_known
    observe_agent.Policy.known
logs_exceed = refl

-- A format that knows one document.
abbrev one_format : Format
one_format = record { marshal = λ _. some (7 ∷ []); unmarshal = λ _. some remote.policy }

abbrev empty_store : LocalStore
empty_store = record { has_files = true; file = none }

policy_saved : (save one_format true remote.policy empty_store).0 ≡ none
unfolding save replace validate all_known known
policy_saved = refl
