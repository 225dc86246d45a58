-- ===== src/Manager/Tests.antt =====
-- Runs of the manager, and its theorems at concrete inputs.
use observe_agent.Base.{◌≡◌, ◌<◌, refl, Bool, true, false, List, [], ◌∷◌, none, some, ◌⊎◌, contains}
use observe_agent.Policy
use observe_agent.Policy.{Capability, Document, validate, equal, is_on}
use observe_agent.Manager.{
  Manager, Call, Registration, apply, close, new, check, switch, commit, fail, restore,
  until_failure, through_failures, visit_stop, visit_start, start_one, stop_one, is_registered,
  unregistered, start, retained, stale_version,
}
use observe_agent.Manager.Switch.{IsConsistent}
use observe_agent.Manager.Apply.{
  Same, is_refusal, apply-IsConsistent, apply_error, apply_ok, apply_version, apply_refused,
  close_ok,
}

abbrev registration : Capability → Capability × Registration
registration c = (c, record { capability = c; implemented = true; has_new = true })

abbrev idle : Manager
idle = record {
  registry = registration "metrics" ∷ registration "logs" ∷ [];
  active = [];
  current = record { version = 0; enabled = [] };
  has_store = false;
  degraded = false;
  closed = false;
  calls = [];
  audit = [];
}

abbrev both : Document
both = record { version = 2; enabled = ("metrics", true) ∷ ("logs", true) ∷ [] }

-- Every call succeeds.
abbrev willing : List Call → Call → Bool
willing _ _ = true

-- The logs collector does not start.
abbrev no_logs : List Call → Call → Bool
no_logs _ (start c) = elim (contains c ("logs" ∷ [])) [ true ↦ false | false ↦ true ]
no_logs _ _ = true

idle-new : new idle.registry false ≡ idle
unfolding new
idle-new = refl

idle-IsConsistent : IsConsistent idle
unfolding is_on
idle-IsConsistent = record { runs = λ d x mem. refl }

runs_both :
    ((apply willing idle both).0.active ≡ "logs" ∷ "metrics" ∷ [])
    × ((apply willing idle both).1 ≡ none)
unfolding apply check switch commit fail restore until_failure through_failures visit_stop
    visit_start start_one stop_one is_registered unregistered validate equal is_on
runs_both = (refl, refl)

rolls_back :
    ((apply no_logs idle both).0.active ≡ []) × ((apply no_logs idle both).1 ≡ some retained)
unfolding apply check switch commit fail restore until_failure through_failures visit_stop
    visit_start start_one stop_one is_registered unregistered validate equal is_on
rolls_back = (refl, refl)

apply-IsConsistent_example : IsConsistent (apply no_logs idle both).0
apply-IsConsistent_example = apply-IsConsistent no_logs idle both idle-IsConsistent

apply_error_example : (apply no_logs idle both).0.current ≡ idle.current
apply_error_example = apply_error no_logs idle both retained (rolls_back.1)

apply_ok_example :
    ((apply willing idle both).0.degraded ≡ false)
    × ((x : Capability)
        → contains x Policy.all ≡ true
        → contains x (apply willing idle both).0.active ≡ is_on both x)
apply_ok_example = apply_ok willing idle both idle-IsConsistent runs_both.1

apply_version_example :
    ((apply willing idle both).0.current ≡ idle.current)
    ⊎ (((apply willing idle both).0.current ≡ both)
        × (idle.current.version < both.version)
        × (validate both ≡ none))
apply_version_example = apply_version willing idle both

-- A document of the current version that differs from the current one.
abbrev running : Manager
running = record idle { current = both; active = "logs" ∷ "metrics" ∷ [] }

abbrev logs_only : Document
logs_only = record { version = 2; enabled = ("logs", true) ∷ [] }

stale : (apply willing running logs_only).1 ≡ some stale_version
unfolding apply check switch commit fail restore until_failure through_failures visit_stop
    visit_start start_one stop_one is_registered unregistered validate equal is_on
stale = refl

stale-refusal : is_refusal stale_version ≡ true
unfolding is_refusal
stale-refusal = refl

apply_refused_example : Same running (apply willing running logs_only).0
apply_refused_example = apply_refused willing running logs_only stale_version stale stale-refusal

close_runs : (close willing running).1 ≡ none
unfolding close through_failures stop_one
close_runs = refl

close_ok_example :
    ((close willing running).0.closed ≡ true)
    × (contains "logs" (close willing running).0.active ≡ false)
close_ok_example = close_ok willing running "logs" close_runs refl
