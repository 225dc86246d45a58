-- ===== src/Manager.antt =====
-- internal/app/app.go: the manager that applies a policy to the collectors.
-- The collectors, the policy store and the contexts answer the manager's calls; `answer` gives each
-- answer from the calls made before it, so that it stands for any of their behaviours.
pub mod Visit
pub mod Switch
pub mod Apply
mod Tests
use observe_agent.Base.{
  ℕ, String, Bool, true, false, not, ◌&&◌, ◌||◌, List, [], ◌∷◌, Option, none, some, leb, str_eq,
  contains, without, lookup, if◌then◌else◌,
}
use observe_agent.Policy
use observe_agent.Policy.{Capability, Document, Invalid, is_on, validate, equal}

-- What the manager asks of its surroundings, where an answer may be an error.
pub data Call : Type 0 where
  context_err root_err : Call
  construct start stop : Capability → Call
  save : Document → Call

-- A registry entry: `Descriptor.Capability`, `Descriptor.Implemented`, and whether `New` is set.
pub record Registration : Type 0 where
  pub capability : Capability
  pub implemented : Bool
  pub has_new : Bool

-- `active` has the keys of the map of running collectors, `calls` the calls made, latest first.
pub record Manager : Type 0 where
  pub registry : List (Capability × Registration)
  pub active : List Capability
  pub current : Document
  pub has_store : Bool
  pub degraded : Bool
  pub closed : Bool
  pub calls : List Call
  pub audit : List (String × ℕ)

pub data Error : Type 0 where
  unavailable cancelled root_cancelled stale_version : Error
  invalid : Invalid → Error
  not_implemented : Capability → Error
  rollback_incomplete needs_attention retained unclean_stop : Error

-- `New`
unfoldable pub new : List (Capability × Registration) → Bool → Manager
new registry has_store = record {
  registry = registry;
  active = [];
  current = record { version = 0; enabled = [] };
  has_store = has_store;
  degraded = false;
  closed = false;
  calls = [];
  audit = [];
}

abbrev pub set_degraded : Manager → Manager
set_degraded m = record m { degraded = true }

-- The test of the registration that `Apply` makes for each enabled capability.
unfoldable pub is_registered : Manager → Capability → Bool
is_registered m c = elim (lookup c m.registry) [
  | none ↦ false
  | some r ↦ r.implemented && (r.has_new && str_eq r.capability c)
]

-- The first enabled capability with no usable registration.
unfoldable pub unregistered : Manager → Document → List Capability → Option Capability
unregistered m p [] = none
unregistered m p (c ∷ cs) =
    let rest = unregistered m p cs in
    if is_on p c then (if is_registered m c then rest else some c) else rest

module _ (answer : List Call → Call → Bool) where
  abbrev pub ask : Call → Manager → Bool × Manager
  ask c m = (answer m.calls c, record m { calls = c ∷ m.calls })

  -- `start`: a collector whose start fails is stopped again.
  unfoldable pub start_one : Manager → Capability → Manager × Bool
  start_one m c =
      let (built, m1) = ask (construct c) m in
      let (started, m2) = ask (start c) m1 in
      let (stopped, m3) = ask (stop c) m2 in
      if built
      then (if started
          then (record m2 { active = c ∷ m2.active }, true)
          else if stopped
          then (m3, false)
          else (set_degraded m3, false))
      else (m1, false)

  -- `stop`: a collector that does not stop cleanly stays in `active`.
  unfoldable pub stop_one : Manager → Capability → Manager × Bool
  stop_one m c =
      let (stopped, m1) = ask (stop c) m in
      if contains c m.active
      then (if stopped
          then (record m1 { active = without c m1.active }, true)
          else (set_degraded m1, false))
      else (m, true)

  -- The bodies of the two loops that bring the collectors in line with a document.
  unfoldable pub visit_stop : Document → Manager → Capability → Manager × Bool
  visit_stop p m c = if is_on p c then (m, true) else stop_one m c

  unfoldable pub visit_start : Document → Manager → Capability → Manager × Bool
  visit_start p m c =
      if is_on p c then (if contains c m.active then (m, true) else start_one m c) else (m, true)

  -- A loop of `Apply` ends at the first failure.
  unfoldable pub until_failure :
      (Manager → Capability → Manager × Bool) → Manager → List Capability → Manager × Bool
  until_failure visit m [] = (m, true)
  until_failure visit m (c ∷ cs) =
      let (m', ok) = visit m c in
      let rest = until_failure visit m' cs in if ok then rest else (m', false)

  -- A loop of `restore` goes on, and reports whether all visits succeeded.
  unfoldable pub through_failures :
      (Manager → Capability → Manager × Bool) → Manager → List Capability → Manager × Bool
  through_failures visit m [] = (m, true)
  through_failures visit m (c ∷ cs) =
      let (m', ok) = visit m c in
      let (m'', rest_ok) = through_failures visit m' cs in (m'', ok && rest_ok)

  unfoldable pub restore : Manager → Document → Manager × Bool
  restore m old =
      let (m1, stopped) = through_failures (visit_stop old) m Policy.all in
      let (m2, started) = through_failures (visit_start old) m1 Policy.all in
      if stopped && started then (m2, true) else (set_degraded m2, false)

  -- The closure `fail` of `Apply`.
  unfoldable pub fail : Manager → Document → Manager × Option Error
  fail m next =
      let (m1, restored) = restore m m.current in
      let m2 = record m1 { audit = ("policy_apply_failed", next.version) ∷ m1.audit } in
      if restored
      then (m2, some (if m2.degraded then needs_attention else retained))
      else (m2, some rollback_incomplete)

  -- The end of `Apply`: save the document, if there is a store, and make it current.
  unfoldable pub commit : Manager → Document → Manager × Option Error
  commit m next =
      let (saved, m1) = ask (save next) m in
      let m2 = if m.has_store then m1 else m in
      if not m.has_store || saved
      then (record m2 { current = next; audit = ("policy_applied", next.version) ∷ m2.audit }, none)
      else fail (set_degraded m1) next

  -- `Apply` from the first change to a collector on.
  unfoldable pub switch : Manager → Document → Manager × Option Error
  switch m next =
      let (m1, stopped) = until_failure (visit_stop next) m Policy.all in
      let (m2, started) = until_failure (visit_start next) m1 Policy.all in
      let (live, m3) = ask context_err m2 in
      if stopped
      then (if started then (if live then commit m3 next else fail m3 next) else fail m2 next)
      else fail m1 next

  -- What `Apply` checks before it touches a collector: an error, or whether there is work to do.
  unfoldable pub check : Manager → Document → Manager × Option Error × Bool
  check m next =
      let (live, m1) = ask context_err m in
      let (root_live, m2) = ask root_err m1 in
      if m.closed || m.degraded
      then (m, some unavailable, false)
      else if not live
      then (m1, some cancelled, false)
      else if not root_live
      then (m2, some root_cancelled, false)
      else elim (validate next) [
        | some e ↦ (m2, some (invalid e), false)
        | none ↦
            if equal next m.current
            then (m2, none, false)
            else if leb next.version m.current.version
            then (m2, some stale_version, false)
            else elim (unregistered m2 next Policy.all) [
              | some c ↦ (m2, some (not_implemented c), false)
              | none ↦ (m2, none, true)
            ]
      ]

  unfoldable pub apply : Manager → Document → Manager × Option Error
  apply m next = let (m1, e, work) = check m next in if work then switch m1 next else (m1, e)

  -- `Close`: every collector is stopped, whatever the others do.
  unfoldable pub close : Manager → Manager × Option Error
  close m =
      let (m1, ok) = through_failures stop_one (record m { closed = true }) Policy.all in
      (m1, if ok then none else some unclean_stop)
