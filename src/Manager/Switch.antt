-- ===== src/Manager/Switch.antt =====
-- internal/app/app.go: `restore`, and `Apply` from the first change to a collector on.
use observe_agent.Base.{
  ◌≡◌, ◌≢◌, refl, ap, ◌∙◌, Bool, true, false, not, ◌||◌, List, ◌∷◌, Option, none, arith, contains,
  Bool-cases, inl, inr,
}
use observe_agent.Policy
use observe_agent.Policy.{Capability, Document, is_on, validate, equal}
use observe_agent.Manager.{
  Manager, Call, Error, visit_stop, visit_start, until_failure, through_failures, restore, fail,
  commit, switch, set_degraded,
}
use observe_agent.Manager.Visit.{
  Frame, Frame-trans, visit_stop-Frame, visit_start-Frame, through_failures-Frame,
  until_failure-Frame, until_aligned, through_aligned,
}

-- Unless it is degraded, the manager runs exactly what its current policy enables.
pub record IsConsistent (m : Manager) : Type 0 where
  pub runs :
      m.degraded ≡ false
      → (x : Capability) → contains x Policy.all ≡ true
      → contains x m.active ≡ is_on m.current x

module _ (answer : List Call → Call → Bool) where
  restore-Frame : (m : Manager) (old : Document) → Frame m (restore answer m old).0
  unfolding restore
  restore-Frame m old =
      let stops = through_failures answer (visit_stop answer old) m Policy.all in
      let starts = through_failures answer (visit_start answer old) stops.0 Policy.all in
      let f =
        Frame-trans
          (through_failures-Frame answer (visit_stop answer old) (visit_stop-Frame answer old) m
            Policy.all)
          (through_failures-Frame answer (visit_start answer old) (visit_start-Frame answer old)
            stops.0 Policy.all) in
      ground (arith, f)

  restore-runs :
      (m : Manager) (old : Document) (x : Capability)
      → contains x Policy.all ≡ true
      → (restore answer m old).0.degraded ≡ false
      → ((restore answer m old).1 ≡ true)
        × (contains x (restore answer m old).0.active ≡ is_on old x)
  unfolding restore
  restore-runs m old x mem h = ground (arith, through_aligned answer old m Policy.all x mem)

  pub fail_lem :
      (m : Manager) (next : Document)
      → IsConsistent (fail answer m next).0
        × ((fail answer m next).0.current ≡ m.current)
        × ((fail answer m next).1 ≢ none)
  unfolding fail
  fail_lem m next = (
    record {
      runs = λ h x mem. ground (arith, restore-Frame m m.current, restore-runs m m.current x mem);
    },
    ground (arith, restore-Frame m m.current),
    ground arith,
  )

  commit_ok :
      (m : Manager) (next : Document)
      → (commit answer m next).1 ≡ none
      → ((commit answer m next).0.current ≡ next)
        × ((commit answer m next).0.degraded ≡ m.degraded)
        × ((commit answer m next).0.active ≡ m.active)
  unfolding commit
  commit_ok m next h =
      ground
        (arith, (fail_lem (set_degraded (record m { calls = Call.save next ∷ m.calls })) next).2)

  commit_error :
      (m : Manager) (next : Document)
      → (commit answer m next).1 ≢ none
      → IsConsistent (commit answer m next).0 × ((commit answer m next).0.current ≡ m.current)
  unfolding commit
  commit_error m next h =
      let failed = set_degraded (record m { calls = Call.save next ∷ m.calls }) in
      let f = fail_lem failed next in
      elim (Bool-cases (not m.has_store || answer m.calls (Call.save next))) [
        | inl e ↦ absurd (h (rw e))
        | inr e ↦ (ground (arith, f), ground (arith, f))
      ]

  module _ (m : Manager) (next : Document) where
    abbrev stopped : Manager × Bool
    stopped = until_failure answer (visit_stop answer next) m Policy.all

    abbrev started : Manager × Bool
    started = until_failure answer (visit_start answer next) stopped.0 Policy.all

    abbrev polled : Manager
    polled = record started.0 { calls = Call.context_err ∷ started.0.calls }

    stopped-Frame : Frame m stopped.0
    stopped-Frame =
        until_failure-Frame answer (visit_stop answer next) (visit_stop-Frame answer next) m
          Policy.all

    started-Frame : Frame m started.0
    started-Frame = Frame-trans stopped-Frame (
        until_failure-Frame answer (visit_start answer next) (visit_start-Frame answer next)
          stopped.0 Policy.all)

    polled-Frame : Frame m polled
    polled-Frame = record {
      registry = started-Frame.registry;
      current = started-Frame.current;
      has_store = started-Frame.has_store;
      closed = started-Frame.closed;
      audit = started-Frame.audit;
      degraded = started-Frame.degraded;
    }

    -- A switch that reports no error went through the commit.
    switch-commit :
        (switch answer m next).1 ≡ none
        → (stopped.1 ≡ true)
          × (started.1 ≡ true)
          × (switch answer m next ≡ commit answer polled next)
    unfolding switch
    switch-commit h =
        ground (
          arith,
          (fail_lem stopped.0 next).2,
          (fail_lem started.0 next).2,
          (fail_lem polled next).2,
        )

    pub switch_ok :
        (switch answer m next).1 ≡ none
        → ((switch answer m next).0.current ≡ next)
          × ((switch answer m next).0.degraded ≡ m.degraded)
          × ((x : Capability)
              → contains x Policy.all ≡ true
              → contains x (switch answer m next).0.active ≡ is_on next x)
    switch_ok h =
        let (a, b, e) = switch-commit h in
        let c = commit_ok polled next (rw e at h) in
        let al = λ (x : Capability) (mem : contains x Policy.all ≡ true).
          until_aligned answer next m Policy.all x mem a b in
        (
          ap (λ (r : Manager × Option Error). r.0.current) e ∙ c.0,
          ap (λ (r : Manager × Option Error). r.0.degraded) e ∙ c.1 ∙ (al Policy.metrics refl).0,
          λ x mem.
              ap (λ (r : Manager × Option Error). contains x r.0.active) e
              ∙ ap (contains x) c.2
              ∙ (al x mem).1,
        )

    pub switch_error :
        (switch answer m next).1 ≢ none
        → IsConsistent (switch answer m next).0 × ((switch answer m next).0.current ≡ m.current)
    unfolding switch
    switch_error h = elim (Bool-cases stopped.1) [
      | inr s ↦ rw s (keeps stopped.0 stopped-Frame)
      | inl s ↦ elim (Bool-cases started.1) [
        | inr e ↦ rw (s, e) (keeps started.0 started-Frame)
        | inl e ↦ elim (Bool-cases (answer started.0.calls Call.context_err)) [
          | inr d ↦ rw (s, e, d) (keeps polled polled-Frame)
          | inl d ↦ rw (s, e, d) (committed (rw (s, e, d) at h))
        ]
      ]
    ]
      where
        keeps :
            (n : Manager)
            → Frame m n
            → IsConsistent (fail answer n next).0 × ((fail answer n next).0.current ≡ m.current)
        keeps n f = let l = fail_lem n next in (l.0, l.1 ∙ f.current)

        committed :
            (commit answer polled next).1 ≢ none
            → IsConsistent (commit answer polled next).0
              × ((commit answer polled next).0.current ≡ m.current)
        committed k = let l = commit_error polled next k in (l.0, l.1 ∙ started-Frame.current)
