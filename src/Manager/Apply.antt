-- ===== src/Manager/Apply.antt =====
-- internal/app/app.go, `Apply` and `Close`: what a policy change leaves running.
use observe_agent.Base.{
  ◌<◌, ◌≡◌, ap, ◌∙◌, sym, Bool, true, false, List, [], ◌∷◌, none, some, ◌⊎◌, arith, contains,
  Bool-cases, Option-cases, inl, inr,
}
use observe_agent.Policy
use observe_agent.Policy.{Capability, Document, is_on, validate, equal, equal-is_on}
use observe_agent.Manager.{
  Manager, Call, Error, check, switch, apply, close, stop_one, commit, fail, unavailable, cancelled,
  root_cancelled, stale_version, invalid, not_implemented,
}
use observe_agent.Manager.Visit.{stop_one-Frame, through_failures-Frame, through_stop_all}
use observe_agent.Manager.Switch.{IsConsistent, switch_ok, switch_error}

-- The calls that act on a collector or on the store.
unfoldable pub effects : List Call → List Call
effects [] = []
effects (Call.context_err ∷ cs) = effects cs
effects (Call.root_err ∷ cs) = effects cs
effects (c ∷ cs) = c ∷ effects cs

-- The errors of the checks before the first change.
unfoldable pub is_refusal : Error → Bool
is_refusal unavailable = true
is_refusal cancelled = true
is_refusal root_cancelled = true
is_refusal stale_version = true
is_refusal (invalid _) = true
is_refusal (not_implemented _) = true
is_refusal _ = false

-- What `check` keeps: all but the record of the calls, of which none has an effect.
pub record Same (m n : Manager) : Type 0 where
  pub active : n.active ≡ m.active
  pub current : n.current ≡ m.current
  pub degraded : n.degraded ≡ m.degraded
  pub registry : n.registry ≡ m.registry
  pub closed : n.closed ≡ m.closed
  pub audit : n.audit ≡ m.audit
  pub effects_same : effects n.calls ≡ effects m.calls

switch_unrefused :
    (answer : List Call → Call → Bool) (m : Manager) (next : Document) (e : Error)
    → (switch answer m next).1 ≡ some e
    → is_refusal e ≡ false
unfolding switch commit fail is_refusal
switch_unrefused answer m next e h = ground arith

module _ (answer : List Call → Call → Bool) (m : Manager) (next : Document) where
  abbrev checked : Manager
  checked = (check answer m next).0

  check-Same : Same m checked
  unfolding check effects
  check-Same = ground arith

  -- There is work only for a valid, newer document whose capabilities are all registered.
  check_work :
      (check answer m next).2 ≡ true
      → (m.closed ≡ false)
        × (m.degraded ≡ false)
        × (validate next ≡ none)
        × (m.current.version < next.version)
  unfolding check
  check_work h = ground arith

  -- Without work and without an error the document is the current one.
  check-equal :
      (check answer m next).2 ≡ false
      → (check answer m next).1 ≡ none
      → (equal next m.current ≡ true) × (m.degraded ≡ false)
  unfolding check
  check-equal h e = ground arith

  check_refuses : (e : Error) → (check answer m next).1 ≡ some e → is_refusal e ≡ true
  unfolding check is_refusal
  check_refuses e h = ground arith

  -- Whatever the collectors, the store and the contexts answer: if, unless it was degraded, the
  -- manager ran exactly what its policy enabled, then after `Apply` it runs exactly what its policy
  -- enables, unless it is degraded.
  pub apply-IsConsistent : IsConsistent m → IsConsistent (apply answer m next).0
  unfolding apply
  apply-IsConsistent c = elim (Bool-cases (check answer m next).2) [
    | inl w ↦ rw w (after_switch (Option-cases (switch answer checked next).1))
    | inr w ↦ rw w (record {
      runs = λ h x mem. ground (arith, check-Same, c.runs (sym check-Same.degraded ∙ h) x mem);
    })
  ]
    where
      after_switch :
          ((switch answer checked next).1 ≡ none)
            ⊎ ((e : Error) × ((switch answer checked next).1 ≡ some e))
          → IsConsistent (switch answer checked next).0
      after_switch (inl e) =
          let l = switch_ok answer checked next e in
          record { runs = λ h x mem. l.2 x mem ∙ ap (λ p. is_on p x) (sym l.0) }
      after_switch (inr (e, p)) = (switch_error answer checked next (λ n. cc (p, n))).0

  -- An error of `Apply` leaves the current policy as it was.
  pub apply_error :
      (e : Error) → (apply answer m next).1 ≡ some e → (apply answer m next).0.current ≡ m.current
  unfolding apply
  apply_error e h = elim (Bool-cases (check answer m next).2) [
    | inl w ↦
        let s = switch_error answer checked next (λ n. cc (rw w at h, n)) in
        rw w (s.1 ∙ check-Same.current)
    | inr w ↦ rw w check-Same.current
  ]

  -- If `Apply` returns no error, every capability runs exactly if the new policy enables it, and the
  -- manager is not degraded.
  pub apply_ok :
      IsConsistent m
      → (apply answer m next).1 ≡ none
      → ((apply answer m next).0.degraded ≡ false)
        × ((x : Capability)
            → contains x Policy.all ≡ true
            → contains x (apply answer m next).0.active ≡ is_on next x)
  unfolding apply
  apply_ok c h = elim (Bool-cases (check answer m next).2) [
    | inl w ↦
        let s = switch_ok answer checked next (rw w at h) in
        rw w (s.1 ∙ check-Same.degraded ∙ (check_work w).1, s.2)
    | inr w ↦
        let (same, fine) = check-equal w (rw w at h) in
        rw w (
          check-Same.degraded ∙ fine,
          λ x mem.
              ap (contains x) check-Same.active
              ∙ c.runs fine x mem
              ∙ sym (equal-is_on next m.current x same mem),
        )
  ]

  -- `Apply` keeps the current policy, or replaces it by a valid one of a greater version.
  pub apply_version :
      ((apply answer m next).0.current ≡ m.current)
      ⊎ (((apply answer m next).0.current ≡ next)
          × (m.current.version < next.version)
          × (validate next ≡ none))
  unfolding apply
  apply_version = elim (Bool-cases (check answer m next).2) [
    | inr w ↦ rw w (inl check-Same.current)
    | inl w ↦ rw w (after (Option-cases (switch answer checked next).1) (check_work w))
  ]
    where
      after :
          ((switch answer checked next).1 ≡ none)
            ⊎ ((e : Error) × ((switch answer checked next).1 ≡ some e))
          → (m.closed ≡ false)
            × (m.degraded ≡ false)
            × (validate next ≡ none)
            × (m.current.version < next.version)
          → ((switch answer checked next).0.current ≡ m.current)
            ⊎ (((switch answer checked next).0.current ≡ next)
                × (m.current.version < next.version)
                × (validate next ≡ none))
      after (inl e) w = inr ((switch_ok answer checked next e).0, w.3, w.2)
      after (inr (e, p)) w =
          inl ((switch_error answer checked next (λ n. cc (p, n))).1 ∙ check-Same.current)

  -- A refused document starts, stops and saves nothing.
  pub apply_refused :
      (e : Error)
      → (apply answer m next).1 ≡ some e
      → is_refusal e ≡ true
      → Same m (apply answer m next).0
  unfolding apply
  apply_refused e h r = elim (Bool-cases (check answer m next).2) [
    | inl w ↦ cc (switch_unrefused answer checked next e (rw w at h), r)
    | inr w ↦ rw w check-Same
  ]

  -- A closed or degraded manager refuses every document.
  pub apply_unavailable :
      (m.closed ≡ true) ⊎ (m.degraded ≡ true) → apply answer m next ≡ (m, some unavailable)
  unfolding apply check
  apply_unavailable (inl h) = rw h
  apply_unavailable (inr h) = ground arith

-- After a `Close` that reports no error none of the capabilities runs, and nothing can start again.
pub close_ok :
    (answer : List Call → Call → Bool) (m : Manager) (x : Capability)
    → (close answer m).1 ≡ none
    → contains x Policy.all ≡ true
    → ((close answer m).0.closed ≡ true) × (contains x (close answer m).0.active ≡ false)
unfolding close
close_ok answer m x h mem = (
  (through_failures-Frame answer (stop_one answer) (stop_one-Frame answer)
      (record m { closed = true }) Policy.all).closed,
  through_stop_all answer (record m { closed = true }) Policy.all x mem (ground arith),
)
