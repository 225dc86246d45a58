-- ===== src/Manager/Visit.antt =====
-- What starting and stopping one collector, and the loops over the capabilities, do to the manager.
use observe_agent.Base.{
  ◌≡◌, refl, ◌∙◌, Bool, true, false, not, ◌&&◌, ◌||◌, List, [], ◌∷◌, arith, str_eq, eq_iff,
  contains, contains-without, Bool-cases, inl, inr,
}
use observe_agent.Policy.{Capability, Document, is_on}
use observe_agent.Manager.{
  Manager, Call, start_one, stop_one, visit_stop, visit_start, until_failure, through_failures,
}

-- What no collector call changes.
pub record Frame (m n : Manager) : Type 0 where
  pub registry : n.registry ≡ m.registry
  pub current : n.current ≡ m.current
  pub has_store : n.has_store ≡ m.has_store
  pub closed : n.closed ≡ m.closed
  pub audit : n.audit ≡ m.audit
  pub degraded : m.degraded ≡ true → n.degraded ≡ true

pub Frame-refl : (m : Manager) → Frame m m
Frame-refl m = record {
  registry = refl;
  current = refl;
  has_store = refl;
  closed = refl;
  audit = refl;
  degraded = λ h. h;
}

pub Frame-trans : {l m n : Manager} → Frame l m → Frame m n → Frame l n
Frame-trans f g = record {
  registry = g.registry ∙ f.registry;
  current = g.current ∙ f.current;
  has_store = g.has_store ∙ f.has_store;
  closed = g.closed ∙ f.closed;
  audit = g.audit ∙ f.audit;
  degraded = λ h. g.degraded (f.degraded h);
}

module _ (answer : List Call → Call → Bool) where
  pub stop_one-Frame : (m : Manager) (c : Capability) → Frame m (stop_one answer m c).0
  unfolding stop_one
  stop_one-Frame m c = ground arith

  start_one-Frame : (m : Manager) (c : Capability) → Frame m (start_one answer m c).0
  unfolding start_one
  start_one-Frame m c = ground arith

  pub visit_stop-Frame :
      (p : Document) (m : Manager) (c : Capability) → Frame m (visit_stop answer p m c).0
  unfolding visit_stop
  visit_stop-Frame p m c = ground (arith, stop_one-Frame m c)

  pub visit_start-Frame :
      (p : Document) (m : Manager) (c : Capability) → Frame m (visit_start answer p m c).0
  unfolding visit_start
  visit_start-Frame p m c = ground (arith, start_one-Frame m c)

  -- A successful stop takes out the capability, and nothing else.
  stop_one-active :
      (m : Manager) (c x : Capability)
      → (stop_one answer m c).1 ≡ true
      → contains x (stop_one answer m c).0.active ≡ (not (str_eq c x) && contains x m.active)
  unfolding stop_one
  stop_one-active m c x h = ground (arith, contains-without x c m.active, eq_iff c x)

  stop_one-degraded :
      (m : Manager) (c : Capability)
      → (stop_one answer m c).1 ≡ true
      → (stop_one answer m c).0.degraded ≡ m.degraded
  unfolding stop_one
  stop_one-degraded m c h = ground arith

  visit_stop-ok :
      (p : Document) (m : Manager) (c x : Capability)
      → (visit_stop answer p m c).1 ≡ true
      → ((visit_stop answer p m c).0.degraded ≡ m.degraded)
        × (contains x (visit_stop answer p m c).0.active
            ≡ (contains x m.active && (is_on p x || not (str_eq x c))))
  unfolding visit_stop
  visit_stop-ok p m c x h =
      ground (arith, stop_one-degraded m c, stop_one-active m c x, eq_iff x c, eq_iff c x)

  visit_start-ok :
      (p : Document) (m : Manager) (c x : Capability)
      → (visit_start answer p m c).1 ≡ true
      → ((visit_start answer p m c).0.degraded ≡ m.degraded)
        × (contains x (visit_start answer p m c).0.active
            ≡ (contains x m.active || (is_on p x && str_eq x c)))
  unfolding visit_start start_one
  visit_start-ok p m c x h = ground (arith, eq_iff x c)

  module _ (visit : Manager → Capability → Manager × Bool) where
    -- A loop that met no failure ran as a loop that ends at the first one.
    through_failures-eq :
        (m : Manager) (cs : List Capability)
        → (through_failures answer visit m cs).1 ≡ true
        → until_failure answer visit m cs ≡ through_failures answer visit m cs
    unfolding through_failures until_failure
    through_failures-eq m [] h = refl
    through_failures-eq m (c ∷ cs) h = ground (arith, through_failures-eq (visit m c).0 cs)

    module _ (keeps : (m : Manager) (c : Capability) → Frame m (visit m c).0) where
      pub through_failures-Frame :
          (m : Manager) (cs : List Capability) → Frame m (through_failures answer visit m cs).0
      unfolding through_failures
      through_failures-Frame m [] = Frame-refl m
      through_failures-Frame m (c ∷ cs) =
          Frame-trans (keeps m c) (through_failures-Frame (visit m c).0 cs)

      pub until_failure-Frame :
          (m : Manager) (cs : List Capability) → Frame m (until_failure answer visit m cs).0
      unfolding until_failure
      until_failure-Frame m [] = Frame-refl m
      until_failure-Frame m (c ∷ cs) = elim (Bool-cases (visit m c).1) [
        | inl e ↦ rw e (Frame-trans (keeps m c) (until_failure-Frame (visit m c).0 cs))
        | inr e ↦ rw e (keeps m c)
      ]

  module _ (p : Document) where
    until_stop_ok :
        (m : Manager) (cs : List Capability) (x : Capability)
        → (until_failure answer (visit_stop answer p) m cs).1 ≡ true
        → ((until_failure answer (visit_stop answer p) m cs).0.degraded ≡ m.degraded)
          × (contains x (until_failure answer (visit_stop answer p) m cs).0.active
              ≡ (contains x m.active && (is_on p x || not (contains x cs))))
    unfolding until_failure
    until_stop_ok m [] x h = (refl, ground arith)
    until_stop_ok m (c ∷ cs) x h =
        ground (arith, visit_stop-ok p m c x, until_stop_ok (visit_stop answer p m c).0 cs x)

    until_start_ok :
        (m : Manager) (cs : List Capability) (x : Capability)
        → (until_failure answer (visit_start answer p) m cs).1 ≡ true
        → ((until_failure answer (visit_start answer p) m cs).0.degraded ≡ m.degraded)
          × (contains x (until_failure answer (visit_start answer p) m cs).0.active
              ≡ (contains x m.active || (is_on p x && contains x cs)))
    unfolding until_failure
    until_start_ok m [] x h = (refl, ground arith)
    until_start_ok m (c ∷ cs) x h =
        ground (arith, visit_start-ok p m c x, until_start_ok (visit_start answer p m c).0 cs x)

    -- Both loops together leave exactly the capabilities of `p` running.
    pub until_aligned :
        (m : Manager) (cs : List Capability) (x : Capability)
        → contains x cs ≡ true
        → (until_failure answer (visit_stop answer p) m cs).1 ≡ true
        → (until_failure answer
            (visit_start answer p)
            (until_failure answer (visit_stop answer p) m cs).0
            cs).1
          ≡ true
        → let m' =
            (until_failure answer
              (visit_start answer p)
              (until_failure answer (visit_stop answer p) m cs).0
              cs).0 in
          (m'.degraded ≡ m.degraded) × (contains x m'.active ≡ is_on p x)
    until_aligned m cs x mem a b = ground (
      arith,
      until_stop_ok m cs x,
      until_start_ok (until_failure answer (visit_stop answer p) m cs).0 cs x,
    )

    pub through_aligned :
        (m : Manager) (cs : List Capability) (x : Capability)
        → contains x cs ≡ true
        → (through_failures answer (visit_stop answer p) m cs).1 ≡ true
        → (through_failures answer
            (visit_start answer p)
            (through_failures answer (visit_stop answer p) m cs).0
            cs).1
          ≡ true
        → let m' =
            (through_failures answer
              (visit_start answer p)
              (through_failures answer (visit_stop answer p) m cs).0
              cs).0 in
          (m'.degraded ≡ m.degraded) × (contains x m'.active ≡ is_on p x)
    through_aligned m cs x mem a b =
        let m1 = (through_failures answer (visit_stop answer p) m cs).0 in
        let e1 = through_failures-eq (visit_stop answer p) m cs a in
        let e2 = through_failures-eq (visit_start answer p) m1 cs b in
        ground (arith, e1, e2, until_stop_ok m cs x, until_start_ok m1 cs x)

  stop_one-absent :
      (m : Manager) (c x : Capability)
      → contains x m.active ≡ false
      → contains x (stop_one answer m c).0.active ≡ false
  unfolding stop_one
  stop_one-absent m c x h = ground (arith, contains-without x c m.active)

  -- Stopping brings nothing back.
  through_keeps_absent :
      (m : Manager) (cs : List Capability) (x : Capability)
      → contains x m.active ≡ false
      → contains x (through_failures answer (stop_one answer) m cs).0.active ≡ false
  unfolding through_failures
  through_keeps_absent m [] x h = h
  through_keeps_absent m (c ∷ cs) x h =
      through_keeps_absent (stop_one answer m c).0 cs x (stop_one-absent m c x h)

  -- A stop of everything that succeeds leaves nothing of the list running.
  pub through_stop_all :
      (m : Manager) (cs : List Capability) (x : Capability)
      → contains x cs ≡ true
      → (through_failures answer (stop_one answer) m cs).1 ≡ true
      → contains x (through_failures answer (stop_one answer) m cs).0.active ≡ false
  unfolding through_failures
  through_stop_all m [] x mem h = cc
  through_stop_all m (c ∷ cs) x mem h = elim (Bool-cases (contains x cs)) [
    | inl more ↦ through_stop_all (stop_one answer m c).0 cs x more (ground arith)
    | inr last ↦ ground (
      arith,
      eq_iff x c,
      eq_iff c x,
      stop_one-active m c x,
      through_keeps_absent (stop_one answer m c).0 cs x,
    )
  ]
