-- ===== src/Actuator/Machine/Steps.antt =====
-- One call of `Update` (src/actuator/StateMachine.cpp).
use thread_haul_daemon.Base.{
  ◌≡◌, ◌≢◌, refl, inl, inr, Bool, true, false, [], Option, none, some, ap, sym, subst,
  if◌then◌else◌, ◌∙◌, not, arith, All, Real, Bool-cases,
}
use thread_haul_daemon.Actuator.Os.{Os}
use thread_haul_daemon.Actuator.Machine.{
  ProcessState, normal, throttled, suspended, Machine, Transition, Outcome, same_state,
  count_sample, next_state, transition_to, take_step, update,
}

-- The edges of the graded response: lower, then suspend, and recover from either.
pub data Edge : ProcessState → ProcessState → Type 0 where
  lower : Edge normal throttled
  escalate : Edge throttled suspended
  recover_throttled : Edge throttled normal
  recover_suspended : Edge suspended normal

ruleset edges = (lower, escalate, recover_throttled, recover_suspended)

-- What one `Update` did: nothing but count, or one edge, which is reported.
pub data Moved {D W : Type 0} (m : Machine D) (w : W) (o : Outcome D W) (changed : Bool)
    : Type 0 where
  stayed :
      changed ≡ false
      → o.machine.state ≡ m.state
      → o.world ≡ w
      → o.reported ≡ []
      → Moved m w o changed
  moved :
      changed ≡ true
      → m.manual_hold ≡ false
      → Edge m.state o.machine.state
      → All
          (λ (t : Transition D). (t.old_state ≡ m.state) × (t.new_state ≡ o.machine.state))
          o.reported
      → (m.observed ≡ true → o.reported ≢ [])
      → Moved m w o changed

pub next_state-Edge :
    {D : Type 0} (m : Machine D) (s : ProcessState) → next_state m ≡ some s → Edge m.state s
unfolding next_state
next_state-Edge m s h = grind (arith, edges)

pub Edge-differs : {s t : ProcessState} → Edge s t → same_state s t ≡ false
Edge-differs lower = refl
Edge-differs escalate = refl
Edge-differs recover_throttled = refl
Edge-differs recover_suspended = refl

pub same_state_self : (s : ProcessState) → same_state s s ≡ true
same_state_self normal = refl
same_state_self throttled = refl
same_state_self suspended = refl

module _ {D W : Type 0} (os : Os W) where
  -- A transition goes where it is told and starts the counters again.
  pub transition_to_fields :
      (s : ProcessState) (cpu : D) (m : Machine D) (w : W)
      → let n = (transition_to os s cpu m w).machine in
        (n.state ≡ s)
        × (n.high ≡ 0)
        × (n.critical ≡ 0)
        × (n.low ≡ 0)
        × (n.manual_hold ≡ m.manual_hold)
        × (n.config ≡ m.config)
  unfolding transition_to
  transition_to_fields s cpu m w = (refl, refl, refl, refl, refl, refl)

  reports_edge :
      (s : ProcessState) (cpu : D) (m : Machine D) (w : W)
      → let o = transition_to os s cpu m w in
        All
          (λ (t : Transition D). (t.old_state ≡ m.state) × (t.new_state ≡ o.machine.state))
          o.reported
        × (m.observed ≡ true → o.reported ≢ [])
  unfolding transition_to
  reports_edge s cpu m w = elim (Bool-cases m.observed) [
    | inl seen ↦ (rw seen ((refl, refl), tt), rw seen (λ _ e. cc))
    | inr unseen ↦ (rw unseen tt, λ h. cc)
  ]

  step-Moved :
      (n : Option ProcessState) (cpu : D) (m c : Machine D) (w : W)
      → m.manual_hold ≡ false
      → c.state ≡ m.state
      → c.observed ≡ m.observed
      → ((s : ProcessState) → n ≡ some s → Edge c.state s)
      → let o = take_step os n cpu c w in Moved m w o (not (same_state m.state o.machine.state))
  unfolding take_step
  step-Moved none cpu m c w free same seen edge =
      stayed (rw (same, same_state_self m.state)) same refl refl
  step-Moved (some s) cpu m c w free same seen edge =
      let goes = (transition_to_fields s cpu c w).0 in
      let e = subst (λ x. Edge x s) same (edge s refl) in
      let (told, loud) = reports_edge s cpu c w in
      moved (rw (goes, Edge-differs e)) free (rw goes e) (rw (← same) told) (λ h. loud (seen ∙ h))

  module _ ⦃r : Real D⦄ (cpu : D) (m : Machine D) (w : W) where
    abbrev counted : Machine D
    counted = count_sample cpu m

    abbrev stepped : Outcome D W
    stepped = take_step os (next_state counted) cpu counted w

    pub update_held :
        m.manual_hold ≡ true
        → update os cpu m w ≡ (record { machine = counted; world = w; reported = [] }, false)
    unfolding update
    update_held h =
        ap
          (λ b.
            if b
            then (record { machine = counted; world = w; reported = [] }, false)
            else (stepped, not (same_state m.state stepped.machine.state)))
          h

    pub update_free :
        m.manual_hold ≡ false
        → update os cpu m w ≡ (stepped, not (same_state m.state stepped.machine.state))
    unfolding update
    update_free h =
        ap
          (λ b.
            if b
            then (record { machine = counted; world = w; reported = [] }, false)
            else (stepped, not (same_state m.state stepped.machine.state)))
          h

    -- `Update` either only counts the sample, leaving the state and the system alone and reporting
    -- nothing, or it moves an unheld machine along one edge of the graded response, and every
    -- report names the two ends of that edge, at least one being made if there is a callback. It
    -- returns true in the second case only. So no sample suspends a process that runs normally.
    pub update-Moved : let u = update os cpu m w in Moved m w u.0 u.1
    unfolding count_sample
    update-Moved = elim (Bool-cases m.manual_hold) [
      | inl held ↦
          subst (λ u. Moved m w u.0 u.1) (sym (update_held held)) (stayed refl refl refl refl)
      | inr free ↦
          subst (λ u. Moved m w u.0 u.1) (sym (update_free free))
            (step-Moved (next_state counted) cpu m counted w free refl refl
              (next_state-Edge counted))
    ]
