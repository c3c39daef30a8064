-- ===== src/Actuator/Machine/Identity.antt =====
-- No operation changes whose machine it is or its configuration (src/actuator/StateMachine.cpp).
use thread_haul_daemon.Base.{
  ◌≡◌, refl, sym, subst, Bool, inl, inr, Option, none, some, arith, Real, Bool-cases,
}
use thread_haul_daemon.Actuator.Os.{Os}
use thread_haul_daemon.Actuator.Machine.{
  ProcessState, Machine, count_sample, next_state, transition_to, take_step, update, force_state,
  force_recover_for_shutdown,
}
use thread_haul_daemon.Actuator.Machine.Steps.{update_free, update_held}

pub record IsSame {D : Type 0} (m n : Machine D) : Type 0 where
  pub name : n.name ≡ m.name
  pub pid : n.pid ≡ m.pid
  pub config : n.config ≡ m.config

module _ {D W : Type 0} (os : Os W) where
  step-IsSame :
      (o : Option ProcessState) (cpu : D) (m : Machine D) (w : W)
      → IsSame m (take_step os o cpu m w).machine
  unfolding take_step transition_to
  step-IsSame none cpu m w = record { name = refl; pid = refl; config = refl }
  step-IsSame (some s) cpu m w = record { name = refl; pid = refl; config = refl }

  pub update-IsSame :
      ⦃r : Real D⦄ (cpu : D) (m : Machine D) (w : W) → IsSame m (update os cpu m w).0.machine
  unfolding count_sample
  update-IsSame cpu m w = elim (Bool-cases m.manual_hold) [
    | inl held ↦
        subst (λ u. IsSame m u.0.machine) (sym (update_held os cpu m w held))
          (record { name = refl; pid = refl; config = refl })
    | inr free ↦
        let s = step-IsSame (next_state (count_sample cpu m)) cpu (count_sample cpu m) w in
        subst (λ u. IsSame m u.0.machine) (sym (update_free os cpu m w free))
          (record { name = s.name; pid = s.pid; config = s.config })
  ]

  pub force_state-IsSame :
      (s : ProcessState) (cpu : D) (hold : Bool) (m : Machine D) (w : W)
      → IsSame m (force_state os s cpu hold m w).machine
  unfolding force_state transition_to
  force_state-IsSame s cpu hold m w = ground arith

  pub recover-IsSame :
      (no_load : D) (m : Machine D) (w : W)
      → IsSame m (force_recover_for_shutdown os no_load m w).machine
  unfolding force_recover_for_shutdown transition_to
  recover-IsSame no_load m w = ground arith
