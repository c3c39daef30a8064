-- ===== src/Actuator/Machine/Settled.antt =====
-- No trigger is left pending by `Update` (src/actuator/StateMachine.cpp).
use thread_haul_daemon.Base.{
  ◌<◌, ◌≡◌, ◌≢◌, refl, sym, subst, false, Option, none, some, arith, Real,
}
use thread_haul_daemon.Actuator.Os.{Os}
use thread_haul_daemon.Actuator.Machine.{
  ProcessState, normal, throttled, MachineConfig, Machine, count_sample, next_state, transition_to,
  take_step, update,
}
use thread_haul_daemon.Actuator.Machine.Steps.{update_free}

-- No counter has reached the length that would move the machine from its state.
pub record IsSettled {D : Type 0} (m : Machine D) : Type 0 where
  pub calm : m.state ≡ normal → m.high < m.throttle_samples
  pub mild : m.state ≡ throttled → m.critical < m.escalate_samples
  pub loaded : m.state ≢ normal → m.low < m.recover_samples

pub record HasPositiveSamples {D : Type 0} (c : MachineConfig D) : Type 0 where
  pub throttle : 0 < c.throttle_samples
  pub escalate : 0 < c.escalate_samples
  pub recover : 0 < c.recover_samples

next_state-none : {D : Type 0} (m : Machine D) → next_state m ≡ none → IsSettled m
unfolding next_state
next_state-none m h = ground arith

module _ {D W : Type 0} (os : Os W) where
  transition_to-IsSettled :
      (s : ProcessState) (cpu : D) (m : Machine D) (w : W)
      → HasPositiveSamples m.config
      → IsSettled (transition_to os s cpu m w).machine
  unfolding transition_to
  transition_to-IsSettled s cpu m w p = record {
    calm = λ e. p.throttle;
    mild = λ e. p.escalate;
    loaded = λ e. p.recover;
  }

  take_step-IsSettled :
      (n : Option ProcessState) (cpu : D) (m : Machine D) (w : W)
      → HasPositiveSamples m.config
      → next_state m ≡ n
      → IsSettled (take_step os n cpu m w).machine
  unfolding take_step
  take_step-IsSettled none cpu m w p e = next_state-none m e
  take_step-IsSettled (some s) cpu m w p e = transition_to-IsSettled s cpu m w p

  -- Where the configured sample counts are positive, no unheld machine leaves `Update` with a
  -- trigger pending: normal means that the high count is below the throttle length, throttled that
  -- the critical count is below the escalation length, and lowered in any way that the low count is
  -- below the recovery length.
  pub update-IsSettled :
      ⦃r : Real D⦄ (cpu : D) (m : Machine D) (w : W)
      → HasPositiveSamples m.config
      → m.manual_hold ≡ false
      → IsSettled (update os cpu m w).0.machine
  unfolding count_sample
  update-IsSettled cpu m w p free =
      subst (λ u. IsSettled u.0.machine) (sym (update_free os cpu m w free))
        (take_step-IsSettled (next_state (count_sample cpu m)) cpu (count_sample cpu m) w p refl)
