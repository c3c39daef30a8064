-- ===== src/Telemetry/Tracker/Lockstep.antt =====
-- The tracker (src/telemetry/ThresholdTracker.h) reports the streaks that the state machine acts on
-- (src/actuator/StateMachine.cpp), when it is reset at each transition, as Daemon::Poll does.
use thread_haul_daemon.Base.{
  ◌≡◌, refl, sym, subst, Bool, true, false, List, Option, none, some, arith, if◌then◌else◌, not,
  Any, Real,
}
use thread_haul_daemon.Actuator.Os.{Os}
use thread_haul_daemon.Actuator.Machine.{
  ProcessState, normal, throttled, suspended, Machine, same_state, count_sample, next_state,
  transition_to, take_step, update,
}
use thread_haul_daemon.Actuator.Machine.Steps.{update_free}
use thread_haul_daemon.Actuator.Machine.Settled.{IsSettled}
use thread_haul_daemon.Telemetry.Tracker.{
  ThresholdType, high, critical, low, Fired, Tracker, add, reset,
}

pub record Agrees {D : Type 0} (t : Tracker) (m : Machine D) : Type 0 where
  pub high : t.high_count ≡ m.high
  pub critical : t.critical_count ≡ m.critical
  pub low : t.low_count ≡ m.low

-- The streak that an edge of the state machine answers.
abbrev pub cause : ProcessState → ThresholdType
cause normal = low
cause throttled = high
cause suspended = critical

abbrev pub Reports : ThresholdType → List Fired → Type 0
Reports kind = Any (λ f. f.kind ≡ kind)

-- What Poll does with the tracker around `UpdateAll`.
abbrev pub track : {D : Type 0} ⦃r : Real D⦄ → D → Machine D → Bool → Tracker → Tracker
track cpu m changed t = if changed then reset else (add cpu m.config t).0

module _ {D W : Type 0} (os : Os W) ⦃r : Real D⦄ (cpu : D) where
  take_step-Agrees :
      (n : Option ProcessState) (m : Machine D) (t : Tracker) (w : W)
      → next_state (count_sample cpu m) ≡ n
      → Agrees t m
      → IsSettled m
      → let o = take_step os n cpu (count_sample cpu m) w in
        let changed = not (same_state m.state o.machine.state) in
        Agrees (track cpu m changed t) o.machine
        × (changed ≡ true → Reports (cause o.machine.state) (add cpu m.config t).1)
  unfolding take_step transition_to count_sample next_state add reset
  take_step-Agrees none m t w e a s = ground arith
  take_step-Agrees (some normal) m t w e a s = ground arith
  take_step-Agrees (some throttled) m t w e a s = ground arith
  take_step-Agrees (some suspended) m t w e a s = ground arith

  -- Let the tracker have the counters of an unheld machine that has no trigger pending, under the
  -- machine's thresholds. After the next sample, and the reset that follows a change of state, it
  -- has the machine's counters again; and if the machine changed its state, the tracker reported
  -- the streak that caused the change on that very sample.
  pub update-Agrees :
      (m : Machine D) (t : Tracker) (w : W)
      → Agrees t m
      → IsSettled m
      → m.manual_hold ≡ false
      → let u = update os cpu m w in
        Agrees (track cpu m u.1 t) u.0.machine
        × (u.1 ≡ true → Reports (cause u.0.machine.state) (add cpu m.config t).1)
  update-Agrees m t w a s free =
      subst
        (λ u.
          Agrees (track cpu m u.1 t) u.0.machine
          × (u.1 ≡ true → Reports (cause u.0.machine.state) (add cpu m.config t).1))
        (sym (update_free os cpu m w free))
        (take_step-Agrees (next_state (count_sample cpu m)) m t w refl a s)
