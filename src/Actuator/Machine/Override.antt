-- ===== src/Actuator/Machine/Override.antt =====
-- The manual override, and the recovery at shutdown (src/actuator/StateMachine.cpp).
use thread_haul_daemon.Base.{
  ℕ, ◌≡◌, ◌≢◌, refl, ap, ◌∙◌, Bool, true, false, List, [], ◌∷◌, ◌&&◌, arith, All, Real,
}
use thread_haul_daemon.Actuator.Threads.{resume_all_threads, all_succeeded}
use thread_haul_daemon.Actuator.Os.{
  Os, PriorityChangeResult, set_process_priority, is_success, normal as normal_level,
}
use thread_haul_daemon.Actuator.Machine.{
  ProcessState, normal, throttled, suspended, Machine, Outcome, count_sample, has_exited, actuate,
  transition_to, update, run, force_state, force_recover_for_shutdown,
}
use thread_haul_daemon.Actuator.Machine.Steps.{update_held}

abbrev pub restored : {W : Type 0} → Os W → ℕ → W → PriorityChangeResult × W
restored os pid w = set_process_priority os pid normal_level w

module _ {D : Type 0} ⦃r : Real D⦄ (cpu : D) (m : Machine D) where
  count_keeps_state : (count_sample cpu m).state ≡ m.state
  unfolding count_sample
  count_keeps_state = refl

  count_keeps_hold : (count_sample cpu m).manual_hold ≡ m.manual_hold
  unfolding count_sample
  count_keeps_hold = refl

module _ {D W : Type 0} (os : Os W) where
  -- While a machine is held, no sequence of samples changes its state, touches the system or
  -- reports anything.
  pub run_held :
      ⦃r : Real D⦄ (xs : List D) (m : Machine D) (w : W)
      → m.manual_hold ≡ true
      → let o = run os xs m w in
        (o.machine.state ≡ m.state)
        × (o.machine.manual_hold ≡ true)
        × (o.world ≡ w)
        × (o.reported ≡ [])
  unfolding run
  run_held [] m w h = (refl, h, refl, refl)
  run_held (x ∷ xs) m w h =
      let o = (update os x m w).0 in
      let u = update_held os x m w h in
      let state = ap (λ (k : Outcome D W × Bool). k.0.machine.state) u ∙ count_keeps_state x m in
      let hold =
        ap (λ (k : Outcome D W × Bool). k.0.machine.manual_hold) u ∙ count_keeps_hold x m ∙ h in
      let world = ap (λ (k : Outcome D W × Bool). k.0.world) u in
      let quiet = ap (λ (k : Outcome D W × Bool). k.0.reported) u in
      let (s, k, w', q) = run_held xs o.machine o.world hold in
      (s ∙ state, k, w' ∙ world, rw (quiet, q) refl)

  -- After `ForceState` the machine is in the requested state and held as requested. A request for
  -- the state that it is in makes no Windows call and reports nothing.
  pub force_state_lem :
      (s : ProcessState) (cpu : D) (hold : Bool) (m : Machine D) (w : W)
      → let o = force_state os s cpu hold m w in
        (o.machine.state ≡ s)
        × (o.machine.manual_hold ≡ hold)
        × (m.state ≡ s → (o.world ≡ w) × (o.reported ≡ []))
  unfolding force_state transition_to
  force_state_lem s cpu hold m w = ground arith

  -- `ForceRecoverForShutdown` leaves the machine normal and unheld, whatever it was. A normal
  -- machine and one whose process has exited make no Windows call. A live suspended process has its
  -- threads resumed and then its priority restored, a live throttled one its priority alone; the
  -- report, if there is a callback, says whether all of that succeeded.
  pub recover_lem :
      (no_load : D) (m : Machine D) (w : W)
      → let o = force_recover_for_shutdown os no_load m w in
        let resumed = resume_all_threads os.threads m.pid w in
        (o.machine.state ≡ normal)
        × (o.machine.manual_hold ≡ false)
        × (m.state ≡ normal → (o.world ≡ w) × (o.reported ≡ []))
        × (m.state ≢ normal
            → has_exited os m w ≡ true
            → (o.world ≡ w) × All (λ t. t.actuated ≡ false) o.reported)
        × (m.state ≡ suspended
            → has_exited os m w ≡ false
            → (o.world ≡ (restored os m.pid resumed.1).1)
              × All
                  (λ t.
                    t.actuated
                    ≡ (all_succeeded resumed.0 && is_success (restored os m.pid resumed.1).0))
                  o.reported)
        × (m.state ≡ throttled
            → has_exited os m w ≡ false
            → (o.world ≡ (restored os m.pid w).1)
              × All (λ t. t.actuated ≡ is_success (restored os m.pid w).0) o.reported)
  unfolding force_recover_for_shutdown transition_to actuate
  recover_lem no_load m w = ground arith
