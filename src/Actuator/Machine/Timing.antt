-- ===== src/Actuator/Machine/Timing.antt =====
-- How many samples the graded response takes (src/actuator/StateMachine.cpp).
use thread_haul_daemon.Base.{
  ℕ, ◌+◌, ◌≤◌, ◌≡◌, refl, sym, ap, ◌∙◌, subst, inl, inr, List, [], ◌∷◌, Option, none, some, arith,
  length, Real, Bool-cases, leb, if◌then◌else◌,
}
use thread_haul_daemon.Actuator.Os.{Os}
use thread_haul_daemon.Actuator.Machine.{
  ProcessState, normal, throttled, suspended, Machine, count_sample, next_state, transition_to,
  take_step, update, run,
}
use thread_haul_daemon.Actuator.Machine.Steps.{update_free, update_held}

-- How far a machine has come on the way to suspension, in samples.
abbrev gauge_of : ProcessState → ℕ → ℕ → ℕ → ℕ → ℕ
gauge_of normal tn en high critical = if leb tn high then tn else high
gauge_of throttled tn en high critical = tn + (if leb en critical then en else critical)
gauge_of suspended tn en high critical = tn + en

abbrev gauge : {D : Type 0} → Machine D → ℕ
gauge m = gauge_of m.state m.throttle_samples m.escalate_samples m.high m.critical

gauge_start : {D : Type 0} (m : Machine D) → m.state ≡ normal → m.high ≡ 0 → gauge m ≡ 0
gauge_start m s h = ground arith

gauge_end :
    {D : Type 0} (m : Machine D)
    → (m.state ≡ throttled → m.throttle_samples ≤ gauge m)
      × (m.state ≡ suspended → m.throttle_samples + m.escalate_samples ≤ gauge m)
gauge_end m = (λ e. ground arith, λ e. ground arith)

count_keeps_config :
    {D : Type 0} ⦃r : Real D⦄ (cpu : D) (m : Machine D) → (count_sample cpu m).config ≡ m.config
unfolding count_sample
count_keeps_config cpu m = refl

module _ {D W : Type 0} (os : Os W) where
  step_keeps_config :
      (n : Option ProcessState) (cpu : D) (m : Machine D) (w : W)
      → (take_step os n cpu m w).machine.config ≡ m.config
  unfolding take_step transition_to
  step_keeps_config none cpu m w = refl
  step_keeps_config (some s) cpu m w = refl

  step_gauge :
      (n : Option ProcessState) (cpu : D) (m : Machine D) (w : W)
      → next_state m ≡ n
      → gauge (take_step os n cpu m w).machine ≤ gauge m
  unfolding take_step next_state transition_to
  step_gauge none cpu m w e = omega arith
  step_gauge (some normal) cpu m w e = ground arith
  step_gauge (some throttled) cpu m w e = ground arith
  step_gauge (some suspended) cpu m w e = ground arith

  count_gauge : ⦃r : Real D⦄ (cpu : D) (m : Machine D) → gauge (count_sample cpu m) ≤ gauge m + 1
  unfolding count_sample
  count_gauge cpu m = ground arith

  module _ ⦃r : Real D⦄ where
    update-gauge :
        (cpu : D) (m : Machine D) (w : W)
        → let n = (update os cpu m w).0.machine in (gauge n ≤ gauge m + 1) × (n.config ≡ m.config)
    update-gauge cpu m w = elim (Bool-cases m.manual_hold) [
      | inl held ↦
          subst (λ u. (gauge u.0.machine ≤ gauge m + 1) × (u.0.machine.config ≡ m.config))
            (sym (update_held os cpu m w held)) (count_gauge cpu m, count_keeps_config cpu m)
      | inr free ↦
          let c = count_sample cpu m in
          subst (λ u. (gauge u.0.machine ≤ gauge m + 1) × (u.0.machine.config ≡ m.config))
            (sym (update_free os cpu m w free))
            (
              omega (arith, count_gauge cpu m, step_gauge (next_state c) cpu c w refl),
              step_keeps_config (next_state c) cpu c w ∙ count_keeps_config cpu m,
            )
    ]

    run-gauge :
        (xs : List D) (m : Machine D) (w : W)
        → let n = (run os xs m w).machine in (gauge n ≤ gauge m + length xs) × (n.config ≡ m.config)
    unfolding run
    run-gauge [] m w = (omega arith, refl)
    run-gauge (x ∷ xs) m w =
        let o = (update os x m w).0 in
        let (small, same) = run-gauge xs o.machine o.world in
        let (step, kept) = update-gauge x m w in (omega (arith, small, step), same ∙ kept)

    -- Whatever the samples are, and held or not, a machine that is normal with its counters at zero
    -- is lowered only after `throttle_samples` samples, and its process is suspended only after
    -- `throttle_samples + escalate_samples`.
    pub suspend_takes :
        (xs : List D) (m : Machine D) (w : W)
        → m.state ≡ normal
        → m.high ≡ 0
        → let n = (run os xs m w).machine in
          (n.state ≡ throttled → m.throttle_samples ≤ length xs)
          × (n.state ≡ suspended → m.throttle_samples + m.escalate_samples ≤ length xs)
    suspend_takes xs m w start zero_high =
        let n = (run os xs m w).machine in
        let (small, same) = run-gauge xs m w in
        let begin = gauge_start m start zero_high in
        let end = gauge_end n in
        (
          λ e. omega (arith, small, begin, end.0 e, ap (λ c. c.throttle_samples) same),
          λ e. omega (
            arith,
            small,
            begin,
            end.1 e,
            ap (λ c. c.throttle_samples) same,
            ap (λ c. c.escalate_samples) same,
          ),
        )
