-- ===== src/Telemetry/AutoPolicy/Levels.antt =====
-- The levels of system-wide protection (src/telemetry/AutoProtectPolicy.h).
use thread_haul_daemon.Base.{
  ℕ, ◌+◌, ◌≤◌, ◌<◌, ◌≡◌, ◌≢◌, ◌⊎◌, true, false, List, [], ◌∷◌, arith, length, leb, if◌then◌else◌,
  Real,
}
use thread_haul_daemon.Telemetry.AutoPolicy.{
  AutoSettings, AutoState, normal, throttle, idle, reset_state, update_state,
}

-- `Update` on each sample of the system's CPU.
unfoldable pub run_levels :
    {D : Type 0} ⦃r : Real D⦄ → AutoSettings D → List D → AutoState → AutoState
run_levels s [] t = t
run_levels s (x ∷ xs) t = run_levels s xs (update_state x s t)

-- Counted in samples, how far a state has come on the way to the level `throttle`.
abbrev gauge : ℕ → AutoState → ℕ
gauge n t = elim t.level [ normal ↦ if leb n t.high then n else t.high | _ ↦ n ]

module _ {D : Type 0} ⦃r : Real D⦄ (s : AutoSettings D) where
  update-gauge :
      (x : D) (t : AutoState)
      → gauge s.throttle_samples (update_state x s t) ≤ gauge s.throttle_samples t + 1
  unfolding update_state
  update-gauge x t = ground arith

  run-gauge :
      (xs : List D) (t : AutoState)
      → gauge s.throttle_samples (run_levels s xs t) ≤ gauge s.throttle_samples t + length xs
  unfolding run_levels
  run-gauge [] t = omega arith
  run-gauge (x ∷ xs) t = omega (arith, run-gauge xs (update_state x s t), update-gauge x t)

  idle_free :
      (xs : List D) (t : AutoState)
      → s.use_idle ≡ false
      → t.level ≢ idle
      → (run_levels s xs t).level ≢ idle
  unfolding run_levels update_state
  idle_free [] t off h = h
  idle_free (x ∷ xs) t off h = idle_free xs (update_state x s t) off (ground arith)

  -- From a reset, protection starts only after `throttle_samples` samples, whatever they are, and
  -- never goes to idle priority where the settings forbid it.
  pub run_levels-reset :
      (xs : List D)
      → let t = run_levels s xs reset_state in
        (t.level ≢ normal → s.throttle_samples ≤ length xs) × (s.use_idle ≡ false → t.level ≢ idle)
  unfolding reset_state
  run_levels-reset xs =
      (λ h. ground (arith, run-gauge xs reset_state), λ off. idle_free xs reset_state off (λ e. cc))

  -- A sample leaves the level alone, and then every streak that could move it is still short; or it
  -- moves it from normal to throttle, from throttle to idle where the settings allow that, or back to
  -- normal, and then the streak that the move asks for is complete.
  pub update_state-cases :
      (x : D) (t : AutoState)
      → let u = update_state x s t in
        ((u.level ≡ t.level)
          × (t.level ≡ normal → u.high < s.throttle_samples)
          × (t.level ≢ normal → u.low < s.recover_samples)
          × (t.level ≡ throttle → s.use_idle ≡ true → u.extreme < s.idle_samples))
        ⊎ ((t.level ≡ normal) × (u.level ≡ throttle) × (s.throttle_samples ≤ u.high))
        ⊎ ((t.level ≡ throttle)
            × (u.level ≡ idle)
            × (s.use_idle ≡ true)
            × (s.idle_samples ≤ u.extreme))
        ⊎ ((t.level ≢ normal) × (u.level ≡ normal) × (s.recover_samples ≤ u.low))
  unfolding update_state
  update_state-cases x t = ground arith
