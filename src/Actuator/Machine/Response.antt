-- ===== src/Actuator/Machine/Response.antt =====
-- The graded response happens, and on the sample that the configuration says
-- (src/actuator/StateMachine.cpp).
use thread_haul_daemon.Base.{
  ℕ, ◌+◌, ◌<◌, ◌≤◌, ◌≡◌, ◌≢◌, sym, subst, ◌⊎◌, inl, inr, Bool, true, false, List, [], ◌∷◌, none,
  some, arith, All, length, Real, ge, less, leb, if◌then◌else◌,
}
use thread_haul_daemon.Actuator.Os.{Os}
use thread_haul_daemon.Actuator.Machine.{
  ProcessState, normal, throttled, suspended, MachineConfig, Machine, count_sample, next_state,
  transition_to, take_step, update, run,
}
use thread_haul_daemon.Actuator.Machine.Steps.{update_free}
use thread_haul_daemon.Actuator.Machine.Settled.{HasPositiveSamples}

-- The order of the thresholds that the configuration file must have.
pub record IsOrdered {D : Type 0} ⦃r : Real D⦄ (c : MachineConfig D) : Type 0 where
  pub recover_throttle : r.le c.recover_percent c.throttle_percent ≡ true
  pub throttle_escalate : r.le c.throttle_percent c.escalate_percent ≡ true

-- An unheld machine under the configuration `c`, with a run of samples behind it.
abbrev pub IsHigh : {D : Type 0} → MachineConfig D → ℕ → Machine D → Type 0
IsHigh c k m = (m.manual_hold ≡ false) × (m.config ≡ c) × (m.state ≡ normal) × (m.high ≡ k)

abbrev pub IsCritical : {D : Type 0} → MachineConfig D → ℕ → Machine D → Type 0
IsCritical c k m =
    (m.manual_hold ≡ false) × (m.config ≡ c) × (m.state ≡ throttled) × (m.critical ≡ k)

abbrev pub IsLow : {D : Type 0} → MachineConfig D → ℕ → Machine D → Type 0
IsLow c k m = (m.manual_hold ≡ false) × (m.config ≡ c) × (m.state ≢ normal) × (m.low ≡ k)

module _ {D : Type 0} ⦃r : Real D⦄ (c : MachineConfig D) (ordered : IsOrdered c) (cpu : D) where
  critical_not_low :
      ge cpu c.escalate_percent ≡ true
      → (ge cpu c.throttle_percent ≡ true) × (less cpu c.recover_percent ≡ false)
  critical_not_low h = ground (
    arith,
    r.le_trans c.throttle_percent c.escalate_percent cpu,
    r.le_trans c.recover_percent c.throttle_percent cpu,
    r.lt-not_le cpu c.recover_percent,
  )

  low_not_critical : less cpu c.recover_percent ≡ true → ge cpu c.escalate_percent ≡ false
  low_not_critical h = ground (
    arith,
    r.le_trans c.recover_percent c.throttle_percent c.escalate_percent,
    r.lt-le_trans cpu c.recover_percent c.escalate_percent,
    r.lt-not_le cpu c.escalate_percent,
  )

module _ {D : Type 0} ⦃r : Real D⦄ (cpu : D) (m : Machine D) where
  high_next :
      m.state ≡ normal
      → ge cpu m.throttle_percent ≡ true
      → next_state (count_sample cpu m)
        ≡ (if leb m.throttle_samples (m.high + 1) then some throttled else none)
  unfolding next_state count_sample
  high_next s h = ground arith

  critical_next :
      IsOrdered m.config
      → 0 < m.recover_samples
      → m.state ≡ throttled
      → ge cpu m.escalate_percent ≡ true
      → next_state (count_sample cpu m)
        ≡ (if leb m.escalate_samples (m.critical + 1) then some suspended else none)
  unfolding next_state count_sample
  critical_next o p s h = ground (arith, critical_not_low m.config o cpu h)

  low_next :
      IsOrdered m.config
      → 0 < m.escalate_samples
      → m.state ≢ normal
      → less cpu m.recover_percent ≡ true
      → next_state (count_sample cpu m)
        ≡ (if leb m.recover_samples (m.low + 1) then some normal else none)
  unfolding next_state count_sample
  low_next o p s h = ground (arith, low_not_critical m.config o cpu h)

module _ {D W : Type 0} (os : Os W) ⦃r : Real D⦄ (cpu : D) (m : Machine D) (w : W) where
  step_of :
      (P : Machine D → Type 0) (b : Bool) (s : ProcessState)
      → m.manual_hold ≡ false
      → next_state (count_sample cpu m) ≡ (if b then some s else none)
      → P (take_step os (if b then some s else none) cpu (count_sample cpu m) w).machine
      → P (update os cpu m w).0.machine
  step_of P b s free e h =
      let c = count_sample cpu m in
      subst (λ u. P u.0.machine) (sym (update_free os cpu m w free))
        (subst (λ k. P (take_step os k cpu c w).machine) (sym e) h)

  IsHigh-step :
      (c : MachineConfig D) (k : ℕ)
      → IsHigh c k m
      → ge cpu c.throttle_percent ≡ true
      → let n = (update os cpu m w).0.machine in
        ((k + 1 < c.throttle_samples) × IsHigh c (k + 1) n)
        ⊎ ((c.throttle_samples ≤ k + 1) × IsCritical c 0 n)
  unfolding take_step transition_to count_sample
  IsHigh-step c k (free, same, s, e) h =
      step_of
        (λ n.
          ((k + 1 < c.throttle_samples) × IsHigh c (k + 1) n)
          ⊎ ((c.throttle_samples ≤ k + 1) × IsCritical c 0 n))
        (leb m.throttle_samples (m.high + 1)) throttled free (high_next cpu m s (ground arith))
        (ground arith)

  IsCritical-step :
      (c : MachineConfig D) (k : ℕ)
      → IsOrdered c
      → 0 < c.recover_samples
      → IsCritical c k m
      → ge cpu c.escalate_percent ≡ true
      → let n = (update os cpu m w).0.machine in
        ((k + 1 < c.escalate_samples) × IsCritical c (k + 1) n)
        ⊎ ((c.escalate_samples ≤ k + 1) × (n.state ≡ suspended) × IsLow c 0 n)
  unfolding take_step transition_to count_sample
  IsCritical-step c k o p (free, same, s, e) h =
      step_of
        (λ n.
          ((k + 1 < c.escalate_samples) × IsCritical c (k + 1) n)
          ⊎ ((c.escalate_samples ≤ k + 1) × (n.state ≡ suspended) × IsLow c 0 n))
        (leb m.escalate_samples (m.critical + 1)) suspended free
        (critical_next cpu m (subst (λ x. IsOrdered x) (sym same) o) (ground arith) s
          (ground arith))
        (ground arith)

  IsLow-step :
      (c : MachineConfig D) (k : ℕ)
      → IsOrdered c
      → 0 < c.escalate_samples
      → IsLow c k m
      → less cpu c.recover_percent ≡ true
      → let n = (update os cpu m w).0.machine in
        ((k + 1 < c.recover_samples) × IsLow c (k + 1) n)
        ⊎ ((c.recover_samples ≤ k + 1) × (n.state ≡ normal))
  unfolding take_step transition_to count_sample
  IsLow-step c k o p (free, same, s, e) h =
      step_of
        (λ n.
          ((k + 1 < c.recover_samples) × IsLow c (k + 1) n)
          ⊎ ((c.recover_samples ≤ k + 1) × (n.state ≡ normal)))
        (leb m.recover_samples (m.low + 1)) normal free
        (low_next cpu m (subst (λ x. IsOrdered x) (sym same) o) (ground arith) s (ground arith))
        (ground arith)

module _ {D W : Type 0} (os : Os W) ⦃r : Real D⦄ (c : MachineConfig D) (ordered : IsOrdered c) where
  critical_run :
      (xs : List D) (k : ℕ) (m : Machine D) (w : W)
      → 0 < c.recover_samples
      → IsCritical c k m
      → All (λ x. ge x c.escalate_percent ≡ true) xs
      → k < c.escalate_samples
      → k + length xs ≡ c.escalate_samples
      → (run os xs m w).machine.state ≡ suspended
  unfolding run
  critical_run [] k m w p at high below n = absurd (omega arith)
  critical_run (x ∷ []) k m w p at high below n =
      elim (IsCritical-step os x m w c k ordered p at high.0) [
        | inl (short, _) ↦ absurd (omega arith)
        | inr (_, done, _) ↦ done
      ]
  critical_run (x ∷ y ∷ xs) k m w p at high below n =
      let o = (update os x m w).0 in
      elim (IsCritical-step os x m w c k ordered p at high.0) [
        | inl (short, next) ↦
            critical_run (y ∷ xs) (k + 1) o.machine o.world p next high.1 short (omega arith)
        | inr (more, _, _) ↦ absurd (omega arith)
      ]

  -- From a normal machine with `k` high samples behind it.
  high_run :
      (xs : List D) (k : ℕ) (m : Machine D) (w : W)
      → HasPositiveSamples c
      → IsHigh c k m
      → All (λ x. ge x c.escalate_percent ≡ true) xs
      → k < c.throttle_samples
      → k + length xs ≡ c.throttle_samples + c.escalate_samples
      → (run os xs m w).machine.state ≡ suspended
  unfolding run
  high_run [] k m w p at high below n = absurd (omega (arith, p.escalate))
  high_run (x ∷ xs) k m w p at high below n =
      let o = (update os x m w).0 in
      elim (IsHigh-step os x m w c k at (critical_not_low c ordered x high.0).0) [
        | inl (short, next) ↦
            high_run xs (k + 1) o.machine o.world p next high.1 short (omega arith)
        | inr (reached, next) ↦
            critical_run xs 0 o.machine o.world p.recover next high.1 p.escalate (omega arith)
      ]

  low_run :
      (xs : List D) (k : ℕ) (m : Machine D) (w : W)
      → 0 < c.escalate_samples
      → IsLow c k m
      → All (λ x. less x c.recover_percent ≡ true) xs
      → k < c.recover_samples
      → k + length xs ≡ c.recover_samples
      → (run os xs m w).machine.state ≡ normal
  unfolding run
  low_run [] k m w p at low below n = absurd (omega arith)
  low_run (x ∷ []) k m w p at low below n = elim (IsLow-step os x m w c k ordered p at low.0) [
    | inl (short, _) ↦ absurd (omega arith)
    | inr (_, done) ↦ done
  ]
  low_run (x ∷ y ∷ xs) k m w p at low below n =
      let o = (update os x m w).0 in
      elim (IsLow-step os x m w c k ordered p at low.0) [
        | inl (short, next) ↦
            low_run (y ∷ xs) (k + 1) o.machine o.world p next low.1 short (omega arith)
        | inr (more, _) ↦ absurd (omega arith)
      ]

  -- Let the thresholds be ordered and the sample counts positive. An unheld normal machine with no
  -- high sample behind it has its process suspended by `throttle_samples + escalate_samples`
  -- samples at or above the escalation threshold.
  pub critical_load-suspends :
      (xs : List D) (m : Machine D) (w : W)
      → HasPositiveSamples c
      → IsHigh c 0 m
      → All (λ x. ge x c.escalate_percent ≡ true) xs
      → length xs ≡ c.throttle_samples + c.escalate_samples
      → (run os xs m w).machine.state ≡ suspended
  critical_load-suspends xs m w p at high n = high_run xs 0 m w p at high p.throttle (omega arith)

  -- Let the thresholds be ordered and the sample counts positive. An unheld machine that is
  -- throttled or suspended, with no low sample behind it, is normal again after `recover_samples`
  -- samples below the recovery threshold.
  pub low_load-recovers :
      (xs : List D) (m : Machine D) (w : W)
      → HasPositiveSamples c
      → IsLow c 0 m
      → All (λ x. less x c.recover_percent ≡ true) xs
      → length xs ≡ c.recover_samples
      → (run os xs m w).machine.state ≡ normal
  low_load-recovers xs m w p at low n = low_run xs 0 m w p.escalate at low p.recover (omega arith)
