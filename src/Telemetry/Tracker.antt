-- ===== src/Telemetry/Tracker.antt =====
-- src/telemetry/ThresholdTracker.h: the streaks that are reported in the log.
pub mod Lockstep
use thread_haul_daemon.Base.{ℕ, ◌+◌, Bool, List, [], ◌∷◌, ◌++◌, ◌==◌, if◌then◌else◌, Real, ge, less}
use thread_haul_daemon.Actuator.Machine.{MachineConfig}

-- src/actuator/ThresholdEvent.h
pub data ThresholdType : Type 0 where
  high critical low : ThresholdType

pub record Fired : Type 0 where
  pub kind : ThresholdType
  pub consecutive_samples : ℕ

pub record Tracker : Type 0 where
  pub high_count : ℕ
  pub critical_count : ℕ
  pub low_count : ℕ

unfoldable pub reset : Tracker
reset = record { high_count = 0; critical_count = 0; low_count = 0 }

abbrev fire_if : Bool → ThresholdType → ℕ → List Fired
fire_if reached kind n =
    if reached then record { kind = kind; consecutive_samples = n } ∷ [] else []

unfoldable pub add :
    {D : Type 0} ⦃r : Real D⦄ → D → MachineConfig D → Tracker → Tracker × List Fired
add percent cfg t =
    let h = if ge percent cfg.throttle_percent then t.high_count + 1 else 0 in
    let c = if ge percent cfg.escalate_percent then t.critical_count + 1 else 0 in
    let l = if less percent cfg.recover_percent then t.low_count + 1 else 0 in
    (
      record { high_count = h; critical_count = c; low_count = l },
      fire_if (h == cfg.throttle_samples) high h
          ++ fire_if (c == cfg.escalate_samples) critical c
          ++ fire_if (l == cfg.recover_samples) low l,
    )
