-- ===== src/Telemetry/Adaptive.antt =====
-- src/telemetry/AdaptiveThresholds.cpp: a line is fitted to the window of samples, and the thresholds
-- are lowered before the load that it forecasts, over an interface for the arithmetic of `double`.
pub mod Bounds
use thread_haul_daemon.Base.{
  ℕ, zero, suc, ◌+◌, ◌-◌, Bool, true, false, ◌&&◌, List, [], ◌∷◌, ltb, length, if◌then◌else◌, Real,
  ge, less, same,
}
use thread_haul_daemon.Actuator.Machine.{MachineConfig}
use thread_haul_daemon.Config.Sections.{AdaptiveConfig}

pub record Arithmetic (D : Type 0) : Type 0 where
  pub nat : ℕ → D
  pub plus : D → D → D
  pub minus : D → D → D
  pub times : D → D → D
  pub over : D → D → D

-- `window_.back()`, 0.0 for an empty window
unfoldable pub newest : {D : Type 0} → D → List D → D
newest nought [] = nought
newest nought (x ∷ []) = x
newest nought (x ∷ y ∷ xs) = newest nought (y ∷ xs)

module _ {D : Type 0} ⦃r : Real D⦄ where
  -- `std::max`, `std::min` and `std::clamp`
  abbrev pub larger : D → D → D
  larger a b = if less a b then b else a

  abbrev pub smaller : D → D → D
  smaller a b = if less b a then b else a

  abbrev pub clamp : D → D → D → D
  clamp v lo hi = if less v lo then lo else if less hi v then hi else v

pub record Sums (D : Type 0) : Type 0 where
  pub sx : D
  pub sy : D
  pub sxx : D
  pub sxy : D

pub record Line (D : Type 0) : Type 0 where
  pub slope : D
  pub intercept : D

module _ {D : Type 0} (ar : Arithmetic D) where
  -- The sums over the samples from the index `i` on.
  unfoldable pub sums : ℕ → List D → Sums D → Sums D
  sums i [] s = s
  sums i (y ∷ ys) s =
      let x = ar.nat i in
      sums (i + 1) ys (record {
        sx = ar.plus s.sx x;
        sy = ar.plus s.sy y;
        sxx = ar.plus s.sxx (ar.times x x);
        sxy = ar.plus s.sxy (ar.times x y);
      })

  abbrev no_sums : Sums D
  no_sums = record { sx = ar.nat 0; sy = ar.nat 0; sxx = ar.nat 0; sxy = ar.nat 0 }

  module _ ⦃r : Real D⦄ where
    unfoldable pub fit : List D → Line D
    unfolding newest sums
    fit window =
        let n = ar.nat (length window) in
        let s = sums 0 window no_sums in
        let denom = ar.minus (ar.times n s.sxx) (ar.times s.sx s.sx) in
        let slope = ar.over (ar.minus (ar.times n s.sxy) (ar.times s.sx s.sy)) denom in
        let flat : Line D = record { slope = ar.nat 0; intercept = newest (ar.nat 0) window } in
        let fitted : Line D = record {
          slope = slope;
          intercept = ar.over (ar.minus s.sy (ar.times slope s.sx)) n;
        } in
        if ltb (length window) 3 then flat else if same denom (ar.nat 0) then flat else fitted

    unfoldable pub forecast : AdaptiveConfig D → List D → D
    unfolding fit
    forecast settings window =
        let line = fit window in
        let last_x = ar.nat (length window - 1) in
        if ltb (length window) 3
        then line.intercept
        else ar.plus line.intercept
            (ar.times line.slope (ar.plus last_x (ar.nat settings.horizon_samples)))

    -- The room above the recovery threshold.
    abbrev pub room : MachineConfig D → D
    room base = ar.minus (ar.minus base.throttle_percent base.recover_percent) (ar.nat 1)

    abbrev pub most_offset : AdaptiveConfig D → MachineConfig D → D
    most_offset settings base = larger (ar.nat 0) (smaller settings.max_adjust_percent (room base))

    unfoldable pub offset : AdaptiveConfig D → List D → MachineConfig D → D → D
    unfolding fit forecast
    offset settings window base bias =
        let slope = (fit window).slope in
        let biased = larger bias (ar.nat 0) in
        let rises =
          settings.adaptive_enabled
          && less (ar.nat 0) slope
          && ge (forecast settings window) base.throttle_percent in
        let wanted =
          if rises
          then ar.plus biased (ar.times slope (ar.nat settings.horizon_samples))
          else biased in
        clamp wanted (ar.nat 0) (most_offset settings base)

    unfoldable pub adjust : AdaptiveConfig D → List D → MachineConfig D → D → MachineConfig D
    unfolding offset
    adjust settings window base bias =
        let off = offset settings window base bias in
        record base {
          throttle_percent = ar.minus base.throttle_percent off;
          escalate_percent = ar.minus base.escalate_percent off;
        }
