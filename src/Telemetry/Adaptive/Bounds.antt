-- ===== src/Telemetry/Adaptive/Bounds.antt =====
-- How far the thresholds are lowered (src/telemetry/AdaptiveThresholds.cpp).
use thread_haul_daemon.Base.{
  ◌≡◌, true, false, List, Real, less, IsTotal, Bool-cases, inl, inr, arith,
}
use thread_haul_daemon.Actuator.Machine.{MachineConfig}
use thread_haul_daemon.Config.Sections.{AdaptiveConfig}
use thread_haul_daemon.Telemetry.Adaptive.{
  Arithmetic, larger, smaller, clamp, room, most_offset, offset,
}

module _ {D : Type 0} ⦃r : Real D⦄ (total : IsTotal r) where
  pub le_refl : (a : D) → r.le a a ≡ true
  le_refl a = elim (Bool-cases (r.le a a)) [ inl e ↦ e | inr e ↦ total.total a a e ]

  le_of_not_lt : (a b : D) → less b a ≡ false → r.le a b ≡ true
  le_of_not_lt a b h = elim (Bool-cases (r.le a b)) [
    | inl e ↦ e
    | inr e ↦ absurd (ground (arith, total.not_le-lt b a e))
  ]

  pub clamp_bounds :
      (v lo hi : D)
      → r.le lo hi ≡ true
      → (r.le lo (clamp v lo hi) ≡ true) × (r.le (clamp v lo hi) hi ≡ true)
  clamp_bounds v lo hi h =
      ground (arith, le_refl lo, le_refl hi, le_of_not_lt lo v, le_of_not_lt v hi)

  larger_bounds : (a b : D) → (r.le a (larger a b) ≡ true) × (r.le b (larger a b) ≡ true)
  larger_bounds a b = ground (arith, le_refl a, le_refl b, le_of_not_lt b a, r.lt_le a b)

  larger-smaller-le :
      (z a b c : D)
      → r.le z c ≡ true
      → r.le (smaller a b) c ≡ true
      → r.le (larger z (smaller a b)) c ≡ true
  larger-smaller-le z a b c h k = ground arith

  smaller_bounds : (a b : D) → (r.le (smaller a b) a ≡ true) × (r.le (smaller a b) b ≡ true)
  smaller_bounds a b = ground (arith, le_refl a, le_refl b, le_of_not_lt a b, r.lt_le b a)

  module _ (ar : Arithmetic D) (settings : AdaptiveConfig D) (window : List D)
      (base : MachineConfig D) (bias : D) where
    most_offset-le :
        (c : D)
        → r.le (ar.nat 0) c ≡ true
        → r.le (smaller settings.max_adjust_percent (room ar base)) c ≡ true
        → r.le (most_offset ar settings base) c ≡ true
    most_offset-le c h k =
        larger-smaller-le (ar.nat 0) settings.max_adjust_percent (room ar base) c h k

    -- If no two values are incomparable (no NaN), the thresholds are lowered by 0 or more, whatever
    -- the samples and the controller's bias are; by no more than the configured limit, where that is
    -- not negative; and by no more than the room above the recovery threshold, where there is some.
    pub offset_bounds :
        let off = offset ar settings window base bias in
        (r.le (ar.nat 0) off ≡ true)
        × (r.le (ar.nat 0) settings.max_adjust_percent ≡ true
            → r.le off settings.max_adjust_percent ≡ true)
        × (r.le (ar.nat 0) (room ar base) ≡ true → r.le off (room ar base) ≡ true)
    unfolding offset
    offset_bounds =
        let low = larger_bounds (ar.nat 0) (smaller settings.max_adjust_percent (room ar base)) in
        let off = clamp_bounds _ (ar.nat 0) (most_offset ar settings base) low.0 in
        let parts = smaller_bounds settings.max_adjust_percent (room ar base) in
        (
          off.0,
          λ h. r.le_trans _ _ _ off.1 (most_offset-le settings.max_adjust_percent h parts.0),
          λ h. r.le_trans _ _ _ off.1 (most_offset-le (room ar base) h parts.1),
        )
