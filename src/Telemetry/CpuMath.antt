-- ===== src/Telemetry/CpuMath.antt =====
-- src/telemetry/CpuMath.cpp, over the interfaces for the arithmetic of `double`.
use thread_haul_daemon.Base.{ℕ, ◌≡◌, ◌==◌, true, if◌then◌else◌, Real, IsTotal, either_way}
use thread_haul_daemon.Telemetry.Adaptive.{Arithmetic, clamp}
use thread_haul_daemon.Telemetry.Adaptive.Bounds.{le_refl, clamp_bounds}

pub data CpuNormalization : Type 0 where
  per_core total_system : CpuNormalization

module _ {D : Type 0} ⦃r : Real D⦄ (ar : Arithmetic D) where
  abbrev pub cores_of : ℕ → ℕ
  cores_of logical_cores = if logical_cores == 0 then 1 else logical_cores

  -- The greatest percentage.
  abbrev pub ceiling : ℕ → CpuNormalization → D
  ceiling logical_cores total_system = ar.nat 100
  ceiling logical_cores per_core = ar.times (ar.nat 100) (ar.nat (cores_of logical_cores))

  abbrev pub scaled : ℕ → CpuNormalization → D → D
  scaled logical_cores total_system x = ar.over x (ar.nat (cores_of logical_cores))
  scaled logical_cores per_core x = x

  unfoldable pub cpu_percent_from_ticks : ℕ → ℕ → ℕ → CpuNormalization → D
  cpu_percent_from_ticks process_delta wall_delta logical_cores normalization =
      let share = ar.over (ar.times (ar.nat 100) (ar.nat process_delta)) (ar.nat wall_delta) in
      if wall_delta == 0
      then ar.nat 0
      else clamp (scaled logical_cores normalization share) (ar.nat 0)
          (ceiling logical_cores normalization)

  -- Where any two values compare and the ceiling is not negative, the percentage lies between 0 and
  -- the ceiling: 100, or 100 for each core.
  pub cpu_percent_bounds :
      (total : IsTotal r) (process_delta wall_delta logical_cores : ℕ)
      (normalization : CpuNormalization)
      → r.le (ar.nat 0) (ceiling logical_cores normalization) ≡ true
      → let p = cpu_percent_from_ticks process_delta wall_delta logical_cores normalization in
        (r.le (ar.nat 0) p ≡ true) × (r.le p (ceiling logical_cores normalization) ≡ true)
  unfolding cpu_percent_from_ticks
  cpu_percent_bounds total process_delta wall_delta logical_cores normalization h =
      let hi = ceiling logical_cores normalization in
      either_way (λ p. (r.le (ar.nat 0) p ≡ true) × (r.le p hi ≡ true)) (wall_delta == 0)
        (le_refl total (ar.nat 0), h) (clamp_bounds total _ (ar.nat 0) hi h)
