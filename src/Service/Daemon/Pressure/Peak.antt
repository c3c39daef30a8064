-- ===== src/Service/Daemon/Pressure/Peak.antt =====
-- The combined pressure is the highest one (`Poll` in src/service/Daemon.cpp).
use thread_haul_daemon.Base.{
  ◌≡◌, refl, true, List, [], ◌∷◌, if◌then◌else◌, ◌⊎◌, inl, inr, Real, All, Any, IsTotal, arith, ◌∙◌,
  ◌||◌, any_of,
}
use thread_haul_daemon.Config.Sections.{Triggers}
use thread_haul_daemon.Telemetry.Monitor.{ProcessSample}
use thread_haul_daemon.Telemetry.Adaptive.{Arithmetic}
use thread_haul_daemon.Telemetry.Adaptive.Bounds.{le_refl}
use thread_haul_daemon.Service.Daemon.Pressure.{
  Combined, cpu, reading, better, combine_from, no_pressure, combine,
}

-- The result is the reading of this sample.
abbrev pub Wins :
    {D : Type 0} ⦃r : Real D⦄
    → Arithmetic D
    → Triggers D
    → D
    → Combined D
    → ProcessSample D
    → Type 0
Wins ar t load c s =
    (s.valid ≡ true)
    × (c.pressure ≡ (reading ar t load s).pressure)
    × (c.signal ≡ (reading ar t load s).signal)
    × (c.pid ≡ s.pid)

module _ {D : Type 0} ⦃r : Real D⦄ (ar : Arithmetic D) (t : Triggers D) (load : D) where
  better_above :
      (total : IsTotal r) (best : Combined D) (s : ProcessSample D)
      → let c = better ar t load best s in
        (r.le best.pressure c.pressure ≡ true)
        × (s.valid ≡ true → r.le (reading ar t load s).pressure c.pressure ≡ true)
  unfolding better
  better_above total best s =
      let q = (reading ar t load s).pressure in
      ground (arith, le_refl total best.pressure, le_refl total q, total.total best.pressure q)

  combine_from_above :
      (total : IsTotal r) (best : Combined D) (ss : List (ProcessSample D))
      → let c = combine_from ar t load best ss in
        (r.le best.pressure c.pressure ≡ true)
        × All (λ s. s.valid ≡ true → r.le (reading ar t load s).pressure c.pressure ≡ true) ss
  unfolding combine_from
  combine_from_above total best [] = (le_refl total best.pressure, tt)
  combine_from_above total best (s ∷ ss) =
      let c = combine_from ar t load (better ar t load best s) ss in
      let b = better ar t load best s in
      let here = better_above total best s in
      let rest = combine_from_above total b ss in
      (
        r.le_trans best.pressure b.pressure c.pressure here.0 rest.0,
        (
          λ v. r.le_trans (reading ar t load s).pressure b.pressure c.pressure (here.1 v) rest.0,
          rest.1,
        ),
      )

  better_from :
      (best : Combined D) (s : ProcessSample D)
      → let c = better ar t load best s in
        ((c.pressure ≡ best.pressure) × (c.signal ≡ best.signal) × (c.pid ≡ best.pid))
        ⊎ Wins ar t load c s
  unfolding better
  better_from best s = ground arith

  combine_from_origin :
      (best : Combined D) (ss : List (ProcessSample D))
      → let c = combine_from ar t load best ss in
        ((c.pressure ≡ best.pressure) × (c.signal ≡ best.signal) × (c.pid ≡ best.pid))
        ⊎ Any (Wins ar t load c) ss
  unfolding combine_from
  combine_from_origin best [] = inl (refl, refl, refl)
  combine_from_origin best (s ∷ ss) =
      let b = better ar t load best s in
      elim (combine_from_origin b ss) [
        | inr later ↦ inr (inr later)
        | inl (p, g, i) ↦ elim (better_from best s) [
          | inl (p', g', i') ↦ inl (p ∙ p', g ∙ g', i ∙ i')
          | inr (v, p', g', i') ↦ inr (inl (v, p ∙ p', g ∙ g', i ∙ i'))
        ]
      ]

  combine_from-any_valid :
      (best : Combined D) (ss : List (ProcessSample D))
      → (combine_from ar t load best ss).any_valid
        ≡ (best.any_valid || any_of (λ (s : ProcessSample D). s.valid) ss)
  unfolding combine_from better
  combine_from-any_valid best [] = ground arith
  combine_from-any_valid best (s ∷ ss) =
      combine_from-any_valid (better ar t load best s) ss ∙ ground arith

module _ {D : Type 0} ⦃r : Real D⦄ (ar : Arithmetic D) (t : Triggers D) where
  -- Where any two values compare, the combined pressure is at least 0 and at least the pressure of
  -- each valid sample. Pressure, signal and process id are those of one valid sample, or they are 0,
  -- the CPU and 0; and the result says whether some sample is valid.
  pub combine_peak :
      (total : IsTotal r) (mem_load : D) (ss : List (ProcessSample D))
      → let c = combine ar t mem_load ss in
        let load = if t.memory_enabled then mem_load else ar.nat 0 in
        (r.le (ar.nat 0) c.pressure ≡ true)
        × All (λ s. s.valid ≡ true → r.le (reading ar t load s).pressure c.pressure ≡ true) ss
        × (((c.pressure ≡ ar.nat 0) × (c.signal ≡ cpu) × (c.pid ≡ 0)) ⊎ Any (Wins ar t load c) ss)
        × (c.any_valid ≡ any_of (λ (s : ProcessSample D). s.valid) ss)
  unfolding combine
  combine_peak total mem_load ss =
      let load = if t.memory_enabled then mem_load else ar.nat 0 in
      let above = combine_from_above ar t load total (no_pressure ar) ss in
      (
        above.0,
        above.1,
        combine_from_origin ar t load (no_pressure ar) ss,
        combine_from-any_valid ar t load (no_pressure ar) ss,
      )
