-- ===== src/Service/Daemon/Pressure.antt =====
-- The pressure on the machine: `Poll` in src/service/Daemon.cpp combines the signals of all critical
-- instances into one value.
pub mod Peak
use thread_haul_daemon.Base.{
  ℕ, Bool, true, false, List, [], ◌∷◌, if◌then◌else◌, ◌&&◌, ◌||◌, Real, ge, less,
}
use thread_haul_daemon.Config.Sections.{Triggers}
use thread_haul_daemon.Telemetry.Adaptive.{Arithmetic}
use thread_haul_daemon.Telemetry.Monitor.{ProcessSample}

pub data Signal : Type 0 where
  cpu system_memory working_set io : Signal

pub record Reading (D : Type 0) : Type 0 where
  pub pressure : D
  pub signal : Signal

-- `any_valid` says whether a sample had a reading.
pub record Combined (D : Type 0) : Type 0 where
  pub pressure : D
  pub signal : Signal
  pub pid : ℕ
  pub any_valid : Bool

module _ {D : Type 0} ⦃r : Real D⦄ where
  -- `if (x > p) { p = x; sig = ...; }`
  abbrev pub raise : Bool → D → Signal → Reading D → Reading D
  raise on x sig p = if on && less p.pressure x then record { pressure = x; signal = sig } else p

  module _ (ar : Arithmetic D) where
    -- 100.0 * part / limit
    abbrev pub share : D → D → D
    share part limit = ar.over (ar.times (ar.nat 100) part) limit

    -- The pressure of one sample, and which signal it comes from.
    unfoldable pub reading : Triggers D → D → ProcessSample D → Reading D
    reading t mem_load s =
        let plain : Reading D = record { pressure = s.cpu_percent; signal = cpu } in
        let system =
          raise t.memory_enabled (share mem_load t.system_memory_limit) system_memory plain in
        let resident =
          raise (t.memory_enabled && less (ar.nat 0) t.working_set_limit)
            (share s.working_set_mb t.working_set_limit) working_set system in
        raise t.io_enabled (share s.io_mb_per_sec t.io_limit) io resident

    -- One turn of the loop over the samples; the last of the highest wins.
    unfoldable pub better : Triggers D → D → Combined D → ProcessSample D → Combined D
    unfolding reading
    better t mem_load best s =
        let p = reading t mem_load s in
        let won : Combined D = record {
          pressure = p.pressure;
          signal = p.signal;
          pid = s.pid;
          any_valid = true;
        } in
        if s.valid
        then if ge p.pressure best.pressure then won else record best { any_valid = true }
        else best

    unfoldable pub combine_from : Triggers D → D → Combined D → List (ProcessSample D) → Combined D
    unfolding better
    combine_from t mem_load best [] = best
    combine_from t mem_load best (s ∷ ss) = combine_from t mem_load (better t mem_load best s) ss

    -- The pressure before the first sample.
    abbrev pub no_pressure : Combined D
    no_pressure = record { pressure = ar.nat 0; signal = cpu; pid = 0; any_valid = false }

    unfoldable pub combine : Triggers D → D → List (ProcessSample D) → Combined D
    unfolding combine_from
    combine t mem_load samples =
        combine_from t (if t.memory_enabled then mem_load else ar.nat 0) no_pressure samples
