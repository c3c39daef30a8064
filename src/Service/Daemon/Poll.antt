-- ===== src/Service/Daemon/Poll.antt =====
-- `Poll` and `DiscoverBatchProcesses` in src/service/Daemon.cpp. The snapshot after the identity
-- check, the samples of the critical processes and the process table are arguments.
pub mod Kept
use thread_haul_daemon.Base.{
  ℕ, Bool, true, false, not, ◌&&◌, ◌||◌, List, [], ◌∷◌, ◌++◌, is_some, keep_if, if◌then◌else◌, map,
  Real, ge, less,
}
use thread_haul_daemon.Actuator.Os.{Os}
use thread_haul_daemon.Actuator.Machine.{MachineConfig, Machine, has_exited}
use thread_haul_daemon.Actuator.Manager.{
  Manager, find_machine, add_batch_process, set_manager_config, update_all,
}
use thread_haul_daemon.Telemetry.Tracker.{Fired, reset, add}
use thread_haul_daemon.Telemetry.Window.{add_sample, find_by_name}
use thread_haul_daemon.Telemetry.Monitor.{ProcessSample}
use thread_haul_daemon.Telemetry.Adaptive.{Arithmetic, adjust}
use thread_haul_daemon.Service.AutoProtect.{ProtectApi, Row, tick}
use thread_haul_daemon.Service.Daemon.{
  Host, Daemon, ProcessEntry, Note, batch_acquired, protected_skipped, batch_exited,
  threshold_event, adaptive_threshold, Ran, contains, holds, insert_pid, moves, logs, is_configured,
}
use thread_haul_daemon.Service.Daemon.Pressure.{Combined, combine}

pub record Polled (D : Type 0) : Type 0 where
  pub snapshot : List ProcessEntry
  pub samples : List (ProcessSample D)
  -- `SystemMemoryLoadPercent`
  pub mem_load : D
  -- `ExternalBias`
  pub bias : D
  -- `SampleSystemCpu` and the process table of auto-protect
  pub system_cpu : D
  pub rows : List (Row D)

abbrev is_empty : {A : Type 0} → List A → Bool
is_empty [] = true
is_empty (x ∷ xs) = false

abbrev fired_notes : {D : Type 0} → ℕ → List Fired → List (Note D)
fired_notes pid [] = []
fired_notes pid (f ∷ fs) = threshold_event pid f ∷ fired_notes pid fs

module _ {D W : Type 0} (os : Os W) (host : Host) where
  unfoldable pub discover_pid : List ℕ → ℕ → Daemon D → W → Ran D W
  discover_pid name pid d w =
      let (added, ok) = add_batch_process os d.manager w name pid in
      if is_some (find_machine pid d.manager.machines)
      then record { daemon = d; world = w; notes = [] }
      else if ok
      then record {
        daemon = record d { manager = added.manager };
        world = added.world;
        notes = batch_acquired name pid ∷ [];
      }
      else record {
        daemon = record d { protected_logged = insert_pid pid d.protected_logged };
        world = w;
        notes = if holds pid d.protected_logged then [] else protected_skipped name pid ∷ [];
      }

  unfoldable pub discover_pids : List ℕ → List ℕ → Daemon D → W → Ran D W
  unfolding discover_pid
  discover_pids name [] d w = record { daemon = d; world = w; notes = [] }
  discover_pids name (pid ∷ pids) d w =
      let one = discover_pid name pid d w in
      let rest = discover_pids name pids one.daemon one.world in
      record rest { notes = one.notes ++ rest.notes }

  unfoldable pub discover_names : List ProcessEntry → List (List ℕ) → Daemon D → W → Ran D W
  unfolding discover_pids find_by_name
  discover_names snapshot [] d w = record { daemon = d; world = w; notes = [] }
  discover_names snapshot (name ∷ names) d w =
      let pids = find_by_name host.same_name (map (λ e. (e.name, e.pid)) snapshot) name in
      let one = discover_pids name pids d w in
      let rest = discover_names snapshot names one.daemon one.world in
      record rest { notes = one.notes ++ rest.notes }

  -- `DiscoverBatchProcesses`
  unfoldable pub discover : List ProcessEntry → Daemon D → W → Ran D W
  unfolding discover_names
  discover snapshot d w = discover_names snapshot d.config.processes.batch_processes d w

module _ {D W : Type 0} (os : Os W) where
  unfoldable pub exited_notes : W → List (ℕ × Machine D) → List (Note D)
  exited_notes w [] = []
  exited_notes w ((key, m) ∷ ms) =
      let rest = exited_notes w ms in
      if has_exited os m w then batch_exited m.name m.pid m.state ∷ rest else rest

module _ {D W : Type 0} ⦃real : Real D⦄ (ar : Arithmetic D) (os : Os W) where
  -- `std::abs(a - b) >= 0.5`
  abbrev pub differs : D → D → Bool
  differs a b =
      let x = ar.minus a b in
      ge (if less x (ar.nat 0) then ar.minus (ar.nat 0) x else x) (ar.over (ar.nat 1) (ar.nat 2))

  -- The new sample enters the window, and thresholds that have moved far enough are adopted.
  unfoldable pub adapt : D → D → Daemon D → W → Ran D W
  adapt pressure bias d w =
      let window = add_sample d.config.adaptive.window_samples pressure d.window in
      let wanted = adjust ar d.config.adaptive window d.base bias in
      let configured = set_manager_config os d.manager w wanted in
      if differs wanted.throttle_percent d.effective.throttle_percent
      then record {
        daemon = record d { window = window; effective = wanted; manager = configured.manager };
        world = configured.world;
        notes = adaptive_threshold wanted ∷ [];
      }
      else record { daemon = record d { window = window }; world = w; notes = [] }

  -- The tracker and the state machines on the new pressure.
  unfoldable pub respond : D → ℕ → Daemon D → W → Ran D W
  unfolding exited_notes
  respond pressure pid d w =
      let tracked = add pressure d.effective d.tracker in
      let u = update_all os d.manager w pressure in
      let found : ℕ → Bool = λ p. is_some (find_machine p u.0.manager.machines) in
      record {
        daemon = record d {
          tracker = if u.1 then reset else tracked.0;
          manager = u.0.manager;
          adhoc = keep_if found d.adhoc;
        };
        world = u.0.world;
        notes =
            fired_notes pid tracked.1 ++ exited_notes os w d.manager.machines ++ moves u.0.reported;
      }

module _ {D W : Type 0} ⦃real : Real D⦄ (ar : Arithmetic D) (os : Os W) (api : ProtectApi W)
    (host : Host) where
  -- The processes that auto-protect leaves alone.
  abbrev pub is_excluded : Daemon D → List ℕ → ℕ → Bool
  is_excluded d name pid =
      is_configured host d.config name || is_some (find_machine pid d.manager.machines)

  unfoldable pub protect_others : D → List (Row D) → Daemon D → W → Ran D W
  protect_others cpu rows d w =
      let t = tick api d.protector w (is_excluded d) cpu rows in
      record {
        daemon = record d { protector = t.protector };
        world = t.world;
        notes = logs t.logged;
      }

  -- What `Poll` does with a pressure.
  unfoldable pub react : Polled D → Combined D → Daemon D → W → Ran D W
  unfolding adapt respond protect_others
  react i c d w =
      let current : Daemon D = record d { pressure = c.pressure; critical_pid = c.pid } in
      let adapted = adapt ar os c.pressure i.bias current w in
      let responded = respond ar os c.pressure c.pid adapted.daemon adapted.world in
      let protected = protect_others i.system_cpu i.rows responded.daemon responded.world in
      record protected { notes = adapted.notes ++ responded.notes ++ protected.notes }

  unfoldable pub poll : Polled D → Daemon D → W → Ran D W
  unfolding discover combine react
  poll i d w =
      let c = combine ar d.config.triggers i.mem_load i.samples in
      let found = discover os host i.snapshot d w in
      let after = react i c found.daemon found.world in
      if not (is_empty i.samples) && not c.any_valid
      then found
      else record after { notes = found.notes ++ after.notes }
