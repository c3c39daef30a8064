-- ===== src/Service/Daemon/Reload.antt =====
-- `LoadAndVerify`, `CheckConfigReload` and `ApplyConfig` in src/service/Daemon.cpp. What the file
-- system, the parser, the snapshot and the controller say is an argument.
pub mod Adopted
pub mod Rejected
pub mod Kept
use thread_haul_daemon.Base.{
  ℕ, Bool, true, false, not, ◌&&◌, List, [], ◌∷◌, ◌++◌, Option, none, some, ◌==◌, if◌then◌else◌,
  any_of, map, Real,
}
use thread_haul_daemon.Actuator.Os.{Os}
use thread_haul_daemon.Actuator.Machine.{Machine, force_recover_for_shutdown}
use thread_haul_daemon.Actuator.Manager.{
  Manager, Managed, find_machine, put_machine, remove_batch_process, set_manager_config,
  set_protected_process_names,
}
use thread_haul_daemon.Telemetry.Window.{set_window}
use thread_haul_daemon.Telemetry.Adaptive.{Arithmetic, adjust}
use thread_haul_daemon.Telemetry.AutoPolicy.{AutoSettings}
use thread_haul_daemon.Config.Json.{Result, ok, err}
use thread_haul_daemon.Config.Sections.{AutoConfig}
use thread_haul_daemon.Config.Runtime.{DaemonConfig}
use thread_haul_daemon.Service.AutoProtect.{ProtectApi, Protector, Entry, After, configure, exempt}
use thread_haul_daemon.Service.Daemon.{
  Host, Daemon, ProcessEntry, Note, config_warning, config_reload, Ran, contains, holds, moves,
  logs, is_configured, to_machine_config,
}

unfoldable pub to_auto_settings : {D : Type 0} → AutoConfig D → AutoSettings D
to_auto_settings a = record {
  enabled = a.auto_enabled;
  throttle_percent = a.throttle_percent;
  throttle_samples = a.throttle_samples;
  use_idle = a.use_idle;
  idle_percent = a.idle_percent;
  idle_samples = a.idle_samples;
  recover_percent = a.recover_percent;
  recover_samples = a.recover_samples;
  max_processes = a.max_processes;
  min_process_cpu = a.min_process_cpu;
}

module _ {D : Type 0} (host : Host) where
  -- The machine's name is no longer in the batch list, and no command made it managed.
  abbrev pub is_dropped : DaemonConfig D → List ℕ → Machine D → Bool
  is_dropped c adhoc m =
      not (contains host.same_name c.processes.batch_processes m.name) && not (holds m.pid adhoc)

  unfoldable pub dropped_pids : DaemonConfig D → List ℕ → List (ℕ × Machine D) → List ℕ
  dropped_pids c adhoc [] = []
  dropped_pids c adhoc ((key, m) ∷ ms) =
      let rest = dropped_pids c adhoc ms in if is_dropped c adhoc m then m.pid ∷ rest else rest

module _ {D W : Type 0} (os : Os W) (no_load : D) where
  -- `Find(pid)->ForceRecoverForShutdown()`, then `RemoveBatchProcess(pid)`.
  unfoldable pub drop_found : ℕ → Option (Machine D) → Manager D → W → Managed D W
  drop_found pid none g w = record { manager = g; world = w; reported = [] }
  drop_found pid (some m) g w =
      let o = force_recover_for_shutdown os no_load m w in
      let recovered : Manager D = record g { machines = put_machine pid o.machine g.machines } in
      let removed = remove_batch_process os recovered o.world pid in
      record removed { reported = o.reported }

  unfoldable pub drop_each : List ℕ → Manager D → W → Managed D W
  unfolding drop_found
  drop_each [] g w = record { manager = g; world = w; reported = [] }
  drop_each (pid ∷ pids) g w =
      let one = drop_found pid (find_machine pid g.machines) g w in
      let rest = drop_each pids one.manager one.world in
      record rest { reported = one.reported ++ rest.reported }

module _ {D W : Type 0} ⦃real : Real D⦄ (api : ProtectApi W) (host : Host) (c : DaemonConfig D)
    (snapshot : List ProcessEntry) where
  -- The inner loop: the entries of the snapshot that have this id and a configured name.
  unfoldable pub exempt_entries : ℕ → List ProcessEntry → Protector D → W → After D W
  exempt_entries pid [] p w = record { protector = p; world = w; logged = [] }
  exempt_entries pid (e ∷ es) p w =
      let one = exempt api p w pid in
      let hit = exempt_entries pid es one.protector one.world in
      let missed = exempt_entries pid es p w in
      if e.pid == pid && is_configured host c e.name
      then record hit { logged = one.logged ++ hit.logged }
      else missed

  -- The loop over a copy of the lowered processes.
  unfoldable pub exempt_configured : List ℕ → Protector D → W → After D W
  unfolding exempt_entries
  exempt_configured [] p w = record { protector = p; world = w; logged = [] }
  exempt_configured (pid ∷ pids) p w =
      let one = exempt_entries pid snapshot p w in
      let rest = exempt_configured pids one.protector one.world in
      record rest { logged = one.logged ++ rest.logged }

-- What the service's environment answers.
pub record Around (D : Type 0) : Type 0 where
  -- `SnapshotProcesses`
  pub snapshot : List ProcessEntry
  -- `ExternalBias` of the controller, 0.0 without one
  pub bias : D

module _ {D W : Type 0} ⦃real : Real D⦄ (ar : Arithmetic D) (os : Os W) (api : ProtectApi W)
    (host : Host) where
  unfoldable pub apply_config : Around D → DaemonConfig D → Daemon D → W → Ran D W
  unfolding to_auto_settings dropped_pids drop_each exempt_configured
  apply_config around c d w =
      let base = to_machine_config c in
      let window = set_window c.adaptive.window_samples d.window in
      let effective = adjust ar c.adaptive window base around.bias in
      let configured = set_manager_config os d.manager w effective in
      let guarded =
        set_protected_process_names os configured.manager configured.world (ar.nat 0)
          c.processes.protected_processes in
      let dropped =
        drop_each os (ar.nat 0) (dropped_pids host c d.adhoc guarded.manager.machines)
          guarded.manager guarded.world in
      let auto = configure api d.protector dropped.world (to_auto_settings c.auto) in
      let freed =
        exempt_configured api host c around.snapshot
          (map (λ (e : Entry D). e.pid) auto.protector.entries) auto.protector auto.world in
      record {
        daemon = record d {
          config = c;
          base = base;
          effective = effective;
          window = window;
          manager = dropped.manager;
          protector = freed.protector;
        };
        world = freed.world;
        notes = moves (guarded.reported ++ dropped.reported) ++ logs (auto.logged ++ freed.logged);
      }

  -- `writable`: the file can be changed by others than administrators.
  unfoldable pub load_and_verify :
      Result (DaemonConfig D) → Bool → Option (DaemonConfig D) × List (Note D)
  load_and_verify (err path reason) writable = (none, [])
  load_and_verify (ok c) writable =
      if writable
      then if c.require_protected_config then (none, []) else (some c, config_warning ∷ [])
      else (some c, [])

  unfoldable pub reload_with :
      Option (DaemonConfig D) × List (Note D) → Around D → Daemon D → W → Ran D W
  unfolding apply_config
  reload_with (none, notes) around d w = record {
    daemon = d;
    world = w;
    notes = notes ++ config_reload false ∷ [];
  }
  reload_with (some c, notes) around d w =
      let o = apply_config around c d w in
      record o { notes = notes ++ o.notes ++ config_reload true ∷ [] }

  -- The file's attributes are `none` where they cannot be read.
  unfoldable pub check_config_reload :
      Option (ℕ × ℕ) → Result (DaemonConfig D) → Bool → Around D → Daemon D → W → Ran D W
  unfolding load_and_verify reload_with
  check_config_reload none loaded writable around d w = record { daemon = d; world = w; notes = [] }
  check_config_reload (some (time, size)) loaded writable around d w =
      if time == d.config_write_time && size == d.config_size
      then record { daemon = d; world = w; notes = [] }
      else reload_with (load_and_verify loaded writable) around
          (record d { config_write_time = time; config_size = size }) w
