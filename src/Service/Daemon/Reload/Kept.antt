-- ===== src/Service/Daemon/Reload/Kept.antt =====
-- A reload keeps the state sound (src/service/Daemon.cpp).
use thread_haul_daemon.Base.{ℕ, refl, Bool, ◌&&◌, List, Option, none, some, either_way, Real, ◌==◌}
use thread_haul_daemon.Actuator.Os.{Os}
use thread_haul_daemon.Actuator.Manager.{set_manager_config, set_protected_process_names}
use thread_haul_daemon.Actuator.Manager.Protection.{
  IsValid, set_config-IsValid, set_protected-IsValid,
}
use thread_haul_daemon.Telemetry.Window.{set_window}
use thread_haul_daemon.Telemetry.Adaptive.{Arithmetic, adjust}
use thread_haul_daemon.Config.Json.{Result}
use thread_haul_daemon.Config.Runtime.{DaemonConfig}
use thread_haul_daemon.Service.AutoProtect.{ProtectApi}
use thread_haul_daemon.Service.Daemon.{Host, Daemon, Note, Ran, to_machine_config}
use thread_haul_daemon.Service.Daemon.Sound.{IsSound, drop_each-IsManaged}
use thread_haul_daemon.Service.Daemon.Reload.{
  Around, dropped_pids, apply_config, load_and_verify, reload_with, check_config_reload,
}

module _ {D W : Type 0} ⦃real : Real D⦄ (ar : Arithmetic D) (os : Os W) (api : ProtectApi W)
    (host : Host) (around : Around D) where
  pub apply_config-IsSound :
      (c : DaemonConfig D) (d : Daemon D) (w : W)
      → IsValid os d.manager
      → IsSound os (apply_config ar os api host around c d w).daemon
  unfolding apply_config set_manager_config set_protected_process_names
  apply_config-IsSound c d w v =
      let window = set_window c.adaptive.window_samples d.window in
      let effective = adjust ar c.adaptive window (to_machine_config c) around.bias in
      let names = c.processes.protected_processes in
      let configured = set_manager_config os d.manager w effective in
      let guarded =
        set_protected_process_names os configured.manager configured.world (ar.nat 0) names in
      drop_each-IsManaged os effective names (ar.nat 0)
        (dropped_pids host c d.adhoc guarded.manager.machines) guarded.manager guarded.world
        (record {
          valid =
              set_protected-IsValid os configured.manager configured.world
                (set_config-IsValid os d.manager w v effective) (ar.nat 0) names;
          thresholds = refl;
          names = refl;
        })

  reload_with-IsSound :
      (l : Option (DaemonConfig D) × List (Note D)) (d : Daemon D) (w : W)
      → IsSound os d
      → IsSound os (reload_with ar os api host l around d w).daemon
  unfolding reload_with
  reload_with-IsSound (none, notes) d w s = s
  reload_with-IsSound (some c, notes) d w s = apply_config-IsSound c d w s.valid

  pub check_reload-IsSound :
      (file : Option (ℕ × ℕ)) (loaded : Result (DaemonConfig D)) (writable : Bool) (d : Daemon D)
      (w : W)
      → IsSound os d
      → IsSound os (check_config_reload ar os api host file loaded writable around d w).daemon
  unfolding check_config_reload
  check_reload-IsSound none loaded writable d w s = s
  check_reload-IsSound (some (time, size)) loaded writable d w s =
      either_way (λ (o : Ran D W). IsSound os o.daemon)
        (time == d.config_write_time && size == d.config_size) s
        (reload_with-IsSound (load_and_verify ar os api host loaded writable)
          (record d { config_write_time = time; config_size = size }) w s)
