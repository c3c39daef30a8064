-- ===== src/Service/Daemon/Poll/Kept.antt =====
-- A poll keeps the state sound (src/service/Daemon.cpp).
use thread_haul_daemon.Base.{ℕ, refl, not, ◌&&◌, List, [], ◌∷◌, is_some, either_way, Real, map}
use thread_haul_daemon.Actuator.Os.{Os}
use thread_haul_daemon.Actuator.Manager.{find_machine, add_batch_process, set_manager_config}
use thread_haul_daemon.Actuator.Manager.Protection.{set_config-IsValid}
use thread_haul_daemon.Telemetry.Window.{add_sample, find_by_name}
use thread_haul_daemon.Telemetry.Adaptive.{Arithmetic, adjust}
use thread_haul_daemon.Service.AutoProtect.{ProtectApi}
use thread_haul_daemon.Service.Daemon.{Host, Daemon, ProcessEntry, Ran}
use thread_haul_daemon.Service.Daemon.Sound.{IsSound, add-IsManaged, update_all-IsManaged}
use thread_haul_daemon.Service.Daemon.Pressure.{Combined, combine}
use thread_haul_daemon.Service.Daemon.Poll.{
  Polled, is_empty, discover_pid, discover_pids, discover_names, discover, differs, adapt, respond,
  protect_others, react, poll,
}

module _ {D W : Type 0} (os : Os W) (host : Host) where
  discover_pid-IsSound :
      (name : List ℕ) (pid : ℕ) (d : Daemon D) (w : W)
      → IsSound os d
      → IsSound os (discover_pid os host name pid d w).daemon
  unfolding discover_pid
  discover_pid-IsSound name pid d w s =
      let P : Ran D W → Type 0 = λ o. IsSound os o.daemon in
      either_way P (is_some (find_machine pid d.manager.machines)) s (
        either_way P (add_batch_process os d.manager w name pid).1
          (add-IsManaged os d.effective d.config.processes.protected_processes d.manager w s name
            pid)
          s)

  discover_pids-IsSound :
      (name : List ℕ) (pids : List ℕ) (d : Daemon D) (w : W)
      → IsSound os d
      → IsSound os (discover_pids os host name pids d w).daemon
  unfolding discover_pids
  discover_pids-IsSound name [] d w s = s
  discover_pids-IsSound name (pid ∷ pids) d w s =
      let one = discover_pid os host name pid d w in
      discover_pids-IsSound name pids one.daemon one.world (discover_pid-IsSound name pid d w s)

  discover_names-IsSound :
      (snapshot : List ProcessEntry) (names : List (List ℕ)) (d : Daemon D) (w : W)
      → IsSound os d
      → IsSound os (discover_names os host snapshot names d w).daemon
  unfolding discover_names
  discover_names-IsSound snapshot [] d w s = s
  discover_names-IsSound snapshot (name ∷ names) d w s =
      let pids = find_by_name host.same_name (map (λ e. (e.name, e.pid)) snapshot) name in
      let one = discover_pids os host name pids d w in
      discover_names-IsSound snapshot names one.daemon one.world
        (discover_pids-IsSound name pids d w s)

module _ {D W : Type 0} ⦃real : Real D⦄ (ar : Arithmetic D) (os : Os W) where
  adapt-IsSound :
      (pressure bias : D) (d : Daemon D) (w : W)
      → IsSound os d
      → IsSound os (adapt ar os pressure bias d w).daemon
  unfolding adapt set_manager_config
  adapt-IsSound pressure bias d w s =
      let window = add_sample d.config.adaptive.window_samples pressure d.window in
      let wanted = adjust ar d.config.adaptive window d.base bias in
      either_way (λ (o : Ran D W). IsSound os o.daemon)
        (differs ar os wanted.throttle_percent d.effective.throttle_percent)
        (record {
          valid = set_config-IsValid os d.manager w s.valid wanted;
          thresholds = refl;
          names = s.names;
        })
        s

  respond-IsSound :
      (pressure : D) (pid : ℕ) (d : Daemon D) (w : W)
      → IsSound os d
      → IsSound os (respond ar os pressure pid d w).daemon
  unfolding respond
  respond-IsSound pressure pid d w s =
      update_all-IsManaged os d.effective d.config.processes.protected_processes d.manager w s
        pressure

module _ {D W : Type 0} ⦃real : Real D⦄ (ar : Arithmetic D) (os : Os W) (api : ProtectApi W)
    (host : Host) where
  react-IsSound :
      (i : Polled D) (c : Combined D) (d : Daemon D) (w : W)
      → IsSound os d
      → IsSound os (react ar os api host i c d w).daemon
  unfolding react protect_others
  react-IsSound i c d w s =
      let current : Daemon D = record d { pressure = c.pressure; critical_pid = c.pid } in
      let adapted = adapt ar os c.pressure i.bias current w in
      respond-IsSound ar os c.pressure c.pid adapted.daemon adapted.world
        (adapt-IsSound ar os c.pressure i.bias current w s)

  pub poll-IsSound :
      (i : Polled D) (d : Daemon D) (w : W)
      → IsSound os d
      → IsSound os (poll ar os api host i d w).daemon
  unfolding poll discover
  poll-IsSound i d w s =
      let c = combine ar d.config.triggers i.mem_load i.samples in
      let names = d.config.processes.batch_processes in
      let found = discover_names os host i.snapshot names d w in
      let kept = discover_names-IsSound os host i.snapshot names d w s in
      either_way (λ (o : Ran D W). IsSound os o.daemon)
        (not (is_empty i.samples) && not c.any_valid) kept
        (react-IsSound i c found.daemon found.world kept)
