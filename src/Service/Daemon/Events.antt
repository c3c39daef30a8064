-- ===== src/Service/Daemon/Events.antt =====
-- The life of the service in src/service/Daemon.cpp: `Initialize`, then the operations that its
-- threads run one at a time under the mutex, in any order, and what `Run` does when it is stopped.
pub mod Life
use thread_haul_daemon.Base.{
  ℕ, Bool, true, false, List, [], ◌∷◌, ◌++◌, Option, none, some, Real, if◌then◌else◌, map,
}
use thread_haul_daemon.Actuator.Os.{Os}
use thread_haul_daemon.Actuator.Machine.{MachineConfig}
use thread_haul_daemon.Actuator.Manager.{start, force_recover_all_for_shutdown}
use thread_haul_daemon.Telemetry.Tracker.{reset}
use thread_haul_daemon.Telemetry.AutoPolicy.{AutoSettings, reset_state}
use thread_haul_daemon.Telemetry.Adaptive.{Arithmetic}
use thread_haul_daemon.Config.Json.{Result}
use thread_haul_daemon.Config.Runtime.{DaemonConfig}
use thread_haul_daemon.Service.AutoProtect.{ProtectApi, Protector, restore_all}
use thread_haul_daemon.Service.Daemon.{Host, Daemon, ProcessEntry, Note, Ran, moves, logs}
use thread_haul_daemon.Service.Daemon.Commands.{Reply, thrown, handle_command}
use thread_haul_daemon.Service.Daemon.Reload.{
  Around, apply_config, load_and_verify, check_config_reload,
}
use thread_haul_daemon.Service.Daemon.Poll.{Polled, poll}

-- What the file system and the parser say of the configuration file.
pub record ConfigFile (D : Type 0) : Type 0 where
  -- its time and size, `none` where they cannot be read
  pub attributes : Option (ℕ × ℕ)
  pub loaded : Result (DaemonConfig D)
  pub writable : Bool

-- Where a command comes from.
pub data Source : Type 0 where
  pipe dashboard controller : Source

pub data Event (D : Type 0) : Type 0 where
  -- `HandleCommand` of a line
  command : Source → Bool → List ProcessEntry → List ℕ → Event D
  -- the two parts of a turn of the loop in `Run`
  checked : ConfigFile D → Around D → Event D
  polled : Polled D → Event D

-- A command of the controller: the argument, the processes and the line of `HandleCommand`.
abbrev pub Late : Type 0
Late = Bool × List ProcessEntry × List ℕ

abbrev pub from_controller : {D : Type 0} → Late → Event D
from_controller (remote, snapshot, line) = command controller remote snapshot line

module _ {D : Type 0} (ar : Arithmetic D) where
  -- The default member values of `StateMachineConfig`.
  abbrev pub default_machine_config : MachineConfig D
  default_machine_config = record {
    throttle_percent = ar.nat 85;
    throttle_samples = 3;
    escalate_percent = ar.nat 90;
    escalate_samples = 5;
    recover_percent = ar.nat 60;
    recover_samples = 5;
  }

  -- and of `AutoProtectSettings`
  abbrev pub default_auto_settings : AutoSettings D
  default_auto_settings = record {
    enabled = true;
    throttle_percent = ar.nat 90;
    throttle_samples = 5;
    use_idle = true;
    idle_percent = ar.nat 97;
    idle_samples = 10;
    recover_percent = ar.nat 75;
    recover_samples = 10;
    max_processes = 3;
    min_process_cpu = ar.nat 50;
  }

  -- The service before its first configuration is applied.
  unfoldable pub fresh : Option (ℕ × ℕ) → DaemonConfig D → Daemon D
  fresh attributes c = record {
    config = c;
    config_write_time = elim attributes [ none ↦ 0 | some a ↦ a.0 ];
    config_size = elim attributes [ none ↦ 0 | some a ↦ a.1 ];
    base = default_machine_config;
    effective = default_machine_config;
    manager = start default_machine_config true;
    protector = record {
      settings = default_auto_settings;
      state = reset_state;
      entries = [];
      exempt_pids = [];
      system_cpu = ar.nat 0;
    };
    tracker = reset;
    window = [];
    adhoc = [];
    protected_logged = [];
    pressure = ar.nat 0;
    critical_pid = 0;
  }

-- The web server of the dashboard catches an exception; the threads of the pipe and of the
-- controller's connection do not, and it ends the process.
abbrev pub survives : Source → Reply → Bool
survives dashboard r = true
survives _ thrown = false
survives _ _ = true

module _ {D W : Type 0} ⦃real : Real D⦄ (ar : Arithmetic D) (os : Os W) (api : ProtectApi W)
    (host : Host) where
  unfoldable pub initialize_with :
      Option (DaemonConfig D) → ConfigFile D → Around D → W → Option (Ran D W)
  unfolding fresh apply_config
  initialize_with none file around w = none
  initialize_with (some c) file around w =
      some (apply_config ar os api host around c (fresh ar file.attributes c) w)

  -- `none` where the service does not start.
  unfoldable pub initialize : ConfigFile D → Around D → W → Option (Ran D W)
  unfolding load_and_verify initialize_with
  initialize file around w =
      initialize_with (load_and_verify ar os api host file.loaded file.writable).0 file around w

  -- The second part says whether the process goes on.
  unfoldable pub handle_event : Event D → Daemon D → W → Ran D W × Bool
  unfolding handle_command check_config_reload poll
  handle_event (command source remote snapshot line) d w =
      let h = handle_command os api host remote snapshot line d w in
      (h.ran, survives source h.reply)
  handle_event (checked file around) d w = (
    check_config_reload ar os api host file.attributes file.loaded file.writable around d w,
    true,
  )
  handle_event (polled i) d w = (poll ar os api host i d w, true)

  unfoldable pub handle_events : List (Event D) → Daemon D → W → Ran D W × Bool
  unfolding handle_event
  handle_events [] d w = (record { daemon = d; world = w; notes = [] }, true)
  handle_events (e ∷ es) d w =
      let (one, goes_on) = handle_event e d w in
      let (rest, lives) = handle_events es one.daemon one.world in
      if goes_on then (record rest { notes = one.notes ++ rest.notes }, lives) else (one, false)

  -- What `Run` does under the mutex after it was told to stop.
  unfoldable pub shut_down : Daemon D → W → Ran D W
  shut_down d w =
      let recovered = force_recover_all_for_shutdown os d.manager w (ar.nat 0) in
      let restored = restore_all api d.protector.entries recovered.world in
      record {
        daemon = record d {
          manager = recovered.manager;
          protector = record d.protector { entries = restored.list };
        };
        world = restored.world;
        notes = moves recovered.reported ++ logs restored.logged;
      }

  -- The operations in the order in which they get the mutex, then the stop, unless the process has
  -- ended before. The connection to the controller is closed last: the commands that it sent and that
  -- get the mutex after the stop are `late`.
  unfoldable pub live : List (Event D) → List Late → Daemon D → W → Ran D W × Bool
  unfolding handle_events shut_down
  live es late d w =
      let (ran, lives) = handle_events es d w in
      let stopped = shut_down ran.daemon ran.world in
      let (last, ends) = handle_events (map from_controller late) stopped.daemon stopped.world in
      if lives
      then (record last { notes = ran.notes ++ stopped.notes ++ last.notes }, ends)
      else (ran, false)
