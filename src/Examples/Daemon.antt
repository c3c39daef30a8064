-- ===== src/Examples/Daemon.antt =====
-- Examples of src/service/Daemon.cpp, over whole percentages and a Windows whose state is a number
-- of calls.
use thread_haul_daemon.Base.{
  ℕ, ◌+◌, ◌-◌, ◌*◌, ◌/◌, ◌≡◌, ◌≢◌, ◌⊎◌, refl, Bool, true, false, List, [], ◌∷◌, none, some, codes,
  eq_text, nat_real, nat-IsTotal, All, Any, arith, map, leb, subst, inl, inr, some_inj,
}
use thread_haul_daemon.Actuator.Threads.{handle}
use thread_haul_daemon.Actuator.Os.{Os}
use thread_haul_daemon.Actuator.Machine.{
  ProcessState, Machine, MachineConfig, normal, suspended, set_config, force_recover_for_shutdown,
  transition_to, force_state, has_exited,
}
use thread_haul_daemon.Actuator.Manager.{
  find_machine, is_protected, always_protected_names, force_recover_all_for_shutdown, put_machine,
  force_process_state, sweep,
}
use thread_haul_daemon.Actuator.Manager.Sweeps.{AllMachines}
use thread_haul_daemon.Telemetry.Tracker.{reset}
use thread_haul_daemon.Telemetry.AutoPolicy.{reset_state}
use thread_haul_daemon.Telemetry.Monitor.{ProcessSample}
use thread_haul_daemon.Telemetry.Adaptive.{Arithmetic, room, offset}
use thread_haul_daemon.Telemetry.Adaptive.Bounds.{offset_bounds}
use thread_haul_daemon.Config.Json.{Result, ok, err, invalid_json}
use thread_haul_daemon.Config.Sections.{Triggers}
use thread_haul_daemon.Config.Runtime.{DaemonConfig}
use thread_haul_daemon.Service.AutoProtect.{ProtectApi}
use thread_haul_daemon.Service.Daemon.{Host, Daemon, ProcessEntry, contains}
use thread_haul_daemon.Service.Daemon.Sound.{IsSound}
use thread_haul_daemon.Service.Daemon.Commands.{
  Verb, resume, suspend, command_one, handle_command, thrown, verb_of, verb_in, target_in,
  next_word, word_from, number_from, targets_of,
}
use thread_haul_daemon.Service.Daemon.Commands.Holds.{HeldOrRefused, command_one-HeldOrRefused}
use thread_haul_daemon.Service.Daemon.Commands.Critical.{IsSpared, handle_command-IsSpared}
use thread_haul_daemon.Service.Daemon.Commands.Refusals.{IsBad, IsOverlong, handle_command-thrown}
use thread_haul_daemon.Service.Daemon.Reload.{
  Around, apply_config, load_and_verify, check_config_reload,
}
use thread_haul_daemon.Service.Daemon.Reload.Adopted.{apply_config-stuck}
use thread_haul_daemon.Service.Daemon.Reload.Rejected.{check_config_reload_lem}
use thread_haul_daemon.Service.Daemon.Pressure.{combine, cpu, reading}
use thread_haul_daemon.Service.Daemon.Pressure.Peak.{Wins, combine_peak}
use thread_haul_daemon.Service.Daemon.Poll.{Polled}
use thread_haul_daemon.Service.Daemon.Events.{
  Event, pipe, dashboard, command, polled, ConfigFile, initialize, initialize_with, fresh,
  handle_events, shut_down, live, Late,
}
use thread_haul_daemon.Service.Daemon.Commands.Calm.{lowers}
use thread_haul_daemon.Service.Daemon.Events.Life.{handle_events-initialize-IsSound, live-normal}

abbrev pub whole : Arithmetic ℕ
whole = record {
  nat = λ n. n;
  plus = λ a b. a + b;
  minus = λ a b. a - b;
  times = λ a b. a * b;
  over = λ a b. a / b;
}

-- Every process can be opened and none has exited; every thread call succeeds.
abbrev pub os : Os ℕ
os = record {
  threads = record {
    snapshot = λ w. (some [], w);
    open_thread = λ tid w. (handle tid, w);
    suspend_thread = λ h w. (0, w + 1);
    resume_thread = λ h w. (1, w + 1);
    close_handle = λ h w. w;
  };
  open_process = λ access pid w. (handle pid, w);
  set_priority_class = λ h c w. (none, w + 1);
  is_signalled = λ h w. false;
  close_handle = λ h w. w;
  current_pid = 99;
  same_name = eq_text;
}

abbrev pub api : ProtectApi ℕ
api = record {
  is_signalled = λ h w. false;
  open_process = λ pid w. (some pid, w);
  get_priority_class = λ h w. 0x20;
  set_priority_class = λ h c w. (true, w + 1);
  close_handle = λ h w. w;
  tick_count = λ w. 0;
}

abbrev pub host : Host
host = record { same_name = eq_text; widen = λ s. s; is_utf8 = λ s. true; decimal = λ n. codes "7" }

abbrev triggers : Triggers ℕ
triggers = record {
  memory_enabled = true;
  system_memory_limit = 90;
  working_set_limit = 0;
  io_enabled = false;
  io_limit = 1;
}

-- The named process is critical.
abbrev config : List ℕ → DaemonConfig ℕ
config critical = record {
  interval_ms = 1000;
  thresholds = record {
    high = record { percent = 85; consecutive_samples = 3 };
    critical = record { percent = 95; consecutive_samples = 3 };
    low = record { percent = 60; consecutive_samples = 5 };
  };
  processes = record {
    critical_processes = critical ∷ [];
    batch_processes = codes "job" ∷ [];
    protected_processes = [];
  };
  log_settings = record { log_path = []; max_file_size_mb = 10; max_rotated_files = 5 };
  telemetry = record { cpu_per_core = true; log_samples = false; self_monitor_interval_sec = 0 };
  triggers = triggers;
  adaptive = record {
    adaptive_enabled = true;
    window_samples = 30;
    horizon_samples = 5;
    max_adjust_percent = 15;
  };
  alerts = record { popup = false; webhook_url = [] };
  identities = [];
  coordination = record {
    coordination_enabled = false;
    controller_host = [];
    controller_port = 7878;
    shared_token = [];
    heartbeat_seconds = 5;
  };
  require_protected_config = true;
  auto = record {
    auto_enabled = true;
    throttle_percent = 90;
    throttle_samples = 5;
    use_idle = true;
    idle_percent = 97;
    idle_samples = 10;
    recover_percent = 75;
    recover_samples = 10;
    max_processes = 3;
    min_process_cpu = 50;
  };
  dashboard = record { dashboard_enabled = false; dashboard_port = 8787 };
}

abbrev around : Around ℕ
around = record { snapshot = []; bias = 0 }

abbrev file : ConfigFile ℕ
file = record { attributes = some (1, 2); loaded = ok (config (codes "db")); writable = false }

abbrev db : ProcessEntry
db = record { name = codes "db"; pid = 5 }

abbrev pub app : ProcessEntry
app = record { name = codes "app"; pid = 7 }

abbrev fields : MachineConfig ℕ
fields = record {
  throttle_percent = 85;
  throttle_samples = 3;
  escalate_percent = 95;
  escalate_samples = 3;
  recover_percent = 60;
  recover_samples = 5;
}

-- The application was suspended by a command.
abbrev held_app : Machine ℕ
held_app = record {
  name = codes "app";
  pid = 7;
  process_handle = some 7;
  config = fields;
  observed = true;
  state = suspended;
  manual_hold = true;
  high = 0;
  critical = 0;
  low = 0;
}

abbrev pub running : Daemon ℕ
running = record {
  config = config (codes "db");
  config_write_time = 1;
  config_size = 2;
  base = fields;
  effective = fields;
  manager = record {
    config = fields;
    observed = true;
    protected_names = [];
    machines = (7, held_app) ∷ [];
  };
  protector = record {
    settings = record {
      enabled = false;
      throttle_percent = 90;
      throttle_samples = 5;
      use_idle = true;
      idle_percent = 97;
      idle_samples = 10;
      recover_percent = 75;
      recover_samples = 10;
      max_processes = 3;
      min_process_cpu = 50;
    };
    state = reset_state;
    entries = [];
    exempt_pids = [];
    system_cpu = 0;
  };
  tracker = reset;
  window = [];
  adhoc = 7 ∷ [];
  protected_logged = [];
  pressure = 0;
  critical_pid = 0;
}

abbrev loud : ProcessSample ℕ
loud = record {
  name = codes "db";
  pid = 5;
  cpu_percent = 90;
  working_set_mb = 0;
  io_mb_per_sec = 0;
  valid = true;
}

abbrev polled_once : Polled ℕ
polled_once = record {
  snapshot = db ∷ record { name = codes "job"; pid = 8 } ∷ [];
  samples = loud ∷ [];
  mem_load = 40;
  bias = 0;
  system_cpu = 20;
  rows = [];
}

abbrev events : List (Event ℕ)
events = polled polled_once ∷ command dashboard false (app ∷ []) (codes "suspend app") ∷ []

handle_events-initialize-IsSound_example :
    IsSound os
      (handle_events whole os api host events
        (apply_config whole os api host around
          (config (codes "db"))
          (fresh whole (some (1, 2)) (config (codes "db")))
          0).daemon
        (apply_config whole os api host around
          (config (codes "db"))
          (fresh whole (some (1, 2)) (config (codes "db")))
          0).world).0.daemon
unfolding initialize initialize_with load_and_verify
handle_events-initialize-IsSound_example =
    handle_events-initialize-IsSound whole os api host file around 0
      (apply_config whole os api host around (config (codes "db"))
        (fresh whole (some (1, 2)) (config (codes "db"))) 0)
      refl events

-- A command of the controller that is handled after the stop.
abbrev late : List ℕ → List Late
late line = (false, app ∷ [], line) ∷ []

not_lowering : (v : Verb) → some resume ≡ some v → lowers v ≡ false
not_lowering v e = subst (λ (x : Verb). lowers x ≡ false) (some_inj e) refl

not-IsBad : ¬ IsBad host (codes "app")
not-IsBad (inl e) = cc
not-IsBad (inr e) = cc (e.0)

live-normal_example :
    let before = (handle_events whole os api host events running 0).0 in
    let stopped = (shut_down whole os api host before.daemon before.world).daemon in
    let after = live whole os api host events (late (codes "resume app")) running 0 in
    (map (λ e. e.0) stopped.manager.machines ≡ map (λ e. e.0) before.daemon.manager.machines)
    × AllMachines (λ _ m. (m.state ≡ normal) × (m.manual_hold ≡ false)) stopped.manager.machines
    × (stopped.protector.entries ≡ [])
    × (after.1 ≡ true)
    × AllMachines (λ _ m. m.state ≡ normal) after.0.daemon.manager.machines
    × (after.0.daemon.protector.entries ≡ [])
unfolding verb_of next_word word_from
live-normal_example =
    live-normal whole os api host events (late (codes "resume app")) running 0 (tt, (tt, tt))
      ((refl, not-IsBad, not_lowering), tt)

-- What a machine of the list is in.
abbrev states : List (ℕ × Machine ℕ) → List ProcessState
states ms = map (λ e. e.1.state) ms

-- A late `suspend` leaves the process suspended for good.
suspended_late :
    states
      (live whole os api host [] (late (codes "suspend app")) running 0).0.daemon.manager.machines
    ≡ suspended ∷ []
unfolding live handle_events find_machine contains next_word word_from number_from verb_of
    is_protected always_protected_names force_recover_for_shutdown force_recover_all_for_shutdown
    put_machine force_process_state sweep transition_to force_state has_exited targets_of
suspended_late = refl

abbrev overlong : List ℕ
overlong = codes "resume 4294967296"

handle_command-thrown_example :
    let h = handle_command os api host false (app ∷ []) overlong running 0 in
    (h.reply ≡ thrown
      → (h.ran.daemon ≡ running)
        × (h.ran.world ≡ 0)
        × ((host.is_utf8 (verb_in overlong) ≡ false) ⊎ IsBad host (target_in overlong)))
    × ((v : Verb)
        → verb_of (verb_in overlong) ≡ some v
        → (app ∷ []) ≢ []
        → IsOverlong (target_in overlong)
        → h.reply ≡ thrown)
handle_command-thrown_example =
    handle_command-thrown os api host false (app ∷ []) overlong running 0

handle_command-IsSpared_example :
    IsSpared 5 running
      (handle_command os api host false (db ∷ app ∷ []) (codes "suspend db") running 0).ran.daemon
unfolding contains
handle_command-IsSpared_example =
    handle_command-IsSpared os api host 5 false (db ∷ app ∷ []) (codes "suspend db") running 0
      (λ _. refl, (λ e. absurd (omega (arith, e)), tt))

command_one-HeldOrRefused_example :
    HeldOrRefused os suspended app running 0 (command_one os host suspend app running 0)
unfolding contains
command_one-HeldOrRefused_example =
    command_one-HeldOrRefused os host running 0 suspend suspended app refl refl

abbrev releases : List (Event ℕ)
releases =
    command dashboard false (app ∷ []) (codes "resume app")
    ∷ command pipe false (app ∷ []) (codes "release 7")
    ∷ []

apply_config-stuck_example :
    let reloaded =
      (apply_config whole os api host around (config (codes "app")) running 0).daemon in
    find_machine 7 (handle_events whole os api host releases reloaded 0).0.daemon.manager.machines
    ≡ some (set_config reloaded.effective held_app)
unfolding find_machine is_protected always_protected_names contains
apply_config-stuck_example =
    apply_config-stuck whole os api host around (config (codes "app")) running 0 7 held_app refl
      refl refl releases 0 ((λ _. refl, tt), ((λ _. refl, tt), tt))

check_config_reload_lem_example :
    let o =
      check_config_reload whole os api host
        (some (3, 2))
        (err [] invalid_json)
        false
        around
        running
        0 in
    ((load_and_verify whole os api host (err [] invalid_json) false).0 ≡ none
      → (o.daemon ≡ record running { config_write_time = 3; config_size = 2 }) × (o.world ≡ 0))
    × ((loaded' : Result (DaemonConfig ℕ)) (writable' : Bool) (around' : Around ℕ)
        → check_config_reload whole os api host
            (some (3, 2))
            loaded'
            writable'
            around'
            o.daemon
            o.world
          ≡ record { daemon = o.daemon; world = o.world; notes = [] })
check_config_reload_lem_example =
    check_config_reload_lem whole os api host (3, 2) (err [] invalid_json) false around running 0

combine_peak_example :
    let c = combine whole triggers 40 (loud ∷ []) in
    (leb 0 c.pressure ≡ true)
    × All
        (λ s. s.valid ≡ true → leb (reading whole triggers 40 s).pressure c.pressure ≡ true)
        (loud ∷ [])
    × (((c.pressure ≡ 0) × (c.signal ≡ cpu) × (c.pid ≡ 0))
        ⊎ Any (Wins whole triggers 40 c) (loud ∷ []))
    × (c.any_valid ≡ true)
combine_peak_example = combine_peak whole triggers nat-IsTotal 40 (loud ∷ [])

offset_bounds_example :
    let off = offset whole (config []).adaptive (40 ∷ 60 ∷ 80 ∷ []) fields 3 in
    (leb 0 off ≡ true)
    × (leb 0 15 ≡ true → leb off 15 ≡ true)
    × (leb 0 (room whole fields) ≡ true → leb off (room whole fields) ≡ true)
offset_bounds_example =
    offset_bounds nat-IsTotal whole (config []).adaptive (40 ∷ 60 ∷ 80 ∷ []) fields 3
