-- ===== src/Service/Daemon.antt =====
-- src/service/Daemon.{h,cpp}: the service's state, which its threads change one at a time under a
-- mutex, and what its operations share. What Windows tells (snapshots, samples) is an argument.
pub mod Pressure
pub mod Commands
pub mod Reload
pub mod Poll
pub mod Events
pub mod Sound
use thread_haul_daemon.Base.{
  ℕ, Bool, true, false, List, [], ◌∷◌, ◌++◌, Option, none, some, ◌==◌, any_of, keep_if, not,
  if◌then◌else◌, ◌||◌,
}
use thread_haul_daemon.Actuator.Machine.{ProcessState, MachineConfig, Transition}
use thread_haul_daemon.Actuator.Manager.{Manager, Managed}
use thread_haul_daemon.Telemetry.Tracker.{Tracker, Fired}
use thread_haul_daemon.Config.Runtime.{DaemonConfig}
use thread_haul_daemon.Service.AutoProtect.{Protector, Logged}

-- What Windows and the C++ library answer beside the calls of the actuator.
pub record Host : Type 0 where
  -- `CompareStringOrdinal`, ignoring case
  pub same_name : List ℕ → List ℕ → Bool
  -- UTF-8 to UTF-16
  pub widen : List ℕ → List ℕ
  -- whether the JSON library can print the text; it throws on one that is no UTF-8
  pub is_utf8 : List ℕ → Bool
  -- `std::to_string`
  pub decimal : ℕ → List ℕ

-- `coordination_`, the dashboard, the loggers and the alerts are not part of this state.
pub record Daemon (D : Type 0) : Type 0 where
  pub config : DaemonConfig D
  pub config_write_time : ℕ
  pub config_size : ℕ
  pub base : MachineConfig D
  pub effective : MachineConfig D
  pub manager : Manager D
  pub protector : Protector D
  pub tracker : Tracker
  pub window : List D
  pub adhoc : List ℕ
  pub protected_logged : List ℕ
  pub pressure : D
  pub critical_pid : ℕ

-- A process of a snapshot.
pub record ProcessEntry : Type 0 where
  pub name : List ℕ
  pub pid : ℕ

-- What the service writes to its log, as far as it is kept here.
pub data Note (D : Type 0) : Type 0 where
  batch_acquired protected_skipped : List ℕ → ℕ → Note D
  batch_exited : List ℕ → ℕ → ProcessState → Note D
  threshold_event : ℕ → Fired → Note D
  adaptive_threshold : MachineConfig D → Note D
  manual_override : ℕ → Bool → Note D
  config_warning : Note D
  config_reload : Bool → Note D
  protected_log : Logged → Note D
  moved : Transition D → Note D

pub record Ran (D W : Type 0) : Type 0 where
  pub daemon : Daemon D
  pub world : W
  pub notes : List (Note D)

unfoldable pub contains : (List ℕ → List ℕ → Bool) → List (List ℕ) → List ℕ → Bool
contains same_name names name = any_of (λ n. same_name n name) names

-- Sets of process ids.
abbrev pub holds : ℕ → List ℕ → Bool
holds pid pids = any_of (λ p. p == pid) pids

abbrev pub insert_pid : ℕ → List ℕ → List ℕ
insert_pid pid pids = if holds pid pids then pids else pid ∷ pids

abbrev pub erase_pid : ℕ → List ℕ → List ℕ
erase_pid pid pids = keep_if (λ p. not (p == pid)) pids

abbrev pub moves : {D : Type 0} → List (Transition D) → List (Note D)
moves [] = []
moves (t ∷ ts) = moved t ∷ moves ts

abbrev pub logs : {D : Type 0} → List Logged → List (Note D)
logs [] = []
logs (l ∷ ls) = protected_log l ∷ logs ls

-- Is the name in one of the three lists of the configuration?
abbrev pub is_configured : {D : Type 0} → Host → DaemonConfig D → List ℕ → Bool
is_configured host c name =
    contains host.same_name c.processes.critical_processes name
    || contains host.same_name c.processes.batch_processes name
    || contains host.same_name c.processes.protected_processes name

-- The state after the actuator has run.
abbrev pub managed : {D W : Type 0} → Daemon D → Managed D W → Ran D W
managed d m = record {
  daemon = record d { manager = m.manager };
  world = m.world;
  notes = moves m.reported;
}

-- `ToStateMachineConfig`
unfoldable pub to_machine_config : {D : Type 0} → DaemonConfig D → MachineConfig D
to_machine_config c = record {
  throttle_percent = c.thresholds.high.percent;
  throttle_samples = c.thresholds.high.consecutive_samples;
  escalate_percent = c.thresholds.critical.percent;
  escalate_samples = c.thresholds.critical.consecutive_samples;
  recover_percent = c.thresholds.low.percent;
  recover_samples = c.thresholds.low.consecutive_samples;
}
