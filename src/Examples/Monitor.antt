-- ===== src/Examples/Monitor.antt =====
-- Examples of src/telemetry/ProcessMonitor.cpp and CpuMath.cpp: process 5 has exited, process 7 has
-- started under the same name.
use thread_haul_daemon.Base.{
  ℕ, ◌+◌, ◌≡◌, ◌==◌, true, [], ◌∷◌, none, some, All, length, codes, eq_text, nat_real,
}
use thread_haul_daemon.Actuator.Threads.{handle}
use thread_haul_daemon.Telemetry.CpuMath.{per_core}
use thread_haul_daemon.Telemetry.Monitor.{MonitorApi, TrackedProcess, poll_tracked}
use thread_haul_daemon.Telemetry.Monitor.Ledger.{
  is_start, is_end, count_of, HasPrimed, poll_tracked_lem,
}
use thread_haul_daemon.Examples.Daemon.{whole}

abbrev api : MonitorApi ℕ
api = record {
  is_signalled = λ h w. h == 5;
  exit_code = λ h w. 3;
  close_handle = λ h w. w;
  open_process = λ pid w. (handle pid, w);
  process_times = λ h w. some (10, 20);
  now_ticks = λ w. 1000;
  io_counters = λ h w. none;
  working_set = λ h w. none;
}

abbrev tracked : TrackedProcess
tracked = record {
  name = codes "db";
  normalization = per_core;
  cores = 4;
  instances =
      (5, record { process = 5; last_cpu = 0; last_wall = 0; last_io = 0; primed = true })
      ∷ (6, record { process = 6; last_cpu = 0; last_wall = 0; last_io = 0; primed = true })
      ∷ [];
  denied = [];
  last_exited = 0;
}

poll_tracked_lem_example :
    let o = poll_tracked whole api eq_text ((codes "db", 6) ∷ (codes "db", 7) ∷ []) tracked 0 in
    (length o.0.tracked.instances + count_of is_end o.0.events
      ≡ length tracked.instances + count_of is_start o.0.events)
    × All (λ s. s.valid ≡ true → HasPrimed s.pid tracked.instances) o.1
poll_tracked_lem_example =
    poll_tracked_lem whole api eq_text ((codes "db", 6) ∷ (codes "db", 7) ∷ []) tracked 0
