-- ===== src/Examples/Telemetry.antt =====
-- Examples of src/telemetry.
use thread_haul_daemon.Base.{
  ℕ, ◌≡◌, refl, true, not, List, [], ◌∷◌, arith, keep_if, less, nat_real, nat-IsTotal,
}
use thread_haul_daemon.Actuator.Machine.{update}
use thread_haul_daemon.Telemetry.Tracker.{reset, add}
use thread_haul_daemon.Telemetry.Tracker.Lockstep.{Agrees, cause, Reports, track, update-Agrees}
use thread_haul_daemon.Telemetry.AutoPolicy.{
  AutoSettings, AutoState, normal, AutoCandidate, select_auto_targets,
}
use thread_haul_daemon.Telemetry.AutoPolicy.Selection.{Chooses, select_auto_targets-Chooses}
use thread_haul_daemon.Examples.Sim.{sim, report_job, idle_counts}

update-Agrees_example :
    let u = update sim 95 report_job idle_counts in
    Agrees (track 95 report_job u.1 reset) u.0.machine
    × (u.1 ≡ true → Reports (cause u.0.machine.state) (add 95 report_job.config reset).1)
unfolding reset
update-Agrees_example =
    update-Agrees sim 95 report_job reset idle_counts
      (record { high = refl; critical = refl; low = refl })
      (record { calm = λ e. omega arith; mild = λ e. omega arith; loaded = λ e. omega arith }) refl

abbrev settings : AutoSettings ℕ
settings = record {
  enabled = true;
  throttle_percent = 90;
  throttle_samples = 2;
  use_idle = true;
  idle_percent = 97;
  idle_samples = 3;
  recover_percent = 75;
  recover_samples = 2;
  max_processes = 3;
  min_process_cpu = 50;
}

abbrev nearly : AutoState
nearly = record { level = normal; high = 1; extreme = 0; low = 0 }

abbrev candidates : List (AutoCandidate ℕ)
candidates =
    record { pid = 8; name = []; cpu = 60 }
    ∷ record { pid = 4; name = []; cpu = 90 }
    ∷ record { pid = 6; name = []; cpu = 20 }
    ∷ record { pid = 2; name = []; cpu = 60 }
    ∷ []

select_auto_targets-Chooses_example :
    Chooses 2 (keep_if (λ c. not (less c.cpu 50)) candidates) (select_auto_targets candidates 50 2)
select_auto_targets-Chooses_example = select_auto_targets-Chooses nat-IsTotal candidates 50 2
