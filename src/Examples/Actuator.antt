-- ===== src/Examples/Actuator.antt =====
-- Examples of src/actuator.
use thread_haul_daemon.Base.{ℕ, ◌≤◌, ◌≡◌, refl, true, [], ◌∷◌, arith, Any, nat_real}
use thread_haul_daemon.Actuator.Threads.{
  suspend_all_threads, resume_all_threads, enumerate_thread_ids,
}
use thread_haul_daemon.Actuator.Threads.Counts.{IsBalanced, all_threads-IsBalanced}
use thread_haul_daemon.Actuator.Threads.Restore.{suspend-resume}
use thread_haul_daemon.Actuator.Machine.{
  normal, throttled, suspended, Machine, transition_to, update, run,
}
use thread_haul_daemon.Actuator.Machine.Steps.{Moved, update-Moved}
use thread_haul_daemon.Actuator.Machine.Settled.{IsSettled, HasPositiveSamples, update-IsSettled}
use thread_haul_daemon.Actuator.Machine.Timing.{suspend_takes}
use thread_haul_daemon.Actuator.Machine.Response.{
  IsOrdered, critical_load-suspends, low_load-recovers,
}
use thread_haul_daemon.Actuator.Machine.Override.{run_held}
use thread_haul_daemon.Actuator.Manager.{
  Manager, start, is_protected, always_protected_names, set_protected_process_names,
}
use thread_haul_daemon.Actuator.Manager.Protection.{
  adds, protects, updates, IsValid, perform_all, perform_all-start-IsValid,
}
use thread_haul_daemon.Actuator.Manager.Actions.{set_protected-reports, Recovered}
use thread_haul_daemon.Examples.Sim.{sim_threads, sim_laws, sim, limits, report_job, idle_counts}

suspend-resume_example :
    (resume_all_threads sim_threads 10 (suspend_all_threads sim_threads 10 idle_counts).1).1 2 ≡ 0
unfolding suspend_all_threads resume_all_threads
suspend-resume_example =
    suspend-resume sim_threads sim_laws 10 idle_counts refl
      (record { none_failed = refl; none_skipped = refl })
      (record { none_failed = refl; none_skipped = refl }) 2

all_threads-IsBalanced_example :
    IsBalanced 2 (suspend_all_threads sim_threads 10 idle_counts).0
    × IsBalanced 2 (resume_all_threads sim_threads 10 idle_counts).0
unfolding enumerate_thread_ids
all_threads-IsBalanced_example = all_threads-IsBalanced sim_threads 10 idle_counts

positive : HasPositiveSamples limits
positive = record { throttle = omega arith; escalate = omega arith; recover = omega arith }

ordered : IsOrdered limits
ordered = record { recover_throttle = refl; throttle_escalate = refl }

-- Four samples of 95 suspend the process.
suspended_run : (run sim (95 ∷ 95 ∷ 95 ∷ 95 ∷ []) report_job idle_counts).machine.state ≡ suspended
unfolding run update suspend_all_threads transition_to
suspended_run = refl

update-Moved_example :
    let u = update sim 95 report_job idle_counts in Moved report_job idle_counts u.0 u.1
update-Moved_example = update-Moved sim 95 report_job idle_counts

update-IsSettled_example : IsSettled (update sim 95 report_job idle_counts).0.machine
update-IsSettled_example = update-IsSettled sim 95 report_job idle_counts positive refl

suspend_takes_example :
    let n = (run sim (95 ∷ 95 ∷ 95 ∷ 95 ∷ []) report_job idle_counts).machine in
    (n.state ≡ throttled → 2 ≤ 4) × (n.state ≡ suspended → 4 ≤ 4)
suspend_takes_example = suspend_takes sim (95 ∷ 95 ∷ 95 ∷ 95 ∷ []) report_job idle_counts refl refl

critical_load-suspends_example :
    (run sim (95 ∷ 91 ∷ 90 ∷ 99 ∷ []) report_job idle_counts).machine.state ≡ suspended
critical_load-suspends_example =
    critical_load-suspends sim limits ordered (95 ∷ 91 ∷ 90 ∷ 99 ∷ []) report_job idle_counts
      positive (refl, refl, refl, refl) (refl, (refl, (refl, (refl, tt)))) refl

abbrev stopped_job : Machine ℕ
stopped_job = record report_job { state = suspended }

low_load-recovers_example : (run sim (10 ∷ 59 ∷ []) stopped_job idle_counts).machine.state ≡ normal
low_load-recovers_example =
    low_load-recovers sim limits ordered (10 ∷ 59 ∷ []) stopped_job idle_counts positive
      (refl, refl, (λ e. cc), refl) (refl, (refl, tt)) refl

abbrev held_job : Machine ℕ
held_job = record report_job { manual_hold = true }

run_held_example :
    let o = run sim (95 ∷ 95 ∷ 95 ∷ []) held_job idle_counts in
    (o.machine.state ≡ normal)
    × (o.machine.manual_hold ≡ true)
    × (o.world ≡ idle_counts)
    × (o.reported ≡ [])
run_held_example = run_held sim (95 ∷ 95 ∷ 95 ∷ []) held_job idle_counts refl

perform_all-start-IsValid_example :
    IsValid sim
      (perform_all sim 0
        (adds (114 ∷ []) 10 ∷ updates 95 ∷ protects ((114 ∷ []) ∷ []) ∷ [])
        (start limits true)
        idle_counts).manager
perform_all-start-IsValid_example =
    perform_all-start-IsValid sim 0 limits true
      (adds (114 ∷ []) 10 ∷ updates 95 ∷ protects ((114 ∷ []) ∷ []) ∷ []) idle_counts

abbrev one_job : Manager ℕ
one_job = record {
  config = limits;
  observed = true;
  protected_names = [];
  machines = (10, stopped_job) ∷ [];
}

set_protected-reports_example :
    Any
      (Recovered 10)
      (set_protected_process_names sim one_job idle_counts 0 ((114 ∷ []) ∷ [])).reported
unfolding is_protected always_protected_names
set_protected-reports_example =
    (set_protected-reports sim one_job idle_counts 0 ((114 ∷ []) ∷ [])).0 refl refl (λ e. cc)
