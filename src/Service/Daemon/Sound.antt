-- ===== src/Service/Daemon/Sound.antt =====
-- What holds of the service's state between its operations (src/service/Daemon.cpp), and that the
-- actuator's operations keep it.
use thread_haul_daemon.Base.{
  ℕ, ◌≡◌, refl, sym, ◌∙◌, subst, Bool, List, [], ◌∷◌, Option, none, some, arith, Real, some_inj,
}
use thread_haul_daemon.Actuator.Os.{Os}
use thread_haul_daemon.Actuator.Machine.{
  ProcessState, MachineConfig, Machine, force_recover_for_shutdown,
}
use thread_haul_daemon.Actuator.Machine.Identity.{IsSame, recover-IsSame}
use thread_haul_daemon.Actuator.Manager.{
  Manager, find_machine, put_machine, add_batch_process, remove_batch_process, update_all,
  force_recover_all_for_shutdown, force_process_state, release_process,
}
use thread_haul_daemon.Actuator.Manager.Protection.{
  IsValid, add-IsValid, remove-IsValid, update_all-IsValid, force-IsValid, release-IsValid,
  recover_all-IsValid, put-IsValid,
}
use thread_haul_daemon.Actuator.Manager.Kept.{force-IsLike, release-IsLike}
use thread_haul_daemon.Service.Daemon.{Daemon}
use thread_haul_daemon.Service.Daemon.Reload.{drop_found, drop_each}

-- The manager is valid, runs on the thresholds in force, and protects what the configuration lists.
pub record IsManaged {D W : Type 0} (os : Os W) (c : MachineConfig D) (listed : List (List ℕ))
    (g : Manager D) : Type 0 where
  pub valid : IsValid os g
  pub thresholds : g.config ≡ c
  pub names : g.protected_names ≡ listed

abbrev pub IsSound : {D W : Type 0} → Os W → Daemon D → Type 0
IsSound os d = IsManaged os d.effective d.config.processes.protected_processes d.manager

module _ {D W : Type 0} (os : Os W) (c : MachineConfig D) (names : List (List ℕ)) (g : Manager D)
    (w : W) (s : IsManaged os c names g) where
  pub add-IsManaged :
      (name : List ℕ) (pid : ℕ) → IsManaged os c names (add_batch_process os g w name pid).0.manager
  unfolding add_batch_process
  add-IsManaged name pid = record {
    valid = add-IsValid os g w s.valid name pid;
    thresholds = ground (arith, s.thresholds);
    names = ground (arith, s.names);
  }

  pub remove-IsManaged : (pid : ℕ) → IsManaged os c names (remove_batch_process os g w pid).manager
  unfolding remove_batch_process
  remove-IsManaged pid = record {
    valid = remove-IsValid os g w s.valid pid;
    thresholds = s.thresholds;
    names = s.names;
  }

  pub update_all-IsManaged :
      ⦃r : Real D⦄ (cpu : D) → IsManaged os c names (update_all os g w cpu).0.manager
  unfolding update_all
  update_all-IsManaged cpu = record {
    valid = update_all-IsValid os g w s.valid cpu;
    thresholds = s.thresholds;
    names = s.names;
  }

  pub recover_all-IsManaged :
      (no_load : D) → IsManaged os c names (force_recover_all_for_shutdown os g w no_load).manager
  unfolding force_recover_all_for_shutdown
  recover_all-IsManaged no_load = record {
    valid = recover_all-IsValid os g w s.valid no_load;
    thresholds = s.thresholds;
    names = s.names;
  }

  pub force-IsManaged :
      (pid : ℕ) (t : ProcessState) (cpu : D) (hold : Bool)
      → IsManaged os c names (force_process_state os g w pid t cpu hold).0.manager
  unfolding force_process_state
  force-IsManaged pid t cpu hold =
      let like = force-IsLike os g w pid t cpu hold in
      record {
        valid = force-IsValid os g w s.valid pid t cpu hold;
        thresholds = like.0 ∙ s.thresholds;
        names = like.1 ∙ s.names;
      }

  pub release-IsManaged : (pid : ℕ) → IsManaged os c names (release_process os g w pid).0.manager
  unfolding release_process
  release-IsManaged pid =
      let like = release-IsLike os g w pid in
      record {
        valid = release-IsValid os g w s.valid pid;
        thresholds = like.0 ∙ s.thresholds;
        names = like.1 ∙ s.names;
      }

  drop_found-IsManaged :
      (no_load : D) (pid : ℕ) (o : Option (Machine D))
      → find_machine pid g.machines ≡ o
      → IsManaged os c names (drop_found os no_load pid o g w).manager
  unfolding drop_found remove_batch_process
  drop_found-IsManaged no_load pid none f = s
  drop_found-IsManaged no_load pid (some m) f =
      let o = force_recover_for_shutdown os no_load m w in
      let recovered : Manager D = record g { machines = put_machine pid o.machine g.machines } in
      let same : (k : Machine D) → find_machine pid g.machines ≡ some k → IsSame k o.machine =
        λ k e.
          subst (λ x. IsSame x o.machine) (some_inj (sym f ∙ e)) (recover-IsSame os no_load m w) in
      record {
        valid =
            remove-IsValid os recovered o.world (put-IsValid os g w s.valid pid o.machine same) pid;
        thresholds = s.thresholds;
        names = s.names;
      }

pub drop_each-IsManaged :
    {D W : Type 0} (os : Os W) (c : MachineConfig D) (names : List (List ℕ)) (no_load : D)
    (pids : List ℕ) (g : Manager D) (w : W)
    → IsManaged os c names g
    → IsManaged os c names (drop_each os no_load pids g w).manager
unfolding drop_each
drop_each-IsManaged os c names no_load [] g w s = s
drop_each-IsManaged os c names no_load (pid ∷ pids) g w s =
    let found = find_machine pid g.machines in
    let one = drop_found os no_load pid found g w in
    drop_each-IsManaged os c names no_load pids one.manager one.world
      (drop_found-IsManaged os c names g w s no_load pid found refl)
