-- ===== src/Service/Daemon/Reload/Adopted.antt =====
-- What a reload does to a process that a command made managed (src/service/Daemon.cpp).
use thread_haul_daemon.Base.{
  ℕ, ◌≡◌, ◌≢◌, refl, sym, ap, ◌∙◌, subst, Bool, true, false, not, List, [], ◌∷◌, Option, none, some,
  ◌==◌, ==_iff, and-true_parts, ==_ne, ℕ_discrete, by_test, Real, All, Bool-cases, inl, inr, map,
  some_inj, either_way,
}
use thread_haul_daemon.Actuator.Os.{Os}
use thread_haul_daemon.Actuator.Machine.{
  MachineConfig, Machine, set_config, force_recover_for_shutdown,
}
use thread_haul_daemon.Actuator.Manager.{
  Manager, Visit, sweep, keep_entry, find_machine, put_machine, is_protected, visit_protected,
  remove_batch_process, set_manager_config, set_protected_process_names,
}
use thread_haul_daemon.Actuator.Manager.Lookup.{find_put_other, find_erase_other}
use thread_haul_daemon.Telemetry.Adaptive.{Arithmetic}
use thread_haul_daemon.Config.Runtime.{DaemonConfig}
use thread_haul_daemon.Service.AutoProtect.{ProtectApi}
use thread_haul_daemon.Service.Daemon.{Ran, Host, Daemon, holds, contains}
use thread_haul_daemon.Service.Daemon.Commands.{handle_command}
use thread_haul_daemon.Service.Daemon.Commands.Critical.{
  IsCritical, IsSpared, handle_command-IsSpared,
}
use thread_haul_daemon.Service.Daemon.Reload.{
  Around, is_dropped, dropped_pids, drop_found, drop_each, apply_config,
}
use thread_haul_daemon.Service.Daemon.Events.{
  Event, survives, command, checked, polled, handle_event, handle_events,
}

find_configured :
    {D : Type 0} (c : MachineConfig D) (pid : ℕ) (m : Machine D) (ms : List (ℕ × Machine D))
    → find_machine pid ms ≡ some m
    → find_machine pid (map (λ e. (e.0, set_config c e.1)) ms) ≡ some (set_config c m)
unfolding find_machine
find_configured c pid m [] f = cc
find_configured c pid m ((key, k) ∷ ms) f = elim (Bool-cases (key == pid)) [
  | inl yes_ ↦ rw yes_ (ap (λ x. some (set_config c x)) (some_inj (rw yes_ at f)))
  | inr no_ ↦ rw no_ (find_configured c pid m ms (rw no_ at f))
]

find_keep_other :
    {D : Type 0} (pid key : ℕ) (o : Option (Machine D)) (ms : List (ℕ × Machine D))
    → key == pid ≡ false
    → find_machine pid (keep_entry key o ms) ≡ find_machine pid ms
unfolding find_machine
find_keep_other pid key none ms h = refl
find_keep_other pid key (some k) ms h = rw h refl

module _ {D W : Type 0} where
  -- A loop that keeps a machine as it is, wherever it stands.
  find_sweep :
      (visit : ℕ → Machine D → W → Visit D W) (pid : ℕ) (m : Machine D) (ms : List (ℕ × Machine D))
      (w : W)
      → ((w' : W) → (visit pid m w').kept ≡ some m)
      → find_machine pid ms ≡ some m
      → find_machine pid (sweep visit ms w).machines ≡ some m
  unfolding find_machine sweep
  find_sweep visit pid m [] w keeps f = cc
  find_sweep visit pid m ((key, k) ∷ ms) w keeps f = elim (ℕ_discrete key pid) [
    | no other ↦
        let no_ = ==_ne key pid other in
        let v = visit key k w in
        find_keep_other pid key v.kept (sweep visit ms v.world).machines no_
        ∙ find_sweep visit pid m ms v.world keeps (rw no_ at f)
    | yes same ↦
        let yes_ = (==_iff key pid).1 same in
        let v = visit key k w in
        let here : k ≡ m = some_inj (rw yes_ at f) in
        let kept : v.kept ≡ some m =
          ap (λ i. (visit i k w).kept) same ∙ ap (λ x. (visit pid x w).kept) here ∙ keeps w in
        subst
          (λ (o : Option (Machine D)).
            find_machine pid (keep_entry key o (sweep visit ms v.world).machines) ≡ some m)
          (sym kept) (rw yes_ refl)
  ]

module _ {D W : Type 0} (os : Os W) (no_load : D) (pid : ℕ) where
  drop_found_other :
      (q : ℕ) (o : Option (Machine D)) (g : Manager D) (w : W)
      → q ≢ pid
      → find_machine pid (drop_found os no_load q o g w).manager.machines
        ≡ find_machine pid g.machines
  unfolding drop_found remove_batch_process
  drop_found_other q none g w ne = refl
  drop_found_other q (some m) g w ne =
      let o = force_recover_for_shutdown os no_load m w in
      find_erase_other pid q (put_machine q o.machine g.machines) ne
      ∙ find_put_other pid q o.machine g.machines ne

  drop_each_other :
      (qs : List ℕ) (g : Manager D) (w : W)
      → All (λ q. q ≢ pid) qs
      → find_machine pid (drop_each os no_load qs g w).manager.machines
        ≡ find_machine pid g.machines
  unfolding drop_each
  drop_each_other [] g w h = refl
  drop_each_other (q ∷ qs) g w h =
      let one = drop_found os no_load q (find_machine q g.machines) g w in
      drop_each_other qs one.manager one.world h.1
      ∙ drop_found_other q (find_machine q g.machines) g w h.0

dropped_pids_other :
    {D : Type 0} (host : Host) (c : DaemonConfig D) (adhoc : List ℕ) (pid : ℕ)
    (ms : List (ℕ × Machine D))
    → holds pid adhoc ≡ true
    → All (λ q. q ≢ pid) (dropped_pids host c adhoc ms)
unfolding dropped_pids
dropped_pids_other host c adhoc pid [] h = tt
dropped_pids_other host c adhoc pid ((key, m) ∷ ms) h =
    let rest = dropped_pids_other host c adhoc pid ms h in
    by_test (All (λ q. q ≢ pid)) (is_dropped host c adhoc m)
      (λ e. (
        λ same.
            let kept : holds m.pid adhoc ≡ true = subst (λ q. holds q adhoc ≡ true) (sym same) h in
            let parts =
              and-true_parts (not (contains host.same_name c.processes.batch_processes m.name))
                (not (holds m.pid adhoc)) e in
            cc (rw kept at parts.1),
        rest,
      ))
      (λ _. rest)

module _ {D W : Type 0} ⦃real : Real D⦄ (ar : Arithmetic D) (os : Os W) (api : ProtectApi W)
    (host : Host) where
  visit_unprotected :
      (g : Manager D) (w : W) (names : List (List ℕ)) (pid : ℕ) (m : Machine D) (w' : W)
      → is_protected os names m.name pid ≡ false
      → (visit_protected os g w (ar.nat 0) names pid m w').kept ≡ some m
  unfolding visit_protected
  visit_unprotected g w names pid m w' u = rw u refl

  apply_config-keeps :
      (around : Around D) (c : DaemonConfig D) (d : Daemon D) (w : W) (pid : ℕ) (m : Machine D)
      → find_machine pid d.manager.machines ≡ some m
      → holds pid d.adhoc ≡ true
      → is_protected os c.processes.protected_processes m.name pid ≡ false
      → let after = (apply_config ar os api host around c d w).daemon in
        find_machine pid after.manager.machines ≡ some (set_config after.effective m)
  unfolding apply_config set_protected_process_names set_manager_config set_config
  apply_config-keeps around c d w pid m f adhoc free =
      let after = (apply_config ar os api host around c d w).daemon in
      let g = (set_manager_config os d.manager w after.effective) in
      let names = c.processes.protected_processes in
      let guarded = set_protected_process_names os g.manager g.world (ar.nat 0) names in
      drop_each_other os (ar.nat 0) pid (dropped_pids host c d.adhoc guarded.manager.machines)
        guarded.manager guarded.world
        (dropped_pids_other host c d.adhoc pid guarded.manager.machines adhoc)
      ∙ find_sweep (visit_protected os g.manager g.world (ar.nat 0) names) pid
          (set_config after.effective m) g.manager.machines g.world
          (λ w'.
            visit_unprotected g.manager g.world names pid (set_config after.effective m) w' free)
          (find_configured after.effective pid m d.manager.machines f)

  -- A command of whose snapshot the process, wherever it stands in it, is critical.
  abbrev IsCommandOn : DaemonConfig D → ℕ → Event D → Type 0
  IsCommandOn c pid (command source remote snapshot line) = All (IsCritical host c pid) snapshot
  IsCommandOn c pid _ = ⊥

  handle_events-IsSpared :
      (c : DaemonConfig D) (pid : ℕ) (es : List (Event D)) (d : Daemon D) (w : W)
      → d.config ≡ c
      → All (IsCommandOn c pid) es
      → IsSpared pid d (handle_events ar os api host es d w).0.daemon
  unfolding handle_events handle_event
  handle_events-IsSpared c pid [] d w e h = (refl, refl)
  handle_events-IsSpared c pid (checked file around ∷ es) d w e h = absurd h.0
  handle_events-IsSpared c pid (polled i ∷ es) d w e h = absurd h.0
  handle_events-IsSpared c pid (command source remote snapshot line ∷ es) d w e h =
      let critical = subst (λ x. All (IsCritical host x pid) snapshot) (sym e) h.0 in
      let done = handle_command os api host remote snapshot line d w in
      let one = handle_command-IsSpared os api host pid remote snapshot line d w critical in
      let rest = handle_events-IsSpared c pid es done.ran.daemon done.ran.world (one.0 ∙ e) h.1 in
      either_way (λ (k : Ran D W × Bool). IsSpared pid d k.0.daemon) (survives source done.reply)
        (rest.0 ∙ one.0, rest.1 ∙ one.1) one

  -- A process that a command made managed, and that the new configuration does not protect, keeps
  -- its state and its hold through a reload. Where the new configuration makes it critical, by its
  -- name in each snapshot, no command lines that follow one another change its machine, whatever they
  -- are and wherever they come from: not even `resume` and `release`. Polls and further reloads
  -- between them are not considered.
  pub apply_config-stuck :
      (around : Around D) (c : DaemonConfig D) (d : Daemon D) (w : W) (pid : ℕ) (m : Machine D)
      → find_machine pid d.manager.machines ≡ some m
      → holds pid d.adhoc ≡ true
      → is_protected os c.processes.protected_processes m.name pid ≡ false
      → (es : List (Event D)) (w' : W) → All (IsCommandOn c pid) es
      → let reloaded = (apply_config ar os api host around c d w).daemon in
        let after = (handle_events ar os api host es reloaded w').0.daemon in
        find_machine pid after.manager.machines ≡ some (set_config reloaded.effective m)
  unfolding apply_config
  apply_config-stuck around c d w pid m f adhoc free es w' critical =
      let reloaded = (apply_config ar os api host around c d w).daemon in
      (handle_events-IsSpared c pid es reloaded w' refl critical).1
      ∙ apply_config-keeps around c d w pid m f adhoc free
