-- ===== src/Actuator/Manager/AtRest.antt =====
-- Overrides that lower nothing (src/actuator/ActuatorManager.cpp).
use thread_haul_daemon.Base.{
  ℕ, ◌≡◌, refl, sym, ◌∙◌, subst, Bool, List, Option, none, some, some_inj,
}
use thread_haul_daemon.Actuator.Os.{Os}
use thread_haul_daemon.Actuator.Machine.{normal, Machine, force_state, release_manual_hold}
use thread_haul_daemon.Actuator.Machine.Override.{force_state_lem}
use thread_haul_daemon.Actuator.Manager.{
  Manager, find_machine, force_found, force_process_state, release_found, release_process,
}
use thread_haul_daemon.Actuator.Manager.Sweeps.{AllMachines, put-All}

-- Every machine is normal.
abbrev pub AreNormal : {D : Type 0} → List (ℕ × Machine D) → Type 0
AreNormal ms = AllMachines (λ _ m. m.state ≡ normal) ms

module _ {D W : Type 0} (os : Os W) (g : Manager D) (w : W) (h : AreNormal g.machines) where
  force_found-AreNormal :
      (o : Option (Machine D)) (pid : ℕ) (cpu : D) (hold : Bool)
      → AreNormal (force_found os g w o pid normal cpu hold).0.manager.machines
  unfolding force_found
  force_found-AreNormal none pid cpu hold = h
  force_found-AreNormal (some m) pid cpu hold =
      put-All (λ _ n. n.state ≡ normal) pid (force_state os normal cpu hold m w).machine g.machines
        (λ _ _ _. (force_state_lem os normal cpu hold m w).0) h

  pub force-AreNormal :
      (pid : ℕ) (cpu : D) (hold : Bool)
      → AreNormal (force_process_state os g w pid normal cpu hold).0.manager.machines
  unfolding force_process_state
  force-AreNormal pid cpu hold = force_found-AreNormal (find_machine pid g.machines) pid cpu hold

  release_found-AreNormal :
      (o : Option (Machine D)) (pid : ℕ)
      → find_machine pid g.machines ≡ o
      → AreNormal (release_found os g w o pid).0.manager.machines
  unfolding release_found release_manual_hold
  release_found-AreNormal none pid f = h
  release_found-AreNormal (some m) pid f =
      put-All (λ _ n. n.state ≡ normal) pid (release_manual_hold m) g.machines
        (λ k e s. subst (λ (x : Machine D). x.state ≡ normal) (some_inj (sym e ∙ f)) s) h

  pub release-AreNormal : (pid : ℕ) → AreNormal (release_process os g w pid).0.manager.machines
  unfolding release_process
  release-AreNormal pid = release_found-AreNormal (find_machine pid g.machines) pid refl
