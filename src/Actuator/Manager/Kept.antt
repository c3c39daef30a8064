-- ===== src/Actuator/Manager/Kept.antt =====
-- What forcing and releasing one process leave alone (src/actuator/ActuatorManager.cpp).
use thread_haul_daemon.Base.{ℕ, ◌≡◌, refl, Bool, Option, none, some}
use thread_haul_daemon.Actuator.Os.{Os}
use thread_haul_daemon.Actuator.Machine.{ProcessState, Machine}
use thread_haul_daemon.Actuator.Manager.{
  Manager, find_machine, force_found, force_process_state, release_found, release_process,
}

-- The same thresholds and protection list.
abbrev pub IsLike : {D : Type 0} → Manager D → Manager D → Type 0
IsLike g h = (h.config ≡ g.config) × (h.protected_names ≡ g.protected_names)

module _ {D W : Type 0} (os : Os W) (g : Manager D) (w : W) where
  force_found-IsLike :
      (o : Option (Machine D)) (pid : ℕ) (t : ProcessState) (cpu : D) (hold : Bool)
      → IsLike g (force_found os g w o pid t cpu hold).0.manager
  unfolding force_found
  force_found-IsLike none pid t cpu hold = (refl, refl)
  force_found-IsLike (some m) pid t cpu hold = (refl, refl)

  pub force-IsLike :
      (pid : ℕ) (t : ProcessState) (cpu : D) (hold : Bool)
      → IsLike g (force_process_state os g w pid t cpu hold).0.manager
  unfolding force_process_state
  force-IsLike pid t cpu hold = force_found-IsLike (find_machine pid g.machines) pid t cpu hold

  release_found-IsLike :
      (o : Option (Machine D)) (pid : ℕ) → IsLike g (release_found os g w o pid).0.manager
  unfolding release_found
  release_found-IsLike none pid = (refl, refl)
  release_found-IsLike (some m) pid = (refl, refl)

  pub release-IsLike : (pid : ℕ) → IsLike g (release_process os g w pid).0.manager
  unfolding release_process
  release-IsLike pid = release_found-IsLike (find_machine pid g.machines) pid
