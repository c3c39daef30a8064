-- ===== src/Actuator/Manager/Protection.antt =====
-- Protected processes are never managed (src/actuator/ActuatorManager.cpp).
use thread_haul_daemon.Base.{
  ℕ, ◌≡◌, refl, sym, ap, ◌∙◌, subst, Bool, false, inl, inr, List, [], ◌∷◌, ◌++◌, map, some, arith,
  some_inj, Real, Bool-cases, Option-cases,
}
use thread_haul_daemon.Actuator.Os.{Os}
use thread_haul_daemon.Actuator.Machine.{
  ProcessState, MachineConfig, Machine, new, has_exited, set_config, force_state,
  release_manual_hold,
}
use thread_haul_daemon.Actuator.Machine.Identity.{
  IsSame, update-IsSame, force_state-IsSame, recover-IsSame,
}
use thread_haul_daemon.Actuator.Manager.{
  Manager, Managed, start, is_protected, find_machine, put_machine, add_batch_process,
  visit_protected, set_protected_process_names, remove_batch_process, visit_update, update_all,
  visit_recover, force_recover_all_for_shutdown, set_manager_config, force_found,
  force_process_state, release_found, release_process,
}
use thread_haul_daemon.Actuator.Manager.Sweeps.{
  AllMachines, IsFresh, IsUnique, sweep-All, sweep-IsUnique, erase-All, erase-IsUnique, put-All,
  put-IsUnique, find_none-IsFresh,
}

-- A machine stands under its own process id, has the configuration, and is not protected.
pub record IsEntry {D W : Type 0} (os : Os W) (names : List (List ℕ)) (c : MachineConfig D)
    (key : ℕ) (m : Machine D) : Type 0 where
  pub keyed : m.pid ≡ key
  pub unprotected : is_protected os names m.name key ≡ false
  pub configured : m.config ≡ c

pub record IsValid {D W : Type 0} (os : Os W) (g : Manager D) : Type 0 where
  pub entries : AllMachines (IsEntry os g.protected_names g.config) g.machines
  pub unique : IsUnique g.machines

IsEntry-same :
    {D W : Type 0} (os : Os W) (names : List (List ℕ)) (c : MachineConfig D) (key : ℕ)
    (m n : Machine D)
    → IsSame m n
    → IsEntry os names c key m
    → IsEntry os names c key n
IsEntry-same os names c key m n s e = record {
  keyed = s.pid ∙ e.keyed;
  unprotected = ap (λ k. is_protected os names k key) s.name ∙ e.unprotected;
  configured = s.config ∙ e.configured;
}

module _ {D W : Type 0} (os : Os W) (g : Manager D) (w : W) (v : IsValid os g) where
  pub add-IsValid :
      (name : List ℕ) (pid : ℕ) → IsValid os (add_batch_process os g w name pid).0.manager
  unfolding add_batch_process new
  add-IsValid name pid = elim (Bool-cases (is_protected os g.protected_names name pid)) [
    | inl p ↦ rw p v
    | inr u ↦ elim (Option-cases (find_machine pid g.machines)) [
      | inl absent ↦
          rw (u, absent)
            (record {
              entries = (record { keyed = refl; unprotected = u; configured = refl }, v.entries);
              unique = (find_none-IsFresh pid g.machines absent, v.unique);
            })
      | inr (m, present) ↦ rw (u, present) v
    ]
  ]

  visit_protected-IsEntry :
      (no_load : D) (names : List (List ℕ)) (key : ℕ) (m : Machine D) (w' : W) (n : Machine D)
      → IsEntry os g.protected_names g.config key m
      → (visit_protected os g w no_load names key m w').kept ≡ some n
      → IsEntry os names g.config key n
  unfolding visit_protected
  visit_protected-IsEntry no_load names key m w' n e k = ground arith

  pub set_protected-IsValid :
      (no_load : D) (names : List (List ℕ))
      → IsValid os (set_protected_process_names os g w no_load names).manager
  unfolding set_protected_process_names
  set_protected-IsValid no_load names = record {
    entries =
        sweep-All (visit_protected os g w no_load names) (IsEntry os g.protected_names g.config)
          (IsEntry os names g.config) (visit_protected-IsEntry no_load names) g.machines w
          v.entries;
    unique = sweep-IsUnique (visit_protected os g w no_load names) g.machines w v.unique;
  }

  pub remove-IsValid : (pid : ℕ) → IsValid os (remove_batch_process os g w pid).manager
  unfolding remove_batch_process
  remove-IsValid pid = record {
    entries = erase-All (IsEntry os g.protected_names g.config) pid g.machines v.entries;
    unique = erase-IsUnique pid g.machines v.unique;
  }

  visit_update-IsEntry :
      ⦃r : Real D⦄ (cpu : D) (key : ℕ) (m : Machine D) (w' : W) (n : Machine D)
      → IsEntry os g.protected_names g.config key m
      → (visit_update os g w cpu key m w').kept ≡ some n
      → IsEntry os g.protected_names g.config key n
  unfolding visit_update
  visit_update-IsEntry cpu key m w' n e k =
      let same = IsEntry-same os g.protected_names g.config key m _ (update-IsSame os cpu m w') e in
      elim (Bool-cases (has_exited os m w')) [
        | inl gone ↦ cc (rw gone at k)
        | inr here ↦
            subst (IsEntry os g.protected_names g.config key) (some_inj (rw here at k)) same
      ]

  pub update_all-IsValid : ⦃r : Real D⦄ (cpu : D) → IsValid os (update_all os g w cpu).0.manager
  unfolding update_all
  update_all-IsValid cpu = record {
    entries =
        sweep-All (visit_update os g w cpu) (IsEntry os g.protected_names g.config)
          (IsEntry os g.protected_names g.config) (visit_update-IsEntry cpu) g.machines w v.entries;
    unique = sweep-IsUnique (visit_update os g w cpu) g.machines w v.unique;
  }

  visit_recover-IsEntry :
      (no_load : D) (key : ℕ) (m : Machine D) (w' : W) (n : Machine D)
      → IsEntry os g.protected_names g.config key m
      → (visit_recover os g w no_load key m w').kept ≡ some n
      → IsEntry os g.protected_names g.config key n
  unfolding visit_recover
  visit_recover-IsEntry no_load key m w' n e k =
      subst (IsEntry os g.protected_names g.config key) (some_inj k)
        (IsEntry-same os g.protected_names g.config key m _ (recover-IsSame os no_load m w') e)

  pub recover_all-IsValid :
      (no_load : D) → IsValid os (force_recover_all_for_shutdown os g w no_load).manager
  unfolding force_recover_all_for_shutdown
  recover_all-IsValid no_load = record {
    entries =
        sweep-All (visit_recover os g w no_load) (IsEntry os g.protected_names g.config)
          (IsEntry os g.protected_names g.config) (visit_recover-IsEntry no_load) g.machines w
          v.entries;
    unique = sweep-IsUnique (visit_recover os g w no_load) g.machines w v.unique;
  }

  configure-All :
      (c : MachineConfig D) (ms : List (ℕ × Machine D))
      → AllMachines (IsEntry os g.protected_names g.config) ms
      → AllMachines (IsEntry os g.protected_names c) (map (λ e. (e.0, set_config c e.1)) ms)
  unfolding set_config
  configure-All c [] h = tt
  configure-All c (e ∷ ms) h = (
    record { keyed = h.0.keyed; unprotected = h.0.unprotected; configured = refl },
    configure-All c ms h.1,
  )

  configure-IsFresh :
      (c : MachineConfig D) (key : ℕ) (ms : List (ℕ × Machine D))
      → IsFresh key ms
      → IsFresh key (map (λ e. (e.0, set_config c e.1)) ms)
  configure-IsFresh c key [] h = tt
  configure-IsFresh c key (e ∷ ms) h = (h.0, configure-IsFresh c key ms h.1)

  configure-IsUnique :
      (c : MachineConfig D) (ms : List (ℕ × Machine D))
      → IsUnique ms
      → IsUnique (map (λ e. (e.0, set_config c e.1)) ms)
  configure-IsUnique c [] u = tt
  configure-IsUnique c (e ∷ ms) u = (configure-IsFresh c e.0 ms u.0, configure-IsUnique c ms u.1)

  pub set_config-IsValid : (c : MachineConfig D) → IsValid os (set_manager_config os g w c).manager
  unfolding set_manager_config
  set_config-IsValid c = record {
    entries = configure-All c g.machines v.entries;
    unique = configure-IsUnique c g.machines v.unique;
  }

  pub put-IsValid :
      (pid : ℕ) (n : Machine D)
      → ((m : Machine D) → find_machine pid g.machines ≡ some m → IsSame m n)
      → IsValid os (record g { machines = put_machine pid n g.machines })
  put-IsValid pid n same = record {
    entries =
        put-All (IsEntry os g.protected_names g.config) pid n g.machines
          (λ m f e. IsEntry-same os g.protected_names g.config pid m n (same m f) e) v.entries;
    unique = put-IsUnique pid n g.machines v.unique;
  }

  pub force-IsValid :
      (pid : ℕ) (s : ProcessState) (cpu : D) (hold : Bool)
      → IsValid os (force_process_state os g w pid s cpu hold).0.manager
  unfolding force_process_state force_found
  force-IsValid pid s cpu hold = elim (Option-cases (find_machine pid g.machines)) [
    | inl absent ↦ rw absent v
    | inr (m, found) ↦
        let n = (force_state os s cpu hold m w).machine in
        subst (λ o. IsValid os (force_found os g w o pid s cpu hold).0.manager) (sym found)
          (put-IsValid pid n (λ k e.
            subst (λ x. IsSame x n) (some_inj (sym found ∙ e))
              (force_state-IsSame os s cpu hold m w)))
  ]

  pub release-IsValid : (pid : ℕ) → IsValid os (release_process os g w pid).0.manager
  unfolding release_process release_found release_manual_hold
  release-IsValid pid = elim (Option-cases (find_machine pid g.machines)) [
    | inl absent ↦ rw absent v
    | inr (m, found) ↦
        let n = release_manual_hold m in
        subst (λ o. IsValid os (release_found os g w o pid).0.manager) (sym found)
          (put-IsValid pid n (λ k e.
            subst (λ x. IsSame x n) (some_inj (sym found ∙ e))
              (record { name = refl; pid = refl; config = refl })))
  ]

-- A call of a method that changes the manager.
pub data Call (D : Type 0) : Type 0 where
  adds : List ℕ → ℕ → Call D
  protects : List (List ℕ) → Call D
  removes : ℕ → Call D
  updates : D → Call D
  recovers : Call D
  configures : MachineConfig D → Call D
  forces : ℕ → ProcessState → D → Bool → Call D
  releases : ℕ → Call D

module _ {D W : Type 0} (os : Os W) (no_load : D) ⦃r : Real D⦄ where
  unfoldable pub perform : Call D → Manager D → W → Managed D W
  perform (adds name pid) g w = (add_batch_process os g w name pid).0
  perform (protects names) g w = set_protected_process_names os g w no_load names
  perform (removes pid) g w = remove_batch_process os g w pid
  perform (updates cpu) g w = (update_all os g w cpu).0
  perform recovers g w = force_recover_all_for_shutdown os g w no_load
  perform (configures c) g w = set_manager_config os g w c
  perform (forces pid s cpu hold) g w = (force_process_state os g w pid s cpu hold).0
  perform (releases pid) g w = (release_process os g w pid).0

  unfoldable pub perform_all : List (Call D) → Manager D → W → Managed D W
  perform_all [] g w = record { manager = g; world = w; reported = [] }
  perform_all (c ∷ cs) g w =
      let o = perform c g w in
      let rest = perform_all cs o.manager o.world in
      record rest { reported = o.reported ++ rest.reported }

  perform-IsValid :
      (c : Call D) (g : Manager D) (w : W) → IsValid os g → IsValid os (perform c g w).manager
  unfolding perform
  perform-IsValid (adds name pid) g w v = add-IsValid os g w v name pid
  perform-IsValid (protects names) g w v = set_protected-IsValid os g w v no_load names
  perform-IsValid (removes pid) g w v = remove-IsValid os g w v pid
  perform-IsValid (updates cpu) g w v = update_all-IsValid os g w v cpu
  perform-IsValid recovers g w v = recover_all-IsValid os g w v no_load
  perform-IsValid (configures c) g w v = set_config-IsValid os g w v c
  perform-IsValid (forces pid s cpu hold) g w v = force-IsValid os g w v pid s cpu hold
  perform-IsValid (releases pid) g w v = release-IsValid os g w v pid

  perform_all-IsValid :
      (cs : List (Call D)) (g : Manager D) (w : W)
      → IsValid os g
      → IsValid os (perform_all cs g w).manager
  unfolding perform_all
  perform_all-IsValid [] g w v = v
  perform_all-IsValid (c ∷ cs) g w v =
      let o = perform c g w in perform_all-IsValid cs o.manager o.world (perform-IsValid c g w v)

  -- After any calls of its methods, in any order, every process that a new manager manages is
  -- unprotected under the protection list then in force, stands under its own process id, once
  -- only, and has the manager's current thresholds.
  pub perform_all-start-IsValid :
      (c : MachineConfig D) (observed : Bool) (cs : List (Call D)) (w : W)
      → IsValid os (perform_all cs (start c observed) w).manager
  unfolding start
  perform_all-start-IsValid c observed cs w =
      perform_all-IsValid cs (start c observed) w (record { entries = tt; unique = tt })
