-- ===== src/Actuator/Manager/Lookup.antt =====
-- What `Find` finds after the manager's methods (src/actuator/ActuatorManager.cpp).
use thread_haul_daemon.Base.{
  ℕ, ◌≡◌, ◌≢◌, refl, sym, ap, ◌∙◌, Bool, false, List, [], ◌∷◌, Option, none, some, ◌==◌,
  if◌then◌else◌, ℕ_discrete, ==_iff, ==_ne, ==_self, some_inj, is_some, inl, inr, Bool-cases,
  either_way,
}
use thread_haul_daemon.Actuator.Os.{Os}
use thread_haul_daemon.Actuator.Machine.{
  ProcessState, Machine, new, force_state, release_manual_hold,
}
use thread_haul_daemon.Actuator.Manager.{
  Manager, Managed, find_machine, put_machine, erase_machine, is_protected, add_batch_process,
  force_found, force_process_state, release_found, release_process,
}

module _ {D : Type 0} where
  pub find_put_same :
      (pid : ℕ) (m n : Machine D) (ms : List (ℕ × Machine D))
      → find_machine pid ms ≡ some m
      → find_machine pid (put_machine pid n ms) ≡ some n
  unfolding find_machine put_machine
  find_put_same pid m n [] e = cc
  find_put_same pid m n ((key, k) ∷ ms) e = elim (Bool-cases (key == pid)) [
    | inl yes_ ↦ rw (yes_, yes_) refl
    | inr no_ ↦ rw (no_, no_) (find_put_same pid m n ms (rw no_ at e))
  ]

  pub find_put_other :
      (p q : ℕ) (n : Machine D) (ms : List (ℕ × Machine D))
      → q ≢ p
      → find_machine p (put_machine q n ms) ≡ find_machine p ms
  unfolding find_machine put_machine
  find_put_other p q n [] ne = refl
  find_put_other p q n ((key, k) ∷ ms) ne = elim (ℕ_discrete key q) [
    | yes e ↦
        let here = (==_iff key q).1 e in
        let there = ==_ne key p (λ s. ne (sym e ∙ s)) in rw (here, there) refl
    | no d ↦ rw (==_ne key q d) (
        ap (λ (o : Option (Machine D)). if key == p then some k else o)
          (find_put_other p q n ms ne))
  ]

  pub find_erase_other :
      (p q : ℕ) (ms : List (ℕ × Machine D))
      → q ≢ p
      → find_machine p (erase_machine q ms) ≡ find_machine p ms
  unfolding find_machine erase_machine
  find_erase_other p q [] ne = refl
  find_erase_other p q ((key, k) ∷ ms) ne = elim (ℕ_discrete key q) [
    | yes e ↦
        let here = (==_iff key q).1 e in
        let there = ==_ne key p (λ s. ne (sym e ∙ s)) in rw (here, there) refl
    | no d ↦ rw (==_ne key q d) (
        ap (λ (o : Option (Machine D)). if key == p then some k else o)
          (find_erase_other p q ms ne))
  ]

module _ {D W : Type 0} (os : Os W) (g : Manager D) (w : W) where
  pub add_other :
      (name : List ℕ) (p q : ℕ)
      → q ≢ p
      → find_machine p (add_batch_process os g w name q).0.manager.machines
        ≡ find_machine p g.machines
  unfolding add_batch_process find_machine
  add_other name p q ne =
      let P : Managed D W × Bool → Type 0 =
        λ o. find_machine p o.0.manager.machines ≡ find_machine p g.machines in
      either_way P (is_protected os g.protected_names name q) refl
        (either_way P (is_some (find_machine q g.machines)) refl (rw (==_ne q p ne) refl))

  force_found_other :
      (o : Option (Machine D)) (p q : ℕ) (t : ProcessState) (cpu : D) (hold : Bool)
      → q ≢ p
      → find_machine p (force_found os g w o q t cpu hold).0.manager.machines
        ≡ find_machine p g.machines
  unfolding force_found
  force_found_other none p q t cpu hold ne = refl
  force_found_other (some m) p q t cpu hold ne =
      find_put_other p q (force_state os t cpu hold m w).machine g.machines ne

  pub force_other :
      (p q : ℕ) (t : ProcessState) (cpu : D) (hold : Bool)
      → q ≢ p
      → find_machine p (force_process_state os g w q t cpu hold).0.manager.machines
        ≡ find_machine p g.machines
  unfolding force_process_state
  force_other p q = force_found_other (find_machine q g.machines) p q

  force_found_same :
      (o : Option (Machine D)) (pid : ℕ) (m : Machine D) (t : ProcessState) (cpu : D) (hold : Bool)
      → find_machine pid g.machines ≡ o
      → o ≡ some m
      → find_machine pid (force_found os g w o pid t cpu hold).0.manager.machines
        ≡ some (force_state os t cpu hold m w).machine
  unfolding force_found
  force_found_same none pid m t cpu hold f e = cc
  force_found_same (some k) pid m t cpu hold f e =
      find_put_same pid k (force_state os t cpu hold k w).machine g.machines f
      ∙ ap (λ x. some (force_state os t cpu hold x w).machine) (some_inj e)

  pub force_same :
      (pid : ℕ) (m : Machine D) (t : ProcessState) (cpu : D) (hold : Bool)
      → find_machine pid g.machines ≡ some m
      → find_machine pid (force_process_state os g w pid t cpu hold).0.manager.machines
        ≡ some (force_state os t cpu hold m w).machine
  unfolding force_process_state
  force_same pid m t cpu hold = force_found_same (find_machine pid g.machines) pid m t cpu hold refl

  release_found_other :
      (o : Option (Machine D)) (p q : ℕ)
      → q ≢ p
      → find_machine p (release_found os g w o q).0.manager.machines ≡ find_machine p g.machines
  unfolding release_found
  release_found_other none p q ne = refl
  release_found_other (some m) p q ne = find_put_other p q (release_manual_hold m) g.machines ne

  pub release_other :
      (p q : ℕ)
      → q ≢ p
      → find_machine p (release_process os g w q).0.manager.machines ≡ find_machine p g.machines
  unfolding release_process
  release_other p q = release_found_other (find_machine q g.machines) p q

  -- A process that was added is found.
  pub add_found :
      (name : List ℕ) (pid : ℕ)
      → find_machine pid g.machines ≡ none
      → is_protected os g.protected_names name pid ≡ false
      → find_machine pid (add_batch_process os g w name pid).0.manager.machines
        ≡ some (new os name pid g.config g.observed w).0
  unfolding add_batch_process find_machine
  add_found name pid absent free = rw (free, absent, ==_self pid) refl
