-- ===== src/Actuator/Manager/Actions.antt =====
-- What the loops of the manager do to its machines (src/actuator/ActuatorManager.cpp).
use thread_haul_daemon.Base.{
  ℕ, ◌≡◌, ◌≢◌, refl, sym, ap, ◌∙◌, subst, Bool, true, false, inl, inr, List, [], ◌∷◌, ◌++◌, map,
  ap₂, or-false_parts, All-mono, some, arith, if◌then◌else◌, some_inj, Any, Any-append_left,
  Any-append_right, Real, Bool-cases,
}
use thread_haul_daemon.Actuator.Os.{Os}
use thread_haul_daemon.Actuator.Machine.{
  normal, Machine, Transition, Outcome, has_exited, transition_to, force_recover_for_shutdown,
}
use thread_haul_daemon.Actuator.Machine.Steps.{Moved, stayed, moved, update-Moved}
use thread_haul_daemon.Actuator.Machine.Override.{recover_lem}
use thread_haul_daemon.Actuator.Manager.{
  Manager, dropped, is_protected, sweep, visit_protected, set_protected_process_names, visit_update,
  update_all, visit_recover, force_recover_all_for_shutdown,
}
use thread_haul_daemon.Actuator.Manager.Sweeps.{AllMachines, sweep-All}

-- A recovered machine that was not normal is reported as having become so.
abbrev pub Recovered : {D : Type 0} → ℕ → Transition D → Type 0
Recovered pid t = (t.pid ≡ pid) × (t.new_state ≡ normal)

module _ {D W : Type 0} (os : Os W) (g : Manager D) (w : W) where
  visit_recover-normal :
      (no_load : D) (key : ℕ) (m : Machine D) (w' : W) (n : Machine D)
      → (visit_recover os g w no_load key m w').kept ≡ some n
      → (n.state ≡ normal) × (n.manual_hold ≡ false)
  unfolding visit_recover
  visit_recover-normal no_load key m w' n k =
      let done = recover_lem os no_load m w' in
      subst (λ x. (x.state ≡ normal) × (x.manual_hold ≡ false)) (some_inj k) (done.0, done.1)

  recover_sweep-keys :
      (no_load : D) (ms : List (ℕ × Machine D)) (w' : W)
      → map (λ e. e.0) (sweep (visit_recover os g w no_load) ms w').machines ≡ map (λ e. e.0) ms
  unfolding sweep visit_recover
  recover_sweep-keys no_load [] w' = refl
  recover_sweep-keys no_load ((key, m) ∷ ms) w' =
      ap (λ ks. key ∷ ks)
        (recover_sweep-keys no_load ms (force_recover_for_shutdown os no_load m w').world)

  -- The shutdown recovery keeps every managed process and leaves its machine normal and unheld.
  pub recover_all-normal :
      (no_load : D)
      → let ms = (force_recover_all_for_shutdown os g w no_load).manager.machines in
        (map (λ e. e.0) ms ≡ map (λ e. e.0) g.machines)
        × AllMachines (λ _ n. (n.state ≡ normal) × (n.manual_hold ≡ false)) ms
  unfolding force_recover_all_for_shutdown
  recover_all-normal no_load = (
    recover_sweep-keys no_load g.machines w,
    sweep-All (visit_recover os g w no_load) (λ _ _. Unit {0}) _
        (λ key m w' n _ k. visit_recover-normal no_load key m w' n k) g.machines w
        (trivial g.machines),
  )
    where
      trivial : (ms : List (ℕ × Machine D)) → AllMachines (λ _ _. Unit {0}) ms
      trivial [] = tt
      trivial (e ∷ ms) = (tt, trivial ms)

  recover_reports :
      (no_load : D) (m : Machine D) (w' : W)
      → m.observed ≡ true
      → m.state ≢ normal
      → Any (Recovered m.pid) (force_recover_for_shutdown os no_load m w').reported
  unfolding force_recover_for_shutdown transition_to
  recover_reports no_load m w' seen s = ground arith

  visit_protected-reports :
      (no_load : D) (names : List (List ℕ)) (key : ℕ) (m : Machine D) (w' : W)
      → is_protected os names m.name key ≡ true
      → m.observed ≡ true
      → m.state ≢ normal
      → Any (Recovered m.pid) (visit_protected os g w no_load names key m w').reported
  unfolding visit_protected
  visit_protected-reports no_load names key m w' p seen s =
      subst
        (λ b.
          let o = force_recover_for_shutdown os no_load m w' in
          Any (Recovered m.pid)
            (if b
              then dropped o.world o.reported
              else record { kept = some m; world = w'; reported = []; changed = false }).reported)
        (sym p) (recover_reports no_load m w' seen s)

  protected_sweep-reports :
      (no_load : D) (names : List (List ℕ)) (ms : List (ℕ × Machine D)) (w' : W)
      → AllMachines
          (λ key m.
            is_protected os names m.name key ≡ true
            → m.observed ≡ true
            → m.state ≢ normal
            → Any (Recovered m.pid) (sweep (visit_protected os g w no_load names) ms w').reported)
          ms
  unfolding sweep
  protected_sweep-reports no_load names [] w' = tt
  protected_sweep-reports no_load names ((key, m) ∷ ms) w' =
      let v = visit_protected os g w no_load names key m w' in
      let s = sweep (visit_protected os g w no_load names) ms v.world in
      (
        λ p seen st.
            Any-append_left (Recovered m.pid) v.reported s.reported
              (visit_protected-reports no_load names key m w' p seen st),
        All-mono
            (λ e.
              is_protected os names e.1.name e.0 ≡ true
              → e.1.observed ≡ true
              → e.1.state ≢ normal
              → Any (Recovered e.1.pid) s.reported)
            (λ e.
              is_protected os names e.1.name e.0 ≡ true
              → e.1.observed ≡ true
              → e.1.state ≢ normal
              → Any (Recovered e.1.pid) (v.reported ++ s.reported))
            (λ e h p seen st.
              Any-append_right (Recovered e.1.pid) v.reported s.reported (h p seen st))
            ms (protected_sweep-reports no_load names ms v.world),
      )

  -- Replacing the protection list drops no lowered process silently: each managed process that the
  -- new list protects and whose machine is observed and not normal is reported as normal again.
  pub set_protected-reports :
      (no_load : D) (names : List (List ℕ))
      → AllMachines
          (λ key m.
            is_protected os names m.name key ≡ true
            → m.observed ≡ true
            → m.state ≢ normal
            → Any (Recovered m.pid) (set_protected_process_names os g w no_load names).reported)
          g.machines
  unfolding set_protected_process_names
  set_protected-reports no_load names = protected_sweep-reports no_load names g.machines w

  visit_update-quiet :
      ⦃r : Real D⦄ (cpu : D) (key : ℕ) (m : Machine D) (w' : W)
      → let v = visit_update os g w cpu key m w' in
        v.changed ≡ false → (v.world ≡ w') × (v.reported ≡ [])
  unfolding visit_update
  visit_update-quiet cpu key m w' = elim (Bool-cases (has_exited os m w')) [
    | inl gone ↦ rw gone (λ _. (refl, refl))
    | inr here ↦ rw here (quiet (update-Moved os cpu m w'))
  ]
    where
      quiet :
          {o : Outcome D W} {b : Bool}
          → Moved m w' o b
          → b ≡ false
          → (o.world ≡ w') × (o.reported ≡ [])
      quiet (stayed _ _ same silent) h = (same, silent)
      quiet (moved yes_ _ _ _ _) h = cc

  sweep_update-quiet :
      ⦃r : Real D⦄ (cpu : D) (ms : List (ℕ × Machine D)) (w' : W)
      → let s = sweep (visit_update os g w cpu) ms w' in
        s.changed ≡ false → (s.world ≡ w') × (s.reported ≡ [])
  unfolding sweep
  sweep_update-quiet cpu [] w' h = (refl, refl)
  sweep_update-quiet cpu ((key, m) ∷ ms) w' h =
      let v = visit_update os g w cpu key m w' in
      let s = sweep (visit_update os g w cpu) ms v.world in
      let (first, rest) = or-false_parts v.changed s.changed h in
      let (same, silent) = visit_update-quiet cpu key m w' first in
      let (same', silent') = sweep_update-quiet cpu ms v.world rest in
      (same' ∙ same, ap₂ (λ a b. a ++ b) silent silent')

  -- When `UpdateAll` says that nothing changed, it made no Windows call that alters the system and
  -- reported nothing.
  pub update_all-quiet :
      ⦃r : Real D⦄ (cpu : D)
      → let u = update_all os g w cpu in u.1 ≡ false → (u.0.world ≡ w) × (u.0.reported ≡ [])
  unfolding update_all
  update_all-quiet cpu h = sweep_update-quiet cpu g.machines w h
