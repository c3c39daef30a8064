-- ===== src/Actuator/Manager.antt =====
-- src/actuator/ActuatorManager.{h,cpp}: the state machines of all batch processes. The unordered map
-- from process ids is a list, in the order in which a loop visits it.
pub mod Protection
pub mod Sweeps
pub mod Actions
pub mod Kept
pub mod AtRest
pub mod Lookup
use thread_haul_daemon.Base.{
  ℕ, ◌+◌, Bool, true, false, ◌&&◌, ◌||◌, List, [], ◌∷◌, ◌++◌, map, Option, none, some, ◌==◌,
  if◌then◌else◌, any_of, is_some, Real, codes,
}
use thread_haul_daemon.Actuator.Os.{Os}
use thread_haul_daemon.Actuator.Machine.{
  ProcessState, MachineConfig, Machine, Transition, Outcome, new, has_exited, update, set_config,
  force_state, release_manual_hold, force_recover_for_shutdown,
}

pub record Manager (D : Type 0) : Type 0 where
  pub config : MachineConfig D
  pub observed : Bool
  pub protected_names : List (List ℕ)
  pub machines : List (ℕ × Machine D)

pub record Managed (D W : Type 0) : Type 0 where
  pub manager : Manager D
  pub world : W
  pub reported : List (Transition D)

-- kAlwaysProtected
unfoldable pub always_protected_names : List (List ℕ)
always_protected_names =
    codes "[System Process]"
    ∷ codes "System"
    ∷ codes "Registry"
    ∷ codes "smss.exe"
    ∷ codes "csrss.exe"
    ∷ codes "wininit.exe"
    ∷ codes "winlogon.exe"
    ∷ codes "services.exe"
    ∷ codes "lsass.exe"
    ∷ codes "svchost.exe"
    ∷ codes "dwm.exe"
    ∷ codes "fontdrvhost.exe"
    ∷ codes "LsaIso.exe"
    ∷ codes "Memory Compression"
    ∷ codes "Secure System"
    ∷ []

unfoldable pub start : {D : Type 0} → MachineConfig D → Bool → Manager D
start config observed = record {
  config = config;
  observed = observed;
  protected_names = [];
  machines = [];
}

-- `machines_.find`
unfoldable pub find_machine : {D : Type 0} → ℕ → List (ℕ × Machine D) → Option (Machine D)
find_machine pid [] = none
find_machine pid ((key, m) ∷ rest) = if key == pid then some m else find_machine pid rest

-- `machines_.erase(pid)`
unfoldable pub erase_machine : {D : Type 0} → ℕ → List (ℕ × Machine D) → List (ℕ × Machine D)
erase_machine pid [] = []
erase_machine pid ((key, m) ∷ rest) = if key == pid then rest else (key, m) ∷ erase_machine pid rest

-- The machine behind the pointer that `Find` returns, replaced.
unfoldable pub put_machine :
    {D : Type 0} → ℕ → Machine D → List (ℕ × Machine D) → List (ℕ × Machine D)
put_machine pid n [] = []
put_machine pid n ((key, m) ∷ rest) =
    if key == pid then (key, n) ∷ rest else (key, m) ∷ put_machine pid n rest

-- What a loop over the machines does at one of them: `none` erases it.
pub record Visit (D W : Type 0) : Type 0 where
  pub kept : Option (Machine D)
  pub world : W
  pub reported : List (Transition D)
  pub changed : Bool

pub record Sweep (D W : Type 0) : Type 0 where
  pub machines : List (ℕ × Machine D)
  pub world : W
  pub reported : List (Transition D)
  pub changed : Bool

abbrev pub keep_entry :
    {D : Type 0} → ℕ → Option (Machine D) → List (ℕ × Machine D) → List (ℕ × Machine D)
keep_entry key none rest = rest
keep_entry key (some m) rest = (key, m) ∷ rest

module _ {D W : Type 0} where
  -- The loop over the machines.
  unfoldable pub sweep : (ℕ → Machine D → W → Visit D W) → List (ℕ × Machine D) → W → Sweep D W
  sweep visit [] w = record { machines = []; world = w; reported = []; changed = false }
  sweep visit ((key, m) ∷ rest) w =
      let v = visit key m w in
      let s = sweep visit rest v.world in
      record {
        machines = keep_entry key v.kept s.machines;
        world = s.world;
        reported = v.reported ++ s.reported;
        changed = v.changed || s.changed;
      }

  abbrev pub visited : Outcome D W → Bool → Visit D W
  visited o changed = record {
    kept = some o.machine;
    world = o.world;
    reported = o.reported;
    changed = changed;
  }

  abbrev pub dropped : W → List (Transition D) → Visit D W
  dropped w reported = record { kept = none; world = w; reported = reported; changed = false }

module _ {W : Type 0} (os : Os W) where
  unfoldable pub is_protected : List (List ℕ) → List ℕ → ℕ → Bool
  is_protected protected_names name pid =
      pid == os.current_pid
      || any_of (os.same_name name) always_protected_names
      || any_of (os.same_name name) protected_names

module _ {D W : Type 0} (os : Os W) (g : Manager D) (w : W) where
  abbrev with_machines : List (ℕ × Machine D) → Manager D
  with_machines ms = record g { machines = ms }

  abbrev unreported : Manager D → Managed D W
  unreported g' = record { manager = g'; world = w; reported = [] }

  unfoldable pub add_batch_process : List ℕ → ℕ → Managed D W × Bool
  add_batch_process name pid =
      let (m, w') = new os name pid g.config g.observed w in
      let added : Managed D W = record {
        manager = with_machines ((pid, m) ∷ g.machines);
        world = w';
        reported = [];
      } in
      if is_protected os g.protected_names name pid
      then (unreported g, false)
      else if is_some (find_machine pid g.machines)
      then (unreported g, true)
      else (added, true)

  unfoldable pub visit_protected : D → List (List ℕ) → ℕ → Machine D → W → Visit D W
  visit_protected no_load names key m w' =
      let o = force_recover_for_shutdown os no_load m w' in
      if is_protected os names m.name key
      then dropped o.world o.reported
      else record { kept = some m; world = w'; reported = []; changed = false }

  unfoldable pub set_protected_process_names : D → List (List ℕ) → Managed D W
  unfolding visit_protected
  set_protected_process_names no_load names =
      let s = sweep (visit_protected no_load names) g.machines w in
      record {
        manager = record g { protected_names = names; machines = s.machines };
        world = s.world;
        reported = s.reported;
      }

  unfoldable pub remove_batch_process : ℕ → Managed D W
  remove_batch_process pid = unreported (with_machines (erase_machine pid g.machines))

  unfoldable pub visit_update : ⦃r : Real D⦄ → D → ℕ → Machine D → W → Visit D W
  visit_update cpu key m w' =
      let (o, changed) = update os cpu m w' in
      if has_exited os m w' then dropped w' [] else visited o changed

  -- The outcome, and whether a machine changed its state.
  unfoldable pub update_all : ⦃r : Real D⦄ → D → Managed D W × Bool
  unfolding visit_update
  update_all cpu =
      let s = sweep (visit_update cpu) g.machines w in
      (
        record { manager = with_machines s.machines; world = s.world; reported = s.reported },
        s.changed,
      )

  unfoldable pub visit_recover : D → ℕ → Machine D → W → Visit D W
  visit_recover no_load key m w' = visited (force_recover_for_shutdown os no_load m w') false

  unfoldable pub force_recover_all_for_shutdown : D → Managed D W
  unfolding visit_recover
  force_recover_all_for_shutdown no_load =
      let s = sweep (visit_recover no_load) g.machines w in
      record { manager = with_machines s.machines; world = s.world; reported = s.reported }

  unfoldable pub set_manager_config : MachineConfig D → Managed D W
  set_manager_config c =
      unreported (record g { config = c; machines = map (λ e. (e.0, set_config c e.1)) g.machines })

  force_found : Option (Machine D) → ℕ → ProcessState → D → Bool → Managed D W × Bool
  force_found none pid s cpu hold = (unreported g, false)
  force_found (some m) pid s cpu hold =
      let o = force_state os s cpu hold m w in
      (
        record {
          manager = with_machines (put_machine pid o.machine g.machines);
          world = o.world;
          reported = o.reported;
        },
        true,
      )

  unfoldable pub force_process_state : ℕ → ProcessState → D → Bool → Managed D W × Bool
  unfolding force_found
  force_process_state pid s cpu hold = force_found (find_machine pid g.machines) pid s cpu hold

  release_found : Option (Machine D) → ℕ → Managed D W × Bool
  release_found none pid = (unreported g, false)
  release_found (some m) pid =
      (unreported (with_machines (put_machine pid (release_manual_hold m) g.machines)), true)

  unfoldable pub release_process : ℕ → Managed D W × Bool
  unfolding release_found
  release_process pid = release_found (find_machine pid g.machines) pid

  -- `OnThresholdEvent`, of whose event only the observed CPU is read.
  unfoldable pub on_threshold_event : ⦃r : Real D⦄ → D → Managed D W
  on_threshold_event observed = (update_all observed).0
