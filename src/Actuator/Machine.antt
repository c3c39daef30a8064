-- ===== src/Actuator/Machine.antt =====
-- src/actuator/StateMachine.{h,cpp}: the state machine of one batch process. A method returns the
-- new machine, the system's state after its Windows calls, and the calls of the transition callback.
pub mod Steps
pub mod Settled
pub mod Timing
pub mod Response
pub mod Override
pub mod Identity
use thread_haul_daemon.Base.{
  ℕ, suc, ◌+◌, Bool, true, false, not, ◌&&◌, ◌||◌, List, [], ◌∷◌, ◌++◌, Option, none, some, leb,
  if◌then◌else◌, Real, ge, less,
}
use thread_haul_daemon.Actuator.Threads.{
  Opened, handle, null, suspend_all_threads, resume_all_threads, all_succeeded,
}
use thread_haul_daemon.Actuator.Os.{
  Os, synchronize, PriorityLevel, idle, normal as normal_level, set_process_priority, is_success,
}

pub data ProcessState : Type 0 where
  normal throttled suspended : ProcessState

abbrev pub is_normal : ProcessState → Bool
is_normal normal = true
is_normal _ = false

abbrev pub is_throttled : ProcessState → Bool
is_throttled throttled = true
is_throttled _ = false

abbrev pub is_suspended : ProcessState → Bool
is_suspended suspended = true
is_suspended _ = false

abbrev pub same_state : ProcessState → ProcessState → Bool
same_state normal s = is_normal s
same_state throttled s = is_throttled s
same_state suspended s = is_suspended s

-- Negative sample counts act like 0.
pub record MachineConfig (D : Type 0) : Type 0 where
  pub throttle_percent : D
  pub throttle_samples : ℕ
  pub escalate_percent : D
  pub escalate_samples : ℕ
  pub recover_percent : D
  pub recover_samples : ℕ

pub record Transition (D : Type 0) : Type 0 where
  pub name : List ℕ
  pub pid : ℕ
  pub old_state : ProcessState
  pub new_state : ProcessState
  pub cpu : D
  pub actuated : Bool

-- `handle` is `none` for a null handle; `observed` says whether there is a callback. The counters
-- are C++ ints; they are not given their overflow here.
pub record Machine (D : Type 0) : Type 0 where
  pub name : List ℕ
  pub pid : ℕ
  pub process_handle : Option ℕ
  pub config : MachineConfig D
  pub open config use *
  pub observed : Bool
  pub state : ProcessState
  pub manual_hold : Bool
  pub high : ℕ
  pub critical : ℕ
  pub low : ℕ

pub record Outcome (D W : Type 0) : Type 0 where
  pub machine : Machine D
  pub world : W
  pub reported : List (Transition D)

abbrev opened_handle : Opened → Option ℕ
opened_handle (handle h) = some h
opened_handle (null code) = none

module _ {D : Type 0} where
  unfoldable pub set_config : MachineConfig D → Machine D → Machine D
  set_config c m = record m { config = c }

  unfoldable pub release_manual_hold : Machine D → Machine D
  release_manual_hold m = record m { manual_hold = false }

  module _ ⦃r : Real D⦄ where
    -- The counters of consecutive samples, at the top of `Update`.
    unfoldable pub count_sample : D → Machine D → Machine D
    count_sample cpu m = record m {
      high = if ge cpu m.throttle_percent then m.high + 1 else 0;
      critical = if ge cpu m.escalate_percent then m.critical + 1 else 0;
      low = if less cpu m.recover_percent then m.low + 1 else 0;
    }

  -- The conditions under which `Update` makes a transition, and to which state.
  unfoldable pub next_state : Machine D → Option ProcessState
  next_state m =
      if is_normal m.state && leb m.throttle_samples m.high
      then some throttled
      else if is_throttled m.state && leb m.escalate_samples m.critical
      then some suspended
      else if (is_throttled m.state || is_suspended m.state) && leb m.recover_samples m.low
      then some normal
      else none

module _ {D W : Type 0} (os : Os W) where
  unfoldable pub new : List ℕ → ℕ → MachineConfig D → Bool → W → Machine D × W
  new name pid config observed w =
      let (opened, w') = os.open_process synchronize pid w in
      (
        record {
          name = name;
          pid = pid;
          process_handle = opened_handle opened;
          config = config;
          observed = observed;
          state = normal;
          manual_hold = false;
          high = 0;
          critical = 0;
          low = 0;
        },
        w',
      )

  -- `false` too when there is no handle to ask.
  unfoldable pub has_exited : Machine D → W → Bool
  has_exited m w = elim m.process_handle [ none ↦ false | some h ↦ os.is_signalled h w ]

module _ {W : Type 0} (os : Os W) where
  resume_from : ProcessState → ℕ → W → Bool × W
  resume_from suspended pid w =
      let (r, w') = resume_all_threads os.threads pid w in (all_succeeded r, w')
  resume_from _ pid w = (true, w)

  -- The `switch` of `TransitionTo`. To `Throttled`, the priority is set only if resuming succeeded.
  unfoldable pub actuate : ProcessState → ProcessState → ℕ → W → Bool × W
  unfolding resume_from
  actuate old throttled pid w =
      let (resumed, w') = resume_from old pid w in
      let (answer, w'') = set_process_priority os pid idle w' in
      if resumed then (is_success answer, w'') else (false, w')
  actuate old suspended pid w =
      let (r, w') = suspend_all_threads os.threads pid w in (all_succeeded r, w')
  actuate old normal pid w =
      let (resumed, w') = resume_from old pid w in
      let (answer, w'') = set_process_priority os pid normal_level w' in
      (resumed && is_success answer, w'')

module _ {D W : Type 0} (os : Os W) where
  unfoldable pub transition_to : ProcessState → D → Machine D → W → Outcome D W
  unfolding has_exited
  transition_to new_state cpu m w =
      let (actuated, w') =
        if has_exited os m w then (false, w) else actuate os m.state new_state m.pid w in
      let report : Transition D = record {
        name = m.name;
        pid = m.pid;
        old_state = m.state;
        new_state = new_state;
        cpu = cpu;
        actuated = actuated;
      } in
      record {
        machine = record m { state = new_state; high = 0; critical = 0; low = 0 };
        world = w';
        reported = if m.observed then report ∷ [] else [];
      }

  abbrev unchanged : Machine D → W → Outcome D W
  unchanged m w = record { machine = m; world = w; reported = [] }

  unfoldable pub take_step : Option ProcessState → D → Machine D → W → Outcome D W
  take_step none cpu m w = unchanged m w
  take_step (some s) cpu m w = transition_to s cpu m w

  -- The outcome, and whether the state changed.
  unfoldable pub update : ⦃r : Real D⦄ → D → Machine D → W → Outcome D W × Bool
  unfolding count_sample next_state take_step
  update cpu m w =
      let counted = count_sample cpu m in
      let o = take_step (next_state counted) cpu counted w in
      if m.manual_hold
      then (unchanged counted w, false)
      else (o, not (same_state m.state o.machine.state))

  unfoldable pub force_state : ProcessState → D → Bool → Machine D → W → Outcome D W
  force_state s cpu hold m w =
      let held = record m { manual_hold = hold } in
      if same_state m.state s then unchanged held w else transition_to s cpu held w

  -- `no_load` is the literal 0.0.
  unfoldable pub force_recover_for_shutdown : D → Machine D → W → Outcome D W
  force_recover_for_shutdown no_load m w =
      let freed = record m { manual_hold = false } in
      if is_normal m.state then unchanged freed w else transition_to normal no_load freed w

  -- `Update` on each sample in turn.
  unfoldable pub run : ⦃r : Real D⦄ → List D → Machine D → W → Outcome D W
  run [] m w = unchanged m w
  run (cpu ∷ cpus) m w =
      let o = (update cpu m w).0 in
      let rest = run cpus o.machine o.world in
      record rest { reported = o.reported ++ rest.reported }
