-- ===== src/Telemetry/Monitor.antt =====
-- src/telemetry/ProcessMonitor.{h,cpp}: `TrackedProcess`, which samples every running instance of one
-- executable name. A file time is its number of ticks.
pub mod Ledger
use thread_haul_daemon.Base.{
  ℕ, ◌+◌, ◌-◌, ◌%◌, ◌^◌, Bool, true, false, not, ◌&&◌, List, [], ◌∷◌, ◌++◌, Option, none, some,
  ◌==◌, ltb, leb, if◌then◌else◌, any_of, keep_if, Real,
}
use thread_haul_daemon.Actuator.Threads.{Opened, handle, null}
use thread_haul_daemon.Telemetry.Adaptive.{Arithmetic}
use thread_haul_daemon.Telemetry.CpuMath.{CpuNormalization, cpu_percent_from_ticks}
use thread_haul_daemon.Telemetry.Window.{find_by_name}

pub record ProcessSample (D : Type 0) : Type 0 where
  pub name : List ℕ
  pub pid : ℕ
  pub cpu_percent : D
  pub working_set_mb : D
  pub io_mb_per_sec : D
  pub valid : Bool

pub data LifecycleKind : Type 0 where
  acquired exited crashed restarted access_denied : LifecycleKind

pub record LifecycleEvent : Type 0 where
  pub kind : LifecycleKind
  pub pid : ℕ
  pub previous_pid : ℕ
  pub exit_code : ℕ

pub record MonitorApi (W : Type 0) : Type 0 where
  pub is_signalled : ℕ → W → Bool
  pub exit_code : ℕ → W → ℕ
  pub close_handle : ℕ → W → W
  pub open_process : ℕ → W → Opened × W
  -- `GetProcessTimes`: kernel and user time
  pub process_times : ℕ → W → Option (ℕ × ℕ)
  -- `GetSystemTimeAsFileTime`
  pub now_ticks : W → ℕ
  -- `GetProcessIoCounters`: read, write and other
  pub io_counters : ℕ → W → Option (ℕ × ℕ × ℕ)
  -- `GetProcessMemoryInfo`
  pub working_set : ℕ → W → Option ℕ

pub record Instance : Type 0 where
  pub process : ℕ
  pub last_cpu : ℕ
  pub last_wall : ℕ
  pub last_io : ℕ
  pub primed : Bool

-- The instances are in the order of their process ids; `denied` holds the ids whose refusal has been
-- reported.
pub record TrackedProcess : Type 0 where
  pub name : List ℕ
  pub normalization : CpuNormalization
  pub cores : ℕ
  pub instances : List (ℕ × Instance)
  pub denied : List ℕ
  pub last_exited : ℕ

pub record Step (W : Type 0) : Type 0 where
  pub tracked : TrackedProcess
  pub world : W
  pub events : List LifecycleEvent

abbrev pub has : ℕ → List (ℕ × Instance) → Bool
has pid is = any_of (λ (e : ℕ × Instance). e.0 == pid) is

abbrev pub is_idle : List (ℕ × Instance) → Bool
is_idle [] = true
is_idle (e ∷ es) = false

-- `map::emplace`
unfoldable pub insert_instance : ℕ → Instance → List (ℕ × Instance) → List (ℕ × Instance)
insert_instance pid i [] = (pid, i) ∷ []
insert_instance pid i ((p, j) ∷ rest) =
    if ltb pid p then (pid, i) ∷ (p, j) ∷ rest else (p, j) ∷ insert_instance pid i rest

module _ {W : Type 0} (api : MonitorApi W) where
  abbrev pub exit_event : ℕ → ℕ → LifecycleEvent
  exit_event pid code = record {
    kind = if code == 0 then exited else crashed;
    pid = pid;
    previous_pid = 0;
    exit_code = code;
  }

  -- The first loop of `Poll`: instances that have exited are dropped.
  unfoldable pub drop_exited :
      List (ℕ × Instance) → ℕ → W → List (ℕ × Instance) × ℕ × W × List LifecycleEvent
  drop_exited [] last w = ([], last, w, [])
  drop_exited ((pid, i) ∷ rest) last w =
      let (gone, last_, w_, events) = drop_exited rest pid (api.close_handle i.process w) in
      let (kept, last', w', events') = drop_exited rest last w in
      if api.is_signalled i.process w
      then (gone, last_, w_, exit_event pid (api.exit_code i.process w) ∷ events)
      else ((pid, i) ∷ kept, last', w', events')

  abbrev new_instance : ℕ → Instance
  new_instance h = record { process = h; last_cpu = 0; last_wall = 0; last_io = 0; primed = false }

  -- A process of the name that is not tracked yet; 5 is ERROR_ACCESS_DENIED.
  unfoldable pub pick_opened : ℕ → Opened → W → TrackedProcess → Step W
  unfolding insert_instance
  pick_opened pid (null code) w t =
      let told = any_of (λ p. p == pid) t.denied in
      let event : LifecycleEvent = record {
        kind = access_denied;
        pid = pid;
        previous_pid = 0;
        exit_code = 0;
      } in
      if code == 5 && not told
      then record { tracked = record t { denied = pid ∷ t.denied }; world = w; events = event ∷ [] }
      else record { tracked = t; world = w; events = [] }
  pick_opened pid (handle h) w t =
      let restart = is_idle t.instances && not (t.last_exited == 0) && not (t.last_exited == pid) in
      record {
        tracked = record t {
          denied = keep_if (λ p. not (p == pid)) t.denied;
          last_exited = 0;
          instances = insert_instance pid (new_instance h) t.instances;
        };
        world = w;
        events =
            record {
              kind = if restart then restarted else acquired;
              pid = pid;
              previous_pid = if restart then t.last_exited else 0;
              exit_code = 0;
            }
            ∷ [];
      }

  unfoldable pub pick_up : List ℕ → TrackedProcess → W → Step W
  unfolding pick_opened
  pick_up [] t w = record { tracked = t; world = w; events = [] }
  pick_up (pid ∷ pids) t w =
      let (opened, w') = api.open_process pid w in
      let one = pick_opened pid opened w' t in
      let fresh = pick_up pids one.tracked one.world in
      let skipped = pick_up pids t w in
      if has pid t.instances then skipped else record fresh { events = one.events ++ fresh.events }

module _ {D W : Type 0} ⦃r : Real D⦄ (ar : Arithmetic D) (api : MonitorApi W) where
  abbrev mb : D
  mb = ar.times (ar.nat 1024) (ar.nat 1024)

  abbrev sum_of : Option (ℕ × ℕ × ℕ) → ℕ
  sum_of none = 0
  sum_of (some (a, b, c)) = (a + b + c) % 2 ^ 64

  abbrev memory_of : Option ℕ → D
  memory_of none = ar.nat 0
  memory_of (some bytes) = ar.over (ar.nat bytes) mb

  -- `a - b` on 64 bits
  abbrev pub minus64 : ℕ → ℕ → ℕ
  minus64 a b = (a + 2 ^ 64 - b) % 2 ^ 64

  -- `SampleInstance` where the process's times are known.
  unfoldable pub sample_timed : TrackedProcess → ℕ → Instance → W → ℕ → Instance × ProcessSample D
  unfolding cpu_percent_from_ticks
  sample_timed t pid i w cpu =
      let wall = api.now_ticks w in
      let io = sum_of (api.io_counters i.process w) in
      let wall_delta = wall - i.last_wall in
      let seconds = ar.over (ar.nat wall_delta) (ar.nat 10000000) in
      let moved =
        if leb i.last_io io
        then ar.over (ar.over (ar.nat (io - i.last_io)) mb) seconds
        else ar.nat 0 in
      let plain : ProcessSample D = record {
        name = t.name;
        pid = pid;
        cpu_percent = ar.nat 0;
        working_set_mb = memory_of (api.working_set i.process w);
        io_mb_per_sec = ar.nat 0;
        valid = false;
      } in
      let percent =
        cpu_percent_from_ticks ar (minus64 cpu i.last_cpu) wall_delta t.cores t.normalization in
      (
        record i { last_cpu = cpu; last_wall = wall; last_io = io; primed = true },
        if i.primed && ltb i.last_wall wall
            then record plain { cpu_percent = percent; io_mb_per_sec = moved; valid = true }
            else plain,
      )

  -- `SampleInstance`; where the times cannot be read, there is no sample.
  unfoldable pub sample_instance :
      TrackedProcess → ℕ → Instance → W → Option (ℕ × ℕ) → Instance × List (ProcessSample D)
  unfolding sample_timed
  sample_instance t pid i w none = (i, [])
  sample_instance t pid i w (some (kernel, user)) =
      let s = sample_timed t pid i w ((kernel + user) % 2 ^ 64) in (s.0, s.1 ∷ [])

  -- The last loop of `Poll`.
  unfoldable pub sample_all :
      TrackedProcess → List (ℕ × Instance) → W → List (ℕ × Instance) × List (ProcessSample D)
  unfolding sample_instance
  sample_all t [] w = ([], [])
  sample_all t ((pid, i) ∷ rest) w =
      let s = sample_instance t pid i w (api.process_times i.process w) in
      let (is, samples) = sample_all t rest w in ((pid, s.0) ∷ is, s.1 ++ samples)

  -- `Poll`, on the names and ids of a snapshot.
  unfoldable pub poll_tracked :
      (List ℕ → List ℕ → Bool)
      → List (List ℕ × ℕ)
      → TrackedProcess
      → W
      → Step W × List (ProcessSample D)
  unfolding drop_exited pick_up sample_all find_by_name
  poll_tracked same_name snapshot t w =
      let (left, last, w', gone) = drop_exited api t.instances t.last_exited w in
      let picked =
        pick_up api (find_by_name same_name snapshot t.name)
          (record t { instances = left; last_exited = last }) w' in
      let sampled = sample_all picked.tracked picked.tracked.instances picked.world in
      (
        record {
          tracked = record picked.tracked { instances = sampled.0 };
          world = picked.world;
          events = gone ++ picked.events;
        },
        sampled.1,
      )
