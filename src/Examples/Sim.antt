-- ===== src/Examples/Sim.antt =====
-- A small Windows to run the examples on: process 10 has the threads 1 and 2, process 20 the thread
-- 3; a thread's id is its handle, and the state is the suspend count of each thread.
use thread_haul_daemon.Base.{
  ℕ, ◌+◌, ◌-◌, ◌≡◌, refl, Bool, true, false, List, [], ◌∷◌, none, some, ◌==◌, if◌then◌else◌, ◌&&◌,
  inl, inr, Bool-cases,
}
use thread_haul_daemon.Actuator.Threads.{ThreadApi, handle, dword_max}
use thread_haul_daemon.Actuator.Threads.Restore.{ThreadLaws}
use thread_haul_daemon.Actuator.Os.{Os}
use thread_haul_daemon.Actuator.Machine.{MachineConfig, Machine, normal}

abbrev pub Counts : Type 0
Counts = ℕ → ℕ

abbrev pub entries : List (ℕ × ℕ)
entries = (10, 1) ∷ (20, 3) ∷ (10, 2) ∷ []

abbrev pub sim_suspend : ℕ → Counts → ℕ × Counts
sim_suspend h w =
    if w h == dword_max then (dword_max, w) else (w h, λ t. w t + (if h == t then 1 else 0))

abbrev pub sim_resume : ℕ → Counts → ℕ × Counts
sim_resume h w =
    if w h == dword_max then (dword_max, w) else (w h, λ t. w t - (if h == t then 1 else 0))

abbrev pub sim_threads : ThreadApi Counts
sim_threads = record {
  snapshot = λ w. (some entries, w);
  open_thread = λ tid w. (handle tid, w);
  suspend_thread = sim_suspend;
  resume_thread = sim_resume;
  close_handle = λ h w. w;
}

pub handle_inj : (a b : ℕ) → handle a ≡ handle b → b ≡ a
handle_inj a b h = cc

pub sim_suspend_adds :
    (h : ℕ) (w : Counts) (t : ℕ)
    → (sim_suspend h w).1 t
      ≡ (if (sim_suspend h w).0 == dword_max then w t else w t + (if h == t then 1 else 0))
sim_suspend_adds h w t = elim (Bool-cases (w h == dword_max)) [
  | inl e ↦ rw e refl
  | inr e ↦ rw (e, e) refl
]

pub sim_resume_takes :
    (h : ℕ) (w : Counts) (t : ℕ)
    → (sim_resume h w).1 t
      ≡ (if (sim_resume h w).0 == dword_max then w t else w t - (if h == t then 1 else 0))
sim_resume_takes h w t = elim (Bool-cases (w h == dword_max)) [
  | inl e ↦ rw e refl
  | inr e ↦ rw (e, e) refl
]

abbrev pub sim_laws : ThreadLaws sim_threads
sim_laws = record {
  suspends = λ w t. w t;
  target = λ h w. h;
  snapshot_keeps = λ w t. refl;
  open_keeps = λ tid w t. refl;
  open_target = λ tid w h e. handle_inj tid h e;
  close_keeps = λ h w t. refl;
  suspend_adds = sim_suspend_adds;
  resume_takes = sim_resume_takes;
}

abbrev pub same_text : List ℕ → List ℕ → Bool
same_text [] [] = true
same_text (a ∷ as_) (b ∷ bs) = a == b && same_text as_ bs
same_text _ _ = false

-- Every process can be opened and has not exited; handles are process ids.
abbrev pub sim : Os Counts
sim = record {
  threads = sim_threads;
  open_process = λ access pid w. (handle pid, w);
  set_priority_class = λ h c w. (none, w);
  is_signalled = λ h w. false;
  close_handle = λ h w. w;
  current_pid = 99;
  same_name = same_text;
}

-- The thresholds of config.example.json, but for shorter streaks.
abbrev pub limits : MachineConfig ℕ
limits = record {
  throttle_percent = 85;
  throttle_samples = 2;
  escalate_percent = 90;
  escalate_samples = 2;
  recover_percent = 60;
  recover_samples = 2;
}

abbrev pub report_job : Machine ℕ
report_job = record {
  name = 114 ∷ [];
  pid = 10;
  process_handle = some 10;
  config = limits;
  observed = true;
  state = normal;
  manual_hold = false;
  high = 0;
  critical = 0;
  low = 0;
}

abbrev pub idle_counts : Counts
idle_counts = λ t. 0
