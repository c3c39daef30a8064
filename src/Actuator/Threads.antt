-- ===== src/Actuator/Threads.antt =====
-- src/actuator/ThreadControl.{h,cpp}: suspending and resuming every thread of a process.
-- The Windows calls are the parameter `ThreadApi`, which passes the system's state along.
pub mod Counts
pub mod Restore
use thread_haul_daemon.Base.{
  ℕ, ◌+◌, Bool, ◌&&◌, List, [], ◌∷◌, Option, none, some, ltb, ◌==◌, if◌then◌else◌,
}

-- What `OpenThread` gives: a handle, or null with the code of `GetLastError`.
pub data Opened : Type 0 where
  handle : ℕ → Opened
  null : ℕ → Opened

pub record ThreadApi (W : Type 0) : Type 0 where
  -- `CreateToolhelp32Snapshot` and the walk by `Thread32First`, `Thread32Next`: each entry's owner
  -- and thread id; `none` for INVALID_HANDLE_VALUE.
  pub snapshot : W → Option (List (ℕ × ℕ)) × W
  pub open_thread : ℕ → W → Opened × W
  -- The previous suspend count, or (DWORD)-1.
  pub suspend_thread : ℕ → W → ℕ × W
  pub resume_thread : ℕ → W → ℕ × W
  pub close_handle : ℕ → W → W

abbrev pub error_invalid_parameter : ℕ
error_invalid_parameter = 87

-- static_cast<DWORD>(-1)
abbrev pub dword_max : ℕ
dword_max = 4294967295

pub record ThreadOpResult : Type 0 where
  pub attempted : ℕ
  pub succeeded : ℕ
  pub failed : ℕ

abbrev pub no_result : ThreadOpResult
no_result = record { attempted = 0; succeeded = 0; failed = 0 }

unfoldable pub all_succeeded : ThreadOpResult → Bool
all_succeeded r = ltb 0 r.attempted && (r.failed == 0)

-- The ids of the entries that the process owns.
pub owned_by : ℕ → List (ℕ × ℕ) → List ℕ
owned_by pid [] = []
owned_by pid ((owner, tid) ∷ rest) =
    if owner == pid then tid ∷ owned_by pid rest else owned_by pid rest

-- One successful or failed call, counted.
pub count_call : ℕ → ThreadOpResult → ThreadOpResult
count_call previous r =
    if previous == dword_max
    then record r { attempted = r.attempted + 1; failed = r.failed + 1 }
    else record r { attempted = r.attempted + 1; succeeded = r.succeeded + 1 }

-- A thread that exited after the snapshot is no failure.
pub count_unopened : ℕ → ThreadOpResult → ThreadOpResult
count_unopened code r =
    if code == error_invalid_parameter
    then r
    else record r { attempted = r.attempted + 1; failed = r.failed + 1 }

pub tids_of : ℕ → Option (List (ℕ × ℕ)) → List ℕ
unfolding owned_by
tids_of pid none = []
tids_of pid (some entries) = owned_by pid entries

module _ {W : Type 0} (api : ThreadApi W) where
  unfoldable pub enumerate_thread_ids : ℕ → W → List ℕ × W
  unfolding tids_of
  enumerate_thread_ids pid w = let (entries, w') = api.snapshot w in (tids_of pid entries, w')

  -- The body of the loop behind `OpenThread`; `call` is `SuspendThread` or `ResumeThread`.
  pub call_opened : (ℕ → W → ℕ × W) → Opened → ThreadOpResult → W → ThreadOpResult × W
  unfolding count_call count_unopened
  call_opened call (null code) r w = (count_unopened code r, w)
  call_opened call (handle h) r w =
      let (previous, w') = call h w in (count_call previous r, api.close_handle h w')

  -- The loop over the thread ids.
  unfoldable pub call_each : (ℕ → W → ℕ × W) → List ℕ → ThreadOpResult → W → ThreadOpResult × W
  unfolding call_opened
  call_each call [] r w = (r, w)
  call_each call (tid ∷ tids) r w =
      let (opened, w') = api.open_thread tid w in
      let (r', w'') = call_opened call opened r w' in call_each call tids r' w''

  unfoldable pub suspend_all_threads : ℕ → W → ThreadOpResult × W
  unfolding call_each enumerate_thread_ids
  suspend_all_threads pid w =
      let (tids, w') = enumerate_thread_ids pid w in call_each api.suspend_thread tids no_result w'

  unfoldable pub resume_all_threads : ℕ → W → ThreadOpResult × W
  unfolding call_each enumerate_thread_ids
  resume_all_threads pid w =
      let (tids, w') = enumerate_thread_ids pid w in call_each api.resume_thread tids no_result w'
