-- ===== src/Actuator/Os.antt =====
-- src/actuator/PriorityControl.{h,cpp}, over the Windows calls on processes and handles that the
-- actuator makes: the parameter `Os`.
use thread_haul_daemon.Base.{ℕ, Bool, List, Option, none, some, ◌==◌, if◌then◌else◌}
use thread_haul_daemon.Actuator.Threads.{ThreadApi, Opened, handle, null}

pub data Access : Type 0 where
  synchronize set_information : Access

pub record Os (W : Type 0) : Type 0 where
  pub threads : ThreadApi W
  -- `OpenProcess`: a handle, or null with the code of `GetLastError`.
  pub open_process : Access → ℕ → W → Opened × W
  -- `SetPriorityClass`: `none` for success, else the code of `GetLastError`.
  pub set_priority_class : ℕ → ℕ → W → Option ℕ × W
  -- `WaitForSingleObject(handle, 0) == WAIT_OBJECT_0`
  pub is_signalled : ℕ → W → Bool
  pub close_handle : ℕ → W → W
  -- `GetCurrentProcessId`
  pub current_pid : ℕ
  -- `CompareStringOrdinal(a, -1, b, -1, TRUE) == CSTR_EQUAL`
  pub same_name : List ℕ → List ℕ → Bool

pub data PriorityLevel : Type 0 where
  idle below_normal normal : PriorityLevel

pub data PriorityChangeResult : Type 0 where
  success access_denied process_not_found other_error : PriorityChangeResult

abbrev pub idle_priority_class : ℕ
idle_priority_class = 0x40

abbrev pub below_normal_priority_class : ℕ
below_normal_priority_class = 0x4000

abbrev pub normal_priority_class : ℕ
normal_priority_class = 0x20

abbrev error_access_denied : ℕ
error_access_denied = 5

abbrev error_invalid_parameter : ℕ
error_invalid_parameter = 87

abbrev pub to_win32_priority_class : PriorityLevel → ℕ
to_win32_priority_class idle = idle_priority_class
to_win32_priority_class below_normal = below_normal_priority_class
to_win32_priority_class normal = normal_priority_class

-- The result when the process cannot be opened.
open_failure : ℕ → PriorityChangeResult
open_failure code =
    if code == error_access_denied
    then access_denied
    else if code == error_invalid_parameter
    then process_not_found
    else other_error

-- The result of `SetPriorityClass`.
change_result : Option ℕ → PriorityChangeResult
change_result none = success
change_result (some code) = if code == error_access_denied then access_denied else other_error

module _ {W : Type 0} (os : Os W) where
  change_opened : PriorityLevel → Opened → W → PriorityChangeResult × W
  unfolding open_failure change_result
  change_opened level (null code) w = (open_failure code, w)
  change_opened level (handle h) w =
      let (answer, w') = os.set_priority_class h (to_win32_priority_class level) w in
      (change_result answer, os.close_handle h w')

  unfoldable pub set_process_priority : ℕ → PriorityLevel → W → PriorityChangeResult × W
  unfolding change_opened
  set_process_priority pid level w =
      let (opened, w') = os.open_process set_information pid w in change_opened level opened w'

abbrev pub is_success : PriorityChangeResult → Bool
is_success success = Bool.true
is_success _ = Bool.false
