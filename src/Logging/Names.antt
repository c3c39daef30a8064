-- ===== src/Logging/Names.antt =====
-- The words that the log uses (src/logging/JsonLinesLogger.cpp, and the level names of
-- src/telemetry/AutoProtectPolicy.h, src/telemetry/ProcessSafety.cpp and
-- src/service/AutoProtect.cpp).
use thread_haul_daemon.Base.{ℕ, List, codes, ◌==◌, if◌then◌else◌}
use thread_haul_daemon.Actuator.Machine.{ProcessState, normal, throttled, suspended}
use thread_haul_daemon.Telemetry.Tracker.{ThresholdType, high, critical, low}
use thread_haul_daemon.Telemetry.AutoPolicy.{AutoLevel}
use thread_haul_daemon.Telemetry.Safety.{ProcessSafety}

unfoldable pub state_name : ProcessState → List ℕ
state_name normal = codes "normal"
state_name throttled = codes "throttled"
state_name suspended = codes "suspended"

-- The action that brings a process to a state.
unfoldable pub action_name : ProcessState → List ℕ
action_name throttled = codes "priority_lowered"
action_name suspended = codes "threads_suspended"
action_name normal = codes "recovered"

unfoldable pub threshold_name : ThresholdType → List ℕ
threshold_name high = codes "high"
threshold_name critical = codes "critical"
threshold_name low = codes "low"

unfoldable pub auto_level_name : AutoLevel → List ℕ
auto_level_name AutoLevel.normal = codes "normal"
auto_level_name AutoLevel.throttle = codes "throttling"
auto_level_name AutoLevel.idle = codes "idle"

unfoldable pub safety_name : ProcessSafety → List ℕ
safety_name ProcessSafety.normal = codes "normal"
safety_name ProcessSafety.service = codes "service"
safety_name ProcessSafety.system = codes "system"
safety_name ProcessSafety.essential = codes "essential"

unfoldable pub priority_class_name : ℕ → List ℕ
priority_class_name c =
    if c == 0x40
    then codes "idle"
    else if c == 0x4000
    then codes "below normal"
    else if c == 0x20
    then codes "normal"
    else if c == 0x8000
    then codes "above normal"
    else if c == 0x80
    then codes "high"
    else if c == 0x100
    then codes "realtime"
    else codes "unknown"
