-- ===== src/Telemetry/Window.antt =====
-- The sliding window of src/telemetry/AdaptiveThresholds.cpp, and `FindByName` of
-- src/telemetry/ProcessMonitor.cpp.
use thread_haul_daemon.Base.{ℕ, suc, List, [], ◌∷◌, ◌++◌, Bool, ltb, if◌then◌else◌, length}

-- `std::max(settings_.windowSamples, 1)`
abbrev pub capacity : ℕ → ℕ
capacity n = if ltb n 1 then 1 else n

-- `while (size() > limit) pop_front()`
unfoldable pub trim : {A : Type 0} → ℕ → List A → List A
trim limit [] = []
trim limit (x ∷ xs) = if ltb limit (suc (length xs)) then trim limit xs else x ∷ xs

unfoldable pub set_window : {A : Type 0} → ℕ → List A → List A
unfolding trim
set_window window_samples xs = trim (capacity window_samples) xs

unfoldable pub add_sample : {A : Type 0} → ℕ → A → List A → List A
unfolding trim
add_sample window_samples x xs = trim (capacity window_samples) (xs ++ (x ∷ []))

unfoldable pub find_by_name : (List ℕ → List ℕ → Bool) → List (List ℕ × ℕ) → List ℕ → List ℕ
find_by_name same_name [] name = []
find_by_name same_name ((entry, pid) ∷ rest) name =
    let pids = find_by_name same_name rest name in if same_name entry name then pid ∷ pids else pids
