-- ===== src/Service/Coordination.antt =====
-- src/service/Coordination.cpp: the queue of events for the controller, and how long the client waits
-- before it connects again. Times are in milliseconds.
pub mod Waits
use thread_haul_daemon.Base.{
  ℕ, zero, suc, ◌+◌, ◌*◌, Bool, true, false, not, ◌&&◌, List, [], ◌∷◌, ◌++◌, Option, none, some,
  ltb, length, if◌then◌else◌,
}

-- `SendEvent`
unfoldable pub send_event : List ℕ → List (List ℕ) → List (List ℕ)
send_event event outbox = if ltb (length outbox) 1000 then outbox ++ (event ∷ []) else outbox

-- The time before the first attempt to connect again.
abbrev pub first_backoff : ℕ
first_backoff = 1000

-- `std::min(backoffMs * 2, 30000)`
unfoldable pub next_backoff : ℕ → ℕ
next_backoff ms = if ltb 30000 (ms * 2) then 30000 else ms * 2

-- The time to wait when so many attempts in a row have failed before.
unfoldable pub backoff_after : ℕ → ℕ
unfolding next_backoff
backoff_after zero = first_backoff
backoff_after (suc n) = next_backoff (backoff_after n)

-- The waiting loop: `stopping` says, after a number of sleeps, whether the client is told to stop.
-- The result is the number of sleeps, `none` where the fuel is used up.
unfoldable pub wait_from : ℕ → ℕ → ℕ → (ℕ → Bool) → ℕ → Option ℕ
wait_from zero backoff waited stopping slept = none
wait_from (suc fuel) backoff waited stopping slept =
    let rest = wait_from fuel backoff (waited + 100) stopping (slept + 1) in
    if ltb waited backoff && not (stopping slept) then rest else some slept

-- The loop for a time to wait, with fuel for 300 sleeps.
unfoldable pub wait : ℕ → (ℕ → Bool) → Option ℕ
unfolding wait_from
wait backoff stopping = wait_from 301 backoff 0 stopping 0
