-- ===== src/Examples/Controller.antt =====
-- Examples of src/controller and of its client in src/service.
use thread_haul_daemon.Base.{
  ℕ, ◌+◌, ◌≤◌, ◌<◌, ◌*◌, ◌^◌, ◌⊎◌, some, false, Bool, ◌==◌, ◌≡◌, ◌↔◌, refl, true, List, [], ◌∷◌,
  arith, length, codes, nat_real,
}
use thread_haul_daemon.Controller.{Agent, Policy, locked_out, find_failures}
use thread_haul_daemon.Controller.Lockout.{record_failures, record_failures-locked_out}
use thread_haul_daemon.Service.Coordination.{wait, backoff_after}
use thread_haul_daemon.Service.Coordination.Waits.{capped, wait-Ends}

abbrev later : List ℕ
later = 101000 ∷ 102000 ∷ 103000 ∷ 159000 ∷ []

record_failures-locked_out_example :
    ((locked_out 160000
        (codes "10.0.0.9")
        (record_failures (100000 ∷ later) (codes "10.0.0.9") [])).0
      ≡ true)
    ↔ ((4 ≤ length later) × (160000 ≤ 100000 + 60000))
unfolding find_failures
record_failures-locked_out_example =
    record_failures-locked_out 100000 160000 later (codes "10.0.0.9") [] refl
      (omega arith, (omega arith, (omega arith, (omega arith, tt))))

abbrev agents : List (Agent ℕ)
agents =
    record { id = 1; host = codes "a"; pressure = 90; bias_sent = 0 }
    ∷ record { id = 2; host = codes "b"; pressure = 40; bias_sent = 5 }
    ∷ []

abbrev policy : Policy ℕ
policy = record { threshold = 85; cluster_percent = 50; bias = 5 }

-- Told to stop after three sleeps.
abbrev after_three : ℕ → Bool
after_three n = n == 3

wait-Ends_example :
    (n : ℕ) × (wait (backoff_after 6) after_three ≡ some n)
    × (backoff_after 6 ≡ capped (1000 * 2 ^ 6))
    × (n ≤ 300)
    × (100 * n < backoff_after 6 + 100)
    × ((backoff_after 6 ≤ 100 * n) ⊎ (after_three n ≡ true))
    × ((j : ℕ) → j < n → after_three j ≡ false)
wait-Ends_example = wait-Ends 6 after_three
