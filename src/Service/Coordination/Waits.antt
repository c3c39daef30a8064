-- ===== src/Service/Coordination/Waits.antt =====
-- The client waits for a bounded time (src/service/Coordination.cpp).
use thread_haul_daemon.Base.{
  ℕ, zero, suc, ◌+◌, ◌*◌, ◌≤◌, ◌<◌, ◌≡◌, ◌⊎◌, refl, inl, inr, Bool, true, false, not, ◌&&◌, Option,
  some, ltb, arith, Bool-cases, by_test, and-true_parts, ℕ_discrete, subst, ap, ◌∙◌, ◌^◌,
  if◌then◌else◌,
}
use thread_haul_daemon.Service.Coordination.{next_backoff, backoff_after, wait_from, wait}

backoff_after_bounds : (n : ℕ) → (1000 ≤ backoff_after n) × (backoff_after n ≤ 30000)
unfolding backoff_after next_backoff
backoff_after_bounds zero = (omega arith, omega arith)
backoff_after_bounds (suc n) =
    let h = backoff_after_bounds n in (ground (arith, h.0, h.1), ground (arith, h.0, h.1))

-- 1 s, doubled for each attempt, and 30 s at most.
abbrev pub capped : ℕ → ℕ
capped ms = if ltb 30000 ms then 30000 else ms

next_backoff-capped : (ms : ℕ) → next_backoff (capped ms) ≡ capped (ms * 2)
unfolding next_backoff
next_backoff-capped ms = ground arith

backoff_after_lem : (n : ℕ) → backoff_after n ≡ capped (1000 * 2 ^ n)
unfolding backoff_after
backoff_after_lem zero = refl
backoff_after_lem (suc n) =
    let doubled : 1000 * 2 ^ n * 2 ≡ 1000 * 2 ^ suc n = omega arith in
    ap next_backoff (backoff_after_lem n) ∙ next_backoff-capped (1000 * 2 ^ n) ∙ ap capped doubled

-- What a wait that ends after `n` sleeps in all is, from a point of the loop on: the time is not
-- passed by 100 ms or more, it is over or the client was told to stop, and it was not told before.
abbrev pub IsWaited : ℕ → (ℕ → Bool) → ℕ → ℕ → ℕ → Type 0
IsWaited backoff stopping slept waited n =
    (slept ≤ n)
    × (waited + 100 * n < backoff + 100 + 100 * slept)
    × ((backoff + 100 * slept ≤ waited + 100 * n) ⊎ (stopping n ≡ true))
    × ((j : ℕ) → slept ≤ j → j < n → stopping j ≡ false)

abbrev pub Ends : ℕ → (ℕ → Bool) → ℕ → ℕ → Option ℕ → Type 0
Ends backoff stopping slept waited o =
    (n : ℕ) × (o ≡ some n) × IsWaited backoff stopping slept waited n

from_next :
    (slept n : ℕ) (stopping : ℕ → Bool)
    → stopping slept ≡ false
    → ((j : ℕ) → slept + 1 ≤ j → j < n → stopping j ≡ false)
    → (j : ℕ) → slept ≤ j
    → j < n
    → stopping j ≡ false
from_next slept n stopping now later j h k = elim (ℕ_discrete slept j) [
  | yes e ↦ subst (λ i. stopping i ≡ false) e now
  | no d ↦ later j (ground (arith, h, d)) k
]

wait_from-Ends :
    (fuel backoff waited : ℕ) (stopping : ℕ → Bool) (slept : ℕ)
    → waited < backoff + 100
    → backoff + 100 ≤ waited + 100 * fuel
    → Ends backoff stopping slept waited (wait_from fuel backoff waited stopping slept)
unfolding wait_from
wait_from-Ends zero backoff waited stopping slept h k = absurd (omega (arith, h, k))
wait_from-Ends (suc fuel) backoff waited stopping slept h k =
    by_test (Ends backoff stopping slept waited) (ltb waited backoff && not (stopping slept))
      (λ e.
        let parts = and-true_parts (ltb waited backoff) (not (stopping slept)) e in
        let below : waited < backoff = ground (arith, parts.0) in
        let free : stopping slept ≡ false = ground (arith, parts.1) in
        let (n, found, (more, near, done, quiet)) =
          wait_from-Ends fuel backoff (waited + 100) stopping (slept + 1) (omega (arith, below))
            (omega (arith, k)) in
        (
          n,
          found,
          (
            omega (arith, more),
            omega (arith, near),
            elim done [ inl over ↦ inl (omega (arith, over)) | inr told ↦ inr told ],
            from_next slept n stopping free quiet,
          ),
        ))
      (λ e. (
        slept,
        refl,
        (
          omega arith,
          omega (arith, h),
          elim (Bool-cases (stopping slept)) [
            | inl told ↦ inr told
            | inr free ↦ inl (ground (arith, e, free))
          ],
          λ j a b. absurd (omega (arith, a, b)),
        ),
      ))

-- The time to wait is 1 s, doubled for each attempt that failed before, and 30 s at most. Whatever
-- that number is, the wait ends after at most 300 sleeps of 100 ms: at the first sleep after which
-- the client is told to stop, and otherwise when the time is over. It never sleeps a whole 100 ms
-- longer than the time.
pub wait-Ends :
    (failed : ℕ) (stopping : ℕ → Bool)
    → let backoff = backoff_after failed in
      (n : ℕ) × (wait backoff stopping ≡ some n)
      × (backoff ≡ capped (1000 * 2 ^ failed))
      × (n ≤ 300)
      × (100 * n < backoff + 100)
      × ((backoff ≤ 100 * n) ⊎ (stopping n ≡ true))
      × ((j : ℕ) → j < n → stopping j ≡ false)
unfolding wait
wait-Ends failed stopping =
    let bounds = backoff_after_bounds failed in
    let (n, found, (more, near, done, quiet)) =
      wait_from-Ends 301 (backoff_after failed) 0 stopping 0 (omega arith)
        (omega (arith, bounds.1)) in
    (
      n,
      found,
      backoff_after_lem failed,
      omega (arith, near, bounds.1),
      omega (arith, near),
      elim done [ inl over ↦ inl (omega (arith, over)) | inr told ↦ inr told ],
      λ j k. quiet j (omega arith) k,
    )
