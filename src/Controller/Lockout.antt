-- ===== src/Controller/Lockout.antt =====
-- How long an address is locked out (src/controller/main.cpp).
use thread_haul_daemon.Base.{
  ℕ, suc, ◌+◌, ◌≤◌, ◌≡◌, ◌↔◌, refl, sym, subst, ap, ◌∙◌, true, false, List, [], ◌∷◌, some,
  if◌then◌else◌, length, eq_text, eq_text_self, All, arith, Bool-cases, inl, inr,
}
use thread_haul_daemon.Controller.{
  Failures, find_failures, put_failures, is_old, judged_found, locked_out, entry_of, failed_at,
  record_failure,
}

-- A failure at each of the times.
abbrev pub record_failures : List ℕ → List ℕ → List (List ℕ × Failures) → List (List ℕ × Failures)
record_failures [] peer fs = fs
record_failures (t ∷ ts) peer fs = record_failures ts peer (record_failure t peer fs)

find_put :
    (peer : List ℕ) (f : Failures) (fs : List (List ℕ × Failures))
    → find_failures peer (put_failures peer f fs) ≡ some f
unfolding find_failures put_failures
find_put peer f [] = rw (eq_text_self peer) refl
find_put peer f ((p, g) ∷ rest) = elim (Bool-cases (eq_text p peer)) [
  | inl yes_ ↦ rw (yes_, yes_) refl
  | inr no_ ↦ rw (no_, no_) (find_put peer f rest)
]

-- Later failures in the window only count.
record_failures_lem :
    (ts : List ℕ) (peer : List ℕ) (fs : List (List ℕ × Failures)) (f : Failures)
    → find_failures peer fs ≡ some f
    → All (λ t. t ≤ f.since + 60000) ts
    → find_failures peer (record_failures ts peer fs)
      ≡ some (record f { count = f.count + length ts })
unfolding record_failure
record_failures_lem [] peer fs f e h =
    let same : f.count ≡ f.count + 0 = omega arith in
    e ∙ ap (λ n. some (record f { count = n })) same
record_failures_lem (t ∷ ts) peer fs f e h =
    let fresh : is_old t f ≡ false = ground (arith, h.0) in
    let once : find_failures peer (record_failure t peer fs)
        ≡ some (record f { count = f.count + 1 }) =
      rw e (
        find_put peer (failed_at t f) fs
        ∙ ap
            (λ b. some (record (if b then record { count = 0; since = t } else f) {
              count = (if b then record { count = 0; since = t } else f).count + 1;
            }))
            fresh) in
    let rest =
      record_failures_lem ts peer (record_failure t peer fs) (record f { count = f.count + 1 }) once
        h.1 in
    let same : f.count + 1 + length ts ≡ f.count + suc (length ts) = omega arith in
    rest ∙ ap (λ n. some (record f { count = n })) same

judged_lem :
    (now t0 n : ℕ) (peer : List ℕ) (fs : List (List ℕ × Failures))
    → ((judged_found now peer fs (some (record { count = 1 + n; since = t0 }))).0 ≡ true)
      ↔ ((4 ≤ n) × (now ≤ t0 + 60000))
judged_lem now t0 n peer fs = (λ h. ground arith, λ h. ground (arith, h.0, h.1))

-- An address whose first failure opens a window at `t0`, and which fails again at times in that
-- window, is locked out if and only if these are five failures or more and the window, of 60 s from
-- the first failure on, has not passed. So the lockout is over at most 60 s after the first failure,
-- whenever the fifth one came.
pub record_failures-locked_out :
    (t0 now : ℕ) (ts : List ℕ) (peer : List ℕ) (fs : List (List ℕ × Failures))
    → is_old t0 (entry_of (find_failures peer fs)) ≡ true
    → All (λ t. t ≤ t0 + 60000) ts
    → ((locked_out now peer (record_failures (t0 ∷ ts) peer fs)).0 ≡ true)
      ↔ ((4 ≤ length ts) × (now ≤ t0 + 60000))
unfolding record_failure locked_out
record_failures-locked_out t0 now ts peer fs opens h =
    let first : find_failures peer (record_failure t0 peer fs)
        ≡ some (record { count = 1; since = t0 }) =
      find_put peer (failed_at t0 (entry_of (find_failures peer fs))) fs
      ∙ ap
          (λ b.
            let f = entry_of (find_failures peer fs) in
            some (record (if b then record { count = 0; since = t0 } else f) {
              count = (if b then record { count = 0; since = t0 } else f).count + 1;
            }))
          opens in
    let all_ =
      record_failures_lem ts peer (record_failure t0 peer fs) (record { count = 1; since = t0 })
        first h in
    subst
      (λ o.
        ((judged_found now peer (record_failures ts peer (record_failure t0 peer fs)) o).0 ≡ true)
        ↔ ((4 ≤ length ts) × (now ≤ t0 + 60000)))
      (sym all_)
      (judged_lem now t0 (length ts) peer (record_failures ts peer (record_failure t0 peer fs)))
