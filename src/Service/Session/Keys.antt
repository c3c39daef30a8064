-- ===== src/Service/Session/Keys.antt =====
-- Which keys are accepted (`SessionGuard::Check` and `Equal` in src/service/SessionGuard.h).
use thread_haul_daemon.Base.{
  ℕ, ◌≤◌, ◌≡◌, ◌↔◌, refl, ap₂, subst, true, false, List, [], ◌∷◌, ◌==◌, length, arith,
  and-true_parts, ==_iff,
}
use thread_haul_daemon.Base.Bits.{bit_or-zero_iff, bit_xor-zero_eq, bit_xor_self}
use Prim.Native.Nat.{bit_or, bit_xor}
use thread_haul_daemon.Service.Session.{
  valid, Limits, Guard, difference, equal, has_no_key, is_expired, fail, check,
}

difference-zero :
    (d : ℕ) (a b : List ℕ) → length a ≡ length b → difference d a b ≡ 0 → (d ≡ 0) × (a ≡ b)
unfolding difference
difference-zero d [] [] l h = (h, refl)
difference-zero d [] (y ∷ ys) l h = absurd (omega arith)
difference-zero d (x ∷ xs) [] l h = absurd (omega arith)
difference-zero d (x ∷ xs) (y ∷ ys) l h =
    let rest = difference-zero (bit_or d (bit_xor x y)) xs ys (omega arith) h in
    let parts = bit_or-zero_iff d (bit_xor x y) rest.0 in
    (parts.0, ap₂ (λ c cs. c ∷ cs) (bit_xor-zero_eq x y parts.1) rest.1)

difference_self : (a : List ℕ) → difference 0 a a ≡ 0
unfolding difference
difference_self [] = refl
difference_self (x ∷ xs) = rw (bit_xor_self x) (difference_self xs)

-- The comparison without early exit finds two texts equal exactly if they are.
pub equal_iff : (a b : List ℕ) → (equal a b ≡ true) ↔ (a ≡ b)
unfolding equal
equal_iff a b = (
  λ h.
      let parts = and-true_parts (length a == length b) (difference 0 a b == 0) h in
      (difference-zero 0 a b ((==_iff _ _).0 parts.0) ((==_iff _ _).0 parts.1)).1,
  λ e. subst (λ c. equal a c ≡ true) e (ground (arith, difference_self a)),
)

-- A check that succeeds leaves everything but the time of the last use, and succeeds exactly if no
-- lockout is on, there is a key, the presented one is that key, and it has not expired.
pub check-valid_iff :
    (limits : Limits) (presented : List ℕ) (t : ℕ) (g : Guard)
    → let o = check limits presented t g in
      ((o.0 ≡ valid) ↔ (
        (g.locked_until ≤ t)
        × (has_no_key g ≡ false)
        × (presented ≡ g.key)
        × (is_expired limits t g ≡ false)))
      × (o.0 ≡ valid → o.1 ≡ record g { last_use = t })
unfolding check fail
check-valid_iff limits presented t g = let eq = equal_iff presented g.key in ground arith
