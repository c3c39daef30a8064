-- ===== src/Base/Bits.antt =====
-- When an "or" or an exclusive "or" of numbers is zero.
use Prim.Native.Nat.{ℕ, zero, suc, ◌/◌, ◌%◌, ◌≤◌, max, differ, digits, bit_or, bit_xor}
use Prim.Native.Nat.{bit_or-bitwise, bit_xor-bitwise}
use mathlib.Core.Path.{◌≡◌, refl, sym, ◌∙◌}
use native.Mathlib.Omega.{arith}

digits_or-zero : (n a b : ℕ) → a ≤ n → digits (λ y. y) max n a b ≡ 0 → (a ≡ 0) × (b ≡ 0)
digits_or-zero zero zero b h e = (refl, e)
digits_or-zero zero (suc a) b h e = absurd (omega arith)
digits_or-zero (suc n) zero b h e = (refl, e)
digits_or-zero (suc n) (suc a) b h e =
    omega (arith, digits_or-zero n (suc a / 2) (b / 2) (omega arith) (omega arith))

digits_xor-zero : (n a b : ℕ) → a ≤ n → digits (λ y. y) differ n a b ≡ 0 → a ≡ b
digits_xor-zero zero zero b h e = sym e
digits_xor-zero zero (suc a) b h e = absurd (omega arith)
digits_xor-zero (suc n) zero b h e = sym e
digits_xor-zero (suc n) (suc a) b h e =
    let ih = digits_xor-zero n (suc a / 2) (b / 2) (omega arith) (omega arith) in ground (arith, ih)

differ_self : (a : ℕ) → differ a a ≡ 0
differ_self zero = refl
differ_self (suc a) = differ_self a

digits_xor_self : (n a : ℕ) → a ≤ n → digits (λ y. y) differ n a a ≡ 0
digits_xor_self zero zero h = refl
digits_xor_self zero (suc a) h = absurd (omega arith)
digits_xor_self (suc n) zero h = refl
digits_xor_self (suc n) (suc a) h =
    ground (arith, differ_self (suc a % 2), digits_xor_self n (suc a / 2) (omega arith))

pub bit_or-zero_iff : (a b : ℕ) → bit_or a b ≡ 0 → (a ≡ 0) × (b ≡ 0)
bit_or-zero_iff a b e = digits_or-zero a a b (omega arith) (sym (bit_or-bitwise a b) ∙ e)

pub bit_xor-zero_eq : (a b : ℕ) → bit_xor a b ≡ 0 → a ≡ b
bit_xor-zero_eq a b e = digits_xor-zero a a b (omega arith) (sym (bit_xor-bitwise a b) ∙ e)

pub bit_xor_self : (a : ℕ) → bit_xor a a ≡ 0
bit_xor_self a = bit_xor-bitwise a a ∙ digits_xor_self a a (omega arith)
