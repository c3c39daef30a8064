-- ===== src/Base/Doubles.antt =====
-- The C++ `double`, which antt has no counterpart of: an interface with the comparisons that the
-- sources make and the laws of IEEE 754 comparisons that the theorems use. A NaN may be among the
-- values: a comparison with it is false, and no law asks for reflexivity or totality.
use Prim.Native.Nat.{ℕ}
use mathlib.Core.Path.{◌≡◌}
use mathlib.Core.Bool.{Bool, true, false, ◌&&◌}
use native.Mathlib.Omega.{arith}
use thread_haul_daemon.Base.Tests.{ltb, leb}

pub record Real (D : Type 0) : Type 0 where
  pub le : D → D → Bool
  pub lt : D → D → Bool
  pub lt-not_le : (a b : D) → lt a b ≡ true → le b a ≡ false
  pub le_trans : (a b c : D) → le a b ≡ true → le b c ≡ true → le a c ≡ true
  pub lt-le_trans : (a b c : D) → lt a b ≡ true → le b c ≡ true → lt a c ≡ true
  pub le-lt_trans : (a b c : D) → le a b ≡ true → lt b c ≡ true → lt a c ≡ true
  pub lt_le : (a b : D) → lt a b ≡ true → le a b ≡ true

-- `a >= b`
abbrev pub ge : {D : Type 0} ⦃r : Real D⦄ → D → D → Bool
ge ⦃r⦄ a b = r.le b a

-- `a < b`
abbrev pub less : {D : Type 0} ⦃r : Real D⦄ → D → D → Bool
less ⦃r⦄ a b = r.lt a b

pub nat_lt-not_le : (a b : ℕ) → ltb a b ≡ true → leb b a ≡ false
nat_lt-not_le a b h = ground arith

pub nat_le_trans : (a b c : ℕ) → leb a b ≡ true → leb b c ≡ true → leb a c ≡ true
nat_le_trans a b c h k = ground arith

pub nat_lt-le_trans : (a b c : ℕ) → ltb a b ≡ true → leb b c ≡ true → ltb a c ≡ true
nat_lt-le_trans a b c h k = ground arith

pub nat_le-lt_trans : (a b c : ℕ) → leb a b ≡ true → ltb b c ≡ true → ltb a c ≡ true
nat_le-lt_trans a b c h k = ground arith

pub nat_lt_le : (a b : ℕ) → ltb a b ≡ true → leb a b ≡ true
nat_lt_le a b h = ground arith

-- Whole percentages, for the concrete runs.
instance abbrev pub nat_real : Real ℕ
nat_real = record {
  le = leb;
  lt = ltb;
  lt-not_le = nat_lt-not_le;
  le_trans = nat_le_trans;
  lt-le_trans = nat_lt-le_trans;
  le-lt_trans = nat_le-lt_trans;
  lt_le = nat_lt_le;
}

-- `a == b`
abbrev pub same : {D : Type 0} ⦃r : Real D⦄ → D → D → Bool
same ⦃r⦄ a b = r.le a b && r.le b a

-- The values in play are no NaN: any two compare.
pub record IsTotal {D : Type 0} (r : Real D) : Type 0 where
  pub total : (a b : D) → r.le a b ≡ false → r.le b a ≡ true
  pub not_le-lt : (a b : D) → r.le b a ≡ false → r.lt a b ≡ true

nat_total_le : (a b : ℕ) → leb a b ≡ false → leb b a ≡ true
nat_total_le a b h = ground arith

nat_not_le-lt : (a b : ℕ) → leb b a ≡ false → ltb a b ≡ true
nat_not_le-lt a b h = ground arith

pub nat-IsTotal : IsTotal nat_real
nat-IsTotal = record { total = nat_total_le; not_le-lt = nat_not_le-lt }
