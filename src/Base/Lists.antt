-- ===== src/Base/Lists.antt =====
-- Lists measured by native numbers, and predicates on every member.
use Prim.Native.Nat.{ℕ, zero, suc, ◌+◌}
use mathlib.Core.Path.{◌≡◌, refl, ap, ap₂}
use mathlib.Core.Logic.{◌⊎◌, inl, inr}
use mathlib.Core.Bool.{Bool, true, false, ◌&&◌, ◌||◌}
use mathlib.Core.List.{List, [], ◌∷◌, ◌++◌}
use native.Mathlib.Omega.{arith}
use thread_haul_daemon.Base.Tests.{
  ◌==◌, ==_iff, ==_self, and-true_parts, or-false_parts, if◌then◌else◌,
}

-- No value, at any level.
pub data Empty {ℓ} : Type ℓ where

module _ {ℓ} {A : Type ℓ} where
  abbrev pub length : List A → ℕ
  length [] = 0
  length (x ∷ xs) = suc (length xs)

  pub length-append : (xs ys : List A) → length (xs ++ ys) ≡ length xs + length ys
  length-append [] ys = omega arith
  length-append (x ∷ xs) ys = omega (arith, length-append xs ys)

  -- Every member satisfies `P`.
  abbrev pub All {κ} : (A → Type κ) → List A → Type κ
  All P [] = Unit
  All P (x ∷ xs) = P x × All P xs

  pub All-append {κ} : (P : A → Type κ) (xs ys : List A) → All P xs → All P ys → All P (xs ++ ys)
  All-append P [] ys hx hy = hy
  All-append P (x ∷ xs) ys hx hy = (hx.0, All-append P xs ys hx.1 hy)

  pub All-mono {κ μ} :
      (P : A → Type κ) (Q : A → Type μ)
      → ((a : A) → P a → Q a)
      → (xs : List A) → All P xs
      → All Q xs
  All-mono P Q f [] h = tt
  All-mono P Q f (x ∷ xs) h = (f x h.0, All-mono P Q f xs h.1)

  -- Some member satisfies `P`.
  abbrev pub Any {κ} : (A → Type κ) → List A → Type κ
  Any P [] = Empty
  Any P (x ∷ xs) = P x ⊎ Any P xs

  pub Any-append_left {κ} : (P : A → Type κ) (xs ys : List A) → Any P xs → Any P (xs ++ ys)
  Any-append_left P [] ys h = elim h [ ]
  Any-append_left P (x ∷ xs) ys (inl h) = inl h
  Any-append_left P (x ∷ xs) ys (inr h) = inr (Any-append_left P xs ys h)

  pub Any-append_right {κ} : (P : A → Type κ) (xs ys : List A) → Any P ys → Any P (xs ++ ys)
  Any-append_right P [] ys h = h
  Any-append_right P (x ∷ xs) ys h = inr (Any-append_right P xs ys h)

  abbrev pub drop : ℕ → List A → List A
  drop zero xs = xs
  drop (suc n) [] = []
  drop (suc n) (x ∷ xs) = drop n xs

  -- Does some member satisfy the test? (`std::any_of`)
  abbrev pub any_of : (A → Bool) → List A → Bool
  any_of p [] = false
  any_of p (x ∷ xs) = p x || any_of p xs

  pub none_of : (p : A → Bool) (xs : List A) → any_of p xs ≡ false → All (λ x. p x ≡ false) xs
  none_of p [] h = tt
  none_of p (x ∷ xs) h =
      let parts = or-false_parts (p x) (any_of p xs) h in (parts.0, none_of p xs parts.1)

  -- The members that satisfy the test, in order.
  abbrev pub keep_if : (A → Bool) → List A → List A
  keep_if p [] = []
  keep_if p (x ∷ xs) = if p x then x ∷ keep_if p xs else keep_if p xs

-- How often a number stands in a list.
abbrev pub count : ℕ → List ℕ → ℕ
count a [] = 0
count a (x ∷ xs) = (if x == a then 1 else 0) + count a xs

-- `==` on strings.
abbrev pub eq_text : List ℕ → List ℕ → Bool
eq_text [] [] = true
eq_text (a ∷ xs) (b ∷ ys) = a == b && eq_text xs ys
eq_text _ _ = false

-- Does the first text begin with the second?
abbrev pub starts_with : List ℕ → List ℕ → Bool
starts_with xs [] = true
starts_with [] (b ∷ ys) = false
starts_with (a ∷ xs) (b ∷ ys) = a == b && starts_with xs ys

pub eq_text_eq : (xs ys : List ℕ) → eq_text xs ys ≡ true → xs ≡ ys
eq_text_eq [] [] h = refl
eq_text_eq [] (b ∷ ys) h = cc
eq_text_eq (a ∷ xs) [] h = cc
eq_text_eq (a ∷ xs) (b ∷ ys) h =
    let parts = and-true_parts (a == b) (eq_text xs ys) h in
    ap₂ (λ x l. x ∷ l) ((==_iff a b).0 parts.0) (eq_text_eq xs ys parts.1)

pub eq_text_self : (xs : List ℕ) → eq_text xs xs ≡ true
eq_text_self [] = refl
eq_text_self (a ∷ xs) = ground (arith, eq_text_self xs, ==_self a)

pub starts_with-++ : (xs ys : List ℕ) → starts_with (xs ++ ys) xs ≡ true
starts_with-++ [] ys = refl
starts_with-++ (a ∷ xs) ys = ground (arith, starts_with-++ xs ys, ==_self a)

pub append_nil {ℓ} : {A : Type ℓ} (xs : List A) → xs ++ [] ≡ xs
append_nil [] = refl
append_nil (x ∷ xs) = ap (λ l. x ∷ l) (append_nil xs)

pub append_assoc {ℓ} : {A : Type ℓ} (xs ys zs : List A) → (xs ++ ys) ++ zs ≡ xs ++ (ys ++ zs)
append_assoc [] ys zs = refl
append_assoc (x ∷ xs) ys zs = ap (λ l. x ∷ l) (append_assoc xs ys zs)
