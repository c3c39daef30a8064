-- ===== src/Telemetry/AutoPolicy/Selection.antt =====
-- `SelectAutoTargets` (src/telemetry/AutoProtectPolicy.h) takes the heaviest candidates.
use mathlib.Core.List.Perm
use mathlib.Core.List.{Perm, append-nil}
use thread_haul_daemon.Base.{
  ℕ, zero, suc, ◌≤◌, ◌≡◌, ◌≢◌, refl, sym, ap, subst, inl, inr, true, false, not, List, [], ◌∷◌,
  ◌++◌, arith, length, ltb, if◌then◌else◌, keep_if, All, All-mono, Real, IsTotal, less, Bool-cases,
}
use thread_haul_daemon.Telemetry.AutoPolicy.{
  AutoCandidate, before, place, sort, first, select_auto_targets,
}

module _ {D : Type 0} ⦃r : Real D⦄ where
  -- No member stands behind one that it should precede.
  abbrev IsSorted : List (AutoCandidate D) → Type 0
  IsSorted [] = Unit {0}
  IsSorted (x ∷ xs) = All (λ y. before y x ≡ false) xs × IsSorted xs

  before_asymm : (a b : AutoCandidate D) → before a b ≡ true → before b a ≡ false
  unfolding before
  before_asymm a b h = ground (arith, r.lt-not_le b.cpu a.cpu, r.lt_le a.cpu b.cpu)

  before_negative_trans :
      (total : IsTotal r) (a b c : AutoCandidate D)
      → before b a ≡ false
      → before c b ≡ false
      → before c a ≡ false
  unfolding before
  before_negative_trans total a b c h k = ground (
    arith,
    total.not_le-lt a.cpu b.cpu,
    total.not_le-lt b.cpu c.cpu,
    total.total a.cpu b.cpu,
    total.total b.cpu c.cpu,
    r.le_trans a.cpu b.cpu c.cpu,
    r.le_trans c.cpu b.cpu a.cpu,
    r.le_trans b.cpu c.cpu a.cpu,
    r.le_trans b.cpu a.cpu c.cpu,
    r.le_trans a.cpu c.cpu b.cpu,
    r.le_trans c.cpu a.cpu b.cpu,
    r.lt-not_le a.cpu c.cpu,
    r.lt-not_le c.cpu a.cpu,
  )

  place-perm : (c : AutoCandidate D) (xs : List (AutoCandidate D)) → Perm (place c xs) (c ∷ xs)
  unfolding place
  place-perm c [] = Perm.refl (c ∷ [])
  place-perm c (x ∷ xs) =
      elim (before c x) as (λ b. Perm (if b then c ∷ x ∷ xs else x ∷ place c xs) (c ∷ x ∷ xs)) [
        | true ↦ Perm.refl (c ∷ x ∷ xs)
        | false ↦ Perm.trans (Perm.cons x (place-perm c xs)) (Perm.swap c x xs)
      ]

  sort-perm : (xs : List (AutoCandidate D)) → Perm (sort xs) xs
  unfolding sort
  sort-perm [] = Perm.refl []
  sort-perm (c ∷ cs) = Perm.trans (place-perm c (sort cs)) (Perm.cons c (sort-perm cs))

  place-All {κ} :
      (P : AutoCandidate D → Type κ) (c : AutoCandidate D) (xs : List (AutoCandidate D))
      → P c
      → All P xs
      → All P (place c xs)
  unfolding place
  place-All P c [] h k = (h, tt)
  place-All P c (x ∷ xs) h k =
      elim (before c x) as (λ b. All P (if b then c ∷ x ∷ xs else x ∷ place c xs)) [
        | true ↦ (h, k)
        | false ↦ (k.0, place-All P c xs h k.1)
      ]

  place-IsSorted :
      (total : IsTotal r) (c : AutoCandidate D) (xs : List (AutoCandidate D))
      → IsSorted xs
      → IsSorted (place c xs)
  unfolding place
  place-IsSorted total c [] s = (tt, tt)
  place-IsSorted total c (x ∷ xs) s = elim (Bool-cases (before c x)) [
    | inl e ↦
        let ahead = before_asymm c x e in
        rw e (
          (
            ahead,
            All-mono (λ y. before y x ≡ false) (λ y. before y c ≡ false)
                (λ y h. before_negative_trans total c x y ahead h) xs s.0,
          ),
          s,
        )
    | inr e ↦ rw e (place-All (λ y. before y x ≡ false) c xs e s.0, place-IsSorted total c xs s.1)
  ]

  sort-IsSorted : (total : IsTotal r) (xs : List (AutoCandidate D)) → IsSorted (sort xs)
  unfolding sort
  sort-IsSorted total [] = tt
  sort-IsSorted total (c ∷ cs) = place-IsSorted total c (sort cs) (sort-IsSorted total cs)

  -- The chosen and the others of a list: the chosen come first, fill the slots if any are left
  -- over, and none of the others precedes one of them.
  abbrev pub Chooses : ℕ → List (AutoCandidate D) → List (AutoCandidate D) → Type 0
  Chooses slots cs chosen =
      (rest : List (AutoCandidate D)) × (Perm (chosen ++ rest) cs)
      × (length chosen ≤ slots)
      × (rest ≢ [] → length chosen ≡ slots)
      × All (λ a. All (λ b. before b a ≡ false) rest) chosen

  beyond : ℕ → List (AutoCandidate D) → List (AutoCandidate D)
  beyond n [] = []
  beyond zero (c ∷ cs) = c ∷ cs
  beyond (suc n) (c ∷ cs) = beyond n cs

  first-append : (n : ℕ) (xs : List (AutoCandidate D)) → first n xs ++ beyond n xs ≡ xs
  unfolding first beyond
  first-append zero [] = refl
  first-append (suc n) [] = refl
  first-append zero (x ∷ xs) = refl
  first-append (suc n) (x ∷ xs) = rw (first-append n xs)

  beyond-All {κ} :
      (P : AutoCandidate D → Type κ) (n : ℕ) (xs : List (AutoCandidate D))
      → All P xs
      → All P (beyond n xs)
  unfolding beyond
  beyond-All P zero [] h = tt
  beyond-All P (suc n) [] h = tt
  beyond-All P zero (x ∷ xs) h = h
  beyond-All P (suc n) (x ∷ xs) h = beyond-All P n xs h.1

  first-leads :
      (n : ℕ) (xs : List (AutoCandidate D))
      → IsSorted xs
      → All (λ a. All (λ b. before b a ≡ false) (beyond n xs)) (first n xs)
  unfolding first beyond
  first-leads zero [] s = tt
  first-leads (suc n) [] s = tt
  first-leads zero (x ∷ xs) s = tt
  first-leads (suc n) (x ∷ xs) s =
      (beyond-All (λ y. before y x ≡ false) n xs s.0, first-leads n xs s.1)

  length-first :
      (n : ℕ) (xs : List (AutoCandidate D))
      → (length (first n xs) ≤ n) × (beyond n xs ≢ [] → length (first n xs) ≡ n)
  unfolding first beyond
  length-first zero [] = (omega arith, λ h. refl)
  length-first (suc n) [] = (omega arith, λ h. absurd (h refl))
  length-first zero (x ∷ xs) = (omega arith, λ h. refl)
  length-first (suc n) (x ∷ xs) =
      (omega (arith, (length-first n xs).0), λ h. ap suc ((length-first n xs).1 h))

  All-lead_none : (xs : List (AutoCandidate D)) → All (λ a. All (λ b. before b a ≡ false) []) xs
  All-lead_none [] = tt
  All-lead_none (x ∷ xs) = (tt, All-lead_none xs)

  pub length-select_auto_targets :
      (eligible : List (AutoCandidate D)) (min_cpu : D) (slots : ℕ)
      → length (select_auto_targets eligible min_cpu slots) ≤ slots
  unfolding select_auto_targets
  length-select_auto_targets eligible min_cpu slots =
      let heavy = keep_if (λ (c : AutoCandidate D). not (less c.cpu min_cpu)) eligible in
      let sorted = sort heavy in
      elim (Bool-cases (ltb slots (length sorted))) [
        | inl over ↦ rw over (length-first slots sorted).0
        | inr fits ↦ rw fits (ground arith)
      ]

  -- Where no two loads are incomparable (no NaN), the choice is made among the candidates that are
  -- not lighter than the limit: at most `slots` of them, all of them unless the slots are filled,
  -- and no candidate left out precedes one chosen, that is, is heavier or, at the same load, has a
  -- smaller process id.
  pub select_auto_targets-Chooses :
      (total : IsTotal r) (eligible : List (AutoCandidate D)) (min_cpu : D) (slots : ℕ)
      → Chooses slots
          (keep_if (λ c. not (less c.cpu min_cpu)) eligible)
          (select_auto_targets eligible min_cpu slots)
  unfolding select_auto_targets
  select_auto_targets-Chooses total eligible min_cpu slots =
      let heavy = keep_if (λ (c : AutoCandidate D). not (less c.cpu min_cpu)) eligible in
      let sorted = sort heavy in
      elim (Bool-cases (ltb slots (length sorted))) [
        | inl over ↦ rw over (
          beyond slots sorted,
          subst (λ l. Perm l heavy) (sym (first-append slots sorted)) (sort-perm heavy),
          (length-first slots sorted).0,
          (length-first slots sorted).1,
          first-leads slots sorted (sort-IsSorted total heavy),
        )
        | inr within ↦ rw within (
          [],
          rw append-nil (sort-perm heavy),
          ground arith,
          (λ h. absurd (h refl)),
          All-lead_none sorted,
        )
      ]
