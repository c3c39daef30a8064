-- ===== src/Service/Session/Lockout.antt =====
-- Sequences of checks, as of somebody who tries keys (`SessionGuard::Check` in
-- src/service/SessionGuard.h).
use thread_haul_daemon.Base.{
  ℕ, ◌+◌, ◌≤◌, ◌<◌, ◌≡◌, ◌≢◌, ◌⊎◌, refl, sym, ap, ◌∙◌, subst, true, false, List, [], ◌∷◌, ◌++◌, ltb,
  length, length-append, append_nil, append_assoc, All, All-mono, All-append, Any, arith,
  Bool-cases, inl, inr, if◌then◌else◌,
}
use thread_haul_daemon.Service.Session.Keys.{equal_iff}
use thread_haul_daemon.Service.Session.{
  Verdict, valid, locked, Limits, Guard, has_no_key, over, drop_old, fail, check, revoke,
}

pub record Attempt : Type 0 where
  pub presented : List ℕ
  pub at : ℕ

-- The verdicts of one check after another.
unfoldable pub try_keys : Limits → List Attempt → Guard → List Verdict × Guard
try_keys limits [] g = ([], g)
try_keys limits (a ∷ rest) g =
    let o = check limits a.presented a.at g in let p = try_keys limits rest o.1 in (o.0 ∷ p.0, p.1)

check-no_key :
    (limits : Limits) (presented : List ℕ) (t : ℕ) (g : Guard)
    → has_no_key g ≡ true
    → let o = check limits presented t g in (o.0 ≢ valid) × (has_no_key o.1 ≡ true)
unfolding check fail
check-no_key limits presented t g h = ground arith

pub try_keys-no_key :
    (limits : Limits) (tries : List Attempt) (g : Guard)
    → has_no_key g ≡ true
    → All (λ v. v ≢ valid) (try_keys limits tries g).0
unfolding try_keys
try_keys-no_key limits [] g h = tt
try_keys-no_key limits (a ∷ rest) g h =
    let step = check-no_key limits a.presented a.at g h in
    (step.0, try_keys-no_key limits rest (check limits a.presented a.at g).1 step.1)

-- After a sign-out no check succeeds, whatever is presented and whenever, until a new key is made.
pub revoke-try_keys :
    (limits : Limits) (tries : List Attempt) (g : Guard)
    → All (λ v. v ≢ valid) (try_keys limits tries (revoke g)).0
unfolding revoke
revoke-try_keys limits tries g = try_keys-no_key limits tries (revoke g) refl

not_over : (t f window : ℕ) → t ≤ f + window → over t f window ≡ false
not_over t f window h = ground arith

-- The failures from `start` on are kept by a check until `start + window`.
drop_old-append :
    (t window : ℕ) (old recent : List ℕ)
    → All (λ f. t ≤ f + window) recent
    → (kept : List ℕ) × (drop_old t window (old ++ recent) ≡ kept ++ recent)
unfolding drop_old
drop_old-append t window [] [] h = ([], refl)
drop_old-append t window [] (f ∷ fs) h = ([], rw (not_over t f window h.0) refl)
drop_old-append t window (f ∷ old) recent h = elim (Bool-cases (over t f window)) [
  | inl e ↦ let rest = drop_old-append t window old recent h in (rest.0, rw e rest.1)
  | inr e ↦ (f ∷ old, rw e refl)
]

module _ (limits : Limits) where
  fail-cases :
      (t : ℕ) (g : Guard)
      → let recent = drop_old t limits.failure_window (g.failures ++ (t ∷ [])) in
        ((fail limits t g).0 ≡ locked)
        ⊎ ((length recent < limits.max_failures)
            × ((fail limits t g).1.failures ≡ recent)
            × ((fail limits t g).1.key ≡ g.key))
  unfolding fail
  fail-cases t g = ground arith

  check-bad :
      (presented : List ℕ) (t : ℕ) (g : Guard)
      → presented ≢ g.key
      → check limits presented t g ≡ (if ltb t g.locked_until then (locked, g) else fail limits t g)
  unfolding check
  check-bad presented t g h = let eq = equal_iff presented g.key in ground arith

  check-locked :
      (presented : List ℕ) (t : ℕ) (g : Guard)
      → t < g.locked_until
      → check limits presented t g ≡ (locked, g)
  unfolding check
  check-locked presented t g h = ground arith

  -- A key that is tried between `start` and the end of the failure window that opens there.
  abbrev pub IsGuess : ℕ → List ℕ → Attempt → Type 0
  IsGuess start key a =
      (a.presented ≢ key) × (start ≤ a.at) × (a.at ≤ start + limits.failure_window)

  -- A wrong key at `t` meets a lockout, or is remembered with `recent`.
  abbrev Guessed : ℕ → Guard → List ℕ → Verdict × Guard → Type 0
  Guessed t g recent o =
      (o.0 ≡ locked)
      ⊎ ((kept : List ℕ) × (o.1.failures ≡ kept ++ (recent ++ (t ∷ [])))
          × (length (recent ++ (t ∷ [])) < limits.max_failures)
          × (o.1.key ≡ g.key))

  failed-guess :
      (t : ℕ) (g : Guard) (old recent : List ℕ)
      → g.failures ≡ old ++ recent
      → All (λ f. t ≤ f + limits.failure_window) recent
      → Guessed t g recent (fail limits t g)
  failed-guess t g old recent e near = elim (fail-cases t g) [
    | inl l ↦ inl l
    | inr (m, f, k) ↦
        let grown : List ℕ = recent ++ (t ∷ []) in
        let all_near =
          All-append (λ f. t ≤ f + limits.failure_window) recent (t ∷ []) near (omega arith, tt) in
        let d = drop_old-append t limits.failure_window old grown all_near in
        let joined =
          ap (λ l. drop_old t limits.failure_window (l ++ (t ∷ []))) e
          ∙ ap (drop_old t limits.failure_window) (append_assoc old recent (t ∷ []))
          ∙ d.1 in
        inr (
          d.0,
          f ∙ joined,
          omega (
            arith,
            subst (λ l. length l < limits.max_failures) joined m,
            length-append d.0 grown,
          ),
          k,
        )
  ]

  check-guess :
      (presented : List ℕ) (t : ℕ) (g : Guard) (old recent : List ℕ)
      → presented ≢ g.key
      → g.failures ≡ old ++ recent
      → All (λ f. t ≤ f + limits.failure_window) recent
      → Guessed t g recent (check limits presented t g)
  check-guess presented t g old recent bad e near =
      subst (Guessed t g recent) (sym (check-bad presented t g bad))
        (elim (ltb t g.locked_until)
          as (λ b. Guessed t g recent (if b then (locked, g) else fail limits t g)) [
            | true ↦ inl refl
            | false ↦ failed-guess t g old recent e near
          ])

  guesses_lem :
      (start : ℕ) (tries : List Attempt) (g : Guard) (old recent : List ℕ)
      → g.failures ≡ old ++ recent
      → All (λ f. start ≤ f) recent
      → length recent < limits.max_failures
      → limits.max_failures ≤ length recent + length tries
      → All (IsGuess start g.key) tries
      → Any (λ v. v ≡ locked) (try_keys limits tries g).0
  unfolding try_keys
  guesses_lem start [] g old recent e a b c h = absurd (omega arith)
  guesses_lem start (x ∷ tries) g old recent e a b c h =
      let t = x.at in
      let near =
        All-mono (λ f. start ≤ f) (λ f. t ≤ f + limits.failure_window) (λ f l. omega (arith, h.0.2))
          recent a in
      elim (check-guess x.presented t g old recent h.0.0 e near) [
        | inl l ↦ inl l
        | inr (kept, f, m, k) ↦ inr (
            guesses_lem start tries (check limits x.presented t g).1 kept (recent ++ (t ∷ [])) f
              (All-append (λ f. start ≤ f) recent (t ∷ []) a (h.0.1, tt)) m
              (omega (arith, c, length-append recent (t ∷ [])))
              (subst (λ key. All (IsGuess start key) tries) (sym k) h.1))
      ]

  -- Let max_failures be positive. Of max_failures or more wrong keys, all tried within one failure
  -- window, one meets a lockout, whatever failures came before.
  pub guesses_locked :
      (start : ℕ) (tries : List Attempt) (g : Guard)
      → 0 < limits.max_failures
      → limits.max_failures ≤ length tries
      → All (IsGuess start g.key) tries
      → Any (λ v. v ≡ locked) (try_keys limits tries g).0
  guesses_locked start tries g p q h =
      guesses_lem start tries g g.failures [] (sym (append_nil g.failures)) tt p (omega (arith, q))
        h

  -- While a lockout lasts every check meets it, the right key included, and changes nothing.
  pub try_keys-locked :
      (tries : List Attempt) (g : Guard)
      → All (λ a. a.at < g.locked_until) tries
      → All (λ v. v ≡ locked) (try_keys limits tries g).0 × ((try_keys limits tries g).1 ≡ g)
  unfolding try_keys
  try_keys-locked [] g h = (tt, refl)
  try_keys-locked (a ∷ rest) g h =
      rw (check-locked a.presented a.at g h.0)
        ((refl, (try_keys-locked rest g h.1).0), (try_keys-locked rest g h.1).1)
