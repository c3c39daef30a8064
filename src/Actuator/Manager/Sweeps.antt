-- ===== src/Actuator/Manager/Sweeps.antt =====
-- The loops over the machines (src/actuator/ActuatorManager.cpp), whatever they do at each.
use thread_haul_daemon.Base.{
  ℕ, ◌≡◌, ◌≢◌, refl, true, false, List, [], ◌∷◌, Option, none, some, ◌==◌, if◌then◌else◌, All, sym,
  subst, ℕ_discrete, ==_iff, ==_ne,
}
use thread_haul_daemon.Actuator.Machine.{Machine}
use thread_haul_daemon.Actuator.Manager.{
  Visit, sweep, keep_entry, erase_machine, put_machine, find_machine,
}

abbrev pub AllMachines {κ} : {D : Type 0} → (ℕ → Machine D → Type κ) → List (ℕ × Machine D) → Type κ
AllMachines P ms = All (λ e. P e.0 e.1) ms

-- No machine stands under the key.
abbrev pub IsFresh : {D : Type 0} → ℕ → List (ℕ × Machine D) → Type 0
IsFresh key ms = All (λ e. e.0 ≢ key) ms

abbrev pub IsUnique : {D : Type 0} → List (ℕ × Machine D) → Type 0
IsUnique [] = Unit
IsUnique (e ∷ rest) = IsFresh e.0 rest × IsUnique rest

module _ {D : Type 0} where
  keep_entry-All {κ} :
      (P : ℕ → Machine D → Type κ) (key : ℕ) (o : Option (Machine D)) (ms : List (ℕ × Machine D))
      → ((n : Machine D) → o ≡ some n → P key n)
      → AllMachines P ms
      → AllMachines P (keep_entry key o ms)
  keep_entry-All P key none ms h all = all
  keep_entry-All P key (some n) ms h all = (h n refl, all)

  module _ {W : Type 0} (visit : ℕ → Machine D → W → Visit D W) where
    pub sweep-All {κ μ} :
        (P : ℕ → Machine D → Type κ) (Q : ℕ → Machine D → Type μ)
        → ((key : ℕ) (m : Machine D) (w : W) (n : Machine D)
            → P key m
            → (visit key m w).kept ≡ some n
            → Q key n)
        → (ms : List (ℕ × Machine D)) (w : W) → AllMachines P ms
        → AllMachines Q (sweep visit ms w).machines
    unfolding sweep
    sweep-All P Q keeps [] w h = tt
    sweep-All P Q keeps ((key, m) ∷ ms) w h =
        let v = visit key m w in
        keep_entry-All Q key v.kept (sweep visit ms v.world).machines (λ n e. keeps key m w n h.0 e)
          (sweep-All P Q keeps ms v.world h.1)

    keep_entry-IsUnique :
        (key : ℕ) (o : Option (Machine D)) (ms : List (ℕ × Machine D))
        → IsFresh key ms
        → IsUnique ms
        → IsUnique (keep_entry key o ms)
    keep_entry-IsUnique key none ms f u = u
    keep_entry-IsUnique key (some n) ms f u = (f, u)

    pub sweep-IsUnique :
        (ms : List (ℕ × Machine D)) (w : W) → IsUnique ms → IsUnique (sweep visit ms w).machines
    unfolding sweep
    sweep-IsUnique [] w u = tt
    sweep-IsUnique ((key, m) ∷ ms) w u =
        let v = visit key m w in
        keep_entry-IsUnique key v.kept (sweep visit ms v.world).machines
          (sweep-All (λ k _. k ≢ key) (λ k _. k ≢ key) (λ k _ _ _ h _. h) ms v.world u.0)
          (sweep-IsUnique ms v.world u.1)

  pub erase-All {κ} :
      (P : ℕ → Machine D → Type κ) (pid : ℕ) (ms : List (ℕ × Machine D))
      → AllMachines P ms
      → AllMachines P (erase_machine pid ms)
  unfolding erase_machine
  erase-All P pid [] h = tt
  erase-All P pid ((key, m) ∷ ms) h =
      elim (key == pid)
        as (λ b. AllMachines P (if b then ms else (key, m) ∷ erase_machine pid ms)) [
          | true ↦ h.1
          | false ↦ (h.0, erase-All P pid ms h.1)
        ]

  pub erase-IsUnique :
      (pid : ℕ) (ms : List (ℕ × Machine D)) → IsUnique ms → IsUnique (erase_machine pid ms)
  unfolding erase_machine
  erase-IsUnique pid [] u = tt
  erase-IsUnique pid ((key, m) ∷ ms) u =
      elim (key == pid) as (λ b. IsUnique (if b then ms else (key, m) ∷ erase_machine pid ms)) [
        | true ↦ u.1
        | false ↦ (erase-All (λ k _. k ≢ key) pid ms u.0, erase-IsUnique pid ms u.1)
      ]

  -- The replacement is made at the machine that `find_machine` finds.
  pub put-All {κ} :
      (P : ℕ → Machine D → Type κ) (pid : ℕ) (n : Machine D) (ms : List (ℕ × Machine D))
      → ((m : Machine D) → find_machine pid ms ≡ some m → P pid m → P pid n)
      → AllMachines P ms
      → AllMachines P (put_machine pid n ms)
  unfolding put_machine find_machine
  put-All P pid n [] h all = tt
  put-All P pid n ((key, m) ∷ ms) h all = elim (ℕ_discrete key pid) [
    | yes e ↦
        let t = (==_iff key pid).1 e in
        rw t (subst (λ k. P k n) (sym e) (h m (rw t refl) (subst (λ k. P k m) e all.0)), all.1)
    | no d ↦ let f = ==_ne key pid d in rw f (all.0, put-All P pid n ms (λ k e. h k (rw f e)) all.1)
  ]

  pub put-IsUnique :
      (pid : ℕ) (n : Machine D) (ms : List (ℕ × Machine D))
      → IsUnique ms
      → IsUnique (put_machine pid n ms)
  unfolding put_machine
  put-IsUnique pid n [] u = tt
  put-IsUnique pid n ((key, m) ∷ ms) u =
      elim (key == pid)
        as (λ b. IsUnique (if b then (key, n) ∷ ms else (key, m) ∷ put_machine pid n ms)) [
          | true ↦ u
          | false ↦ (put-All (λ k _. k ≢ key) pid n ms (λ _ _ h. h) u.0, put-IsUnique pid n ms u.1)
        ]

  pub find_none-IsFresh :
      (pid : ℕ) (ms : List (ℕ × Machine D)) → find_machine pid ms ≡ none → IsFresh pid ms
  unfolding find_machine
  find_none-IsFresh pid [] e = tt
  find_none-IsFresh pid ((key, m) ∷ ms) e = elim (ℕ_discrete key pid) [
    | yes d ↦ cc (rw ((==_iff key pid).1 d) at e)
    | no d ↦ (d, find_none-IsFresh pid ms (rw (==_ne key pid d) at e))
  ]
