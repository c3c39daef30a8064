-- ===== src/Telemetry/AutoPolicy.antt =====
-- src/telemetry/AutoProtectPolicy.h: when the whole machine is overloaded, and whom to lower.
pub mod Levels
pub mod Selection
use thread_haul_daemon.Base.{
  ℕ, zero, suc, ◌+◌, Bool, true, false, not, ◌&&◌, List, [], ◌∷◌, ltb, leb, if◌then◌else◌, length,
  keep_if, Real, ge, less, same,
}

pub record AutoSettings (D : Type 0) : Type 0 where
  pub enabled : Bool
  pub throttle_percent : D
  pub throttle_samples : ℕ
  pub use_idle : Bool
  pub idle_percent : D
  pub idle_samples : ℕ
  pub recover_percent : D
  pub recover_samples : ℕ
  pub max_processes : ℕ
  pub min_process_cpu : D

pub data AutoLevel : Type 0 where
  normal throttle idle : AutoLevel

abbrev pub is_normal_level : AutoLevel → Bool
is_normal_level normal = true
is_normal_level _ = false

abbrev pub is_throttle_level : AutoLevel → Bool
is_throttle_level throttle = true
is_throttle_level _ = false

pub record AutoState : Type 0 where
  pub level : AutoLevel
  pub high : ℕ
  pub extreme : ℕ
  pub low : ℕ

unfoldable pub reset_state : AutoState
reset_state = record { level = normal; high = 0; extreme = 0; low = 0 }

module _ {D : Type 0} ⦃r : Real D⦄ where
  next_level : AutoSettings D → AutoState → AutoLevel
  next_level s t =
      if is_normal_level t.level && leb s.throttle_samples t.high
      then throttle
      else if is_throttle_level t.level && s.use_idle && leb s.idle_samples t.extreme
      then idle
      else if not (is_normal_level t.level) && leb s.recover_samples t.low
      then normal
      else t.level

  unfoldable pub update_state : D → AutoSettings D → AutoState → AutoState
  unfolding next_level
  update_state cpu s t =
      let counted : AutoState = record t {
        high = if ge cpu s.throttle_percent then t.high + 1 else 0;
        extreme = if ge cpu s.idle_percent then t.extreme + 1 else 0;
        low = if less cpu s.recover_percent then t.low + 1 else 0;
      } in
      record counted { level = next_level s counted }

pub record AutoCandidate (D : Type 0) : Type 0 where
  pub pid : ℕ
  pub name : List ℕ
  pub cpu : D

module _ {D : Type 0} ⦃r : Real D⦄ where
  -- The comparator: heavier first, then by process id.
  unfoldable pub before : AutoCandidate D → AutoCandidate D → Bool
  before a b = if not (same a.cpu b.cpu) then less b.cpu a.cpu else ltb a.pid b.pid

  unfoldable pub place : AutoCandidate D → List (AutoCandidate D) → List (AutoCandidate D)
  place c [] = c ∷ []
  place c (x ∷ xs) = if before c x then c ∷ x ∷ xs else x ∷ place c xs

  -- `std::sort`, by insertion.
  unfoldable pub sort : List (AutoCandidate D) → List (AutoCandidate D)
  sort [] = []
  sort (c ∷ cs) = place c (sort cs)

  -- `resize(slots)` on a longer vector.
  unfoldable pub first : ℕ → List (AutoCandidate D) → List (AutoCandidate D)
  first slots [] = []
  first zero (c ∷ cs) = []
  first (suc n) (c ∷ cs) = c ∷ first n cs

  unfoldable pub select_auto_targets : List (AutoCandidate D) → D → ℕ → List (AutoCandidate D)
  unfolding sort
  select_auto_targets eligible min_cpu slots =
      let heavy = sort (keep_if (λ c. not (less c.cpu min_cpu)) eligible) in
      if ltb slots (length heavy) then first slots heavy else heavy
