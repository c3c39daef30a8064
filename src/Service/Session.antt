-- ===== src/Service/Session.antt =====
-- src/service/SessionGuard.h: the access key of the dashboard. A time is a number of ticks since
-- the epoch of the steady clock; the clock and the key generator are arguments.
pub mod Keys
pub mod Lockout
use thread_haul_daemon.Base.{
  ℕ, zero, suc, ◌+◌, ◌-◌, Bool, true, false, not, ◌&&◌, ◌||◌, List, [], ◌∷◌, ◌++◌, ltb, leb, ◌==◌,
  length, if◌then◌else◌,
}
use Prim.Native.Nat.{bit_or, bit_xor}

pub data Verdict : Type 0 where
  valid invalid expired locked : Verdict

pub record Limits : Type 0 where
  pub idle : ℕ
  pub absolute : ℕ
  pub max_failures : ℕ
  pub failure_window : ℕ
  pub lockout : ℕ

-- An empty key is no key.
pub record Guard : Type 0 where
  pub key : List ℕ
  pub issued : ℕ
  pub last_use : ℕ
  pub locked_until : ℕ
  pub failures : List ℕ

unfoldable pub new_guard : Guard
new_guard = record { key = []; issued = 0; last_use = 0; locked_until = 0; failures = [] }

-- `diff |= a[i] ^ b[i]` over both texts.
unfoldable pub difference : ℕ → List ℕ → List ℕ → ℕ
difference diff (a ∷ xs) (b ∷ ys) = difference (bit_or diff (bit_xor a b)) xs ys
difference diff _ _ = diff

unfoldable pub equal : List ℕ → List ℕ → Bool
unfolding difference
equal a b = length a == length b && difference 0 a b == 0

abbrev pub has_no_key : Guard → Bool
has_no_key g = elim g.key [ [] ↦ true | c ∷ cs ↦ false ]

-- The time since `past`, by the clock at `t`, is over `limit`.
abbrev pub over : ℕ → ℕ → ℕ → Bool
over t past limit = ltb limit (t - past)

-- `while (!failures_.empty() && t - failures_.front() > failureWindow) pop_front()`
unfoldable pub drop_old : ℕ → ℕ → List ℕ → List ℕ
drop_old t window [] = []
drop_old t window (f ∷ fs) = if over t f window then drop_old t window fs else f ∷ fs

module _ (limits : Limits) where
  unfoldable pub is_expired : ℕ → Guard → Bool
  is_expired t g = over t g.last_use limits.idle || over t g.issued limits.absolute

  -- `fresh` is what the generator returns.
  unfoldable pub current_or_new_key : List ℕ → ℕ → Guard → List ℕ × Guard
  unfolding is_expired
  current_or_new_key fresh t g =
      if has_no_key g || is_expired t g
      then (fresh, record g { key = fresh; issued = t; last_use = t })
      else (g.key, g)

  unfoldable pub fail : ℕ → Guard → Verdict × Guard
  unfolding drop_old
  fail t g =
      let recent = drop_old t limits.failure_window (g.failures ++ (t ∷ [])) in
      if leb limits.max_failures (length recent)
      then (locked, record g { locked_until = t + limits.lockout; failures = [] })
      else (invalid, record g { failures = recent })

  unfoldable pub check : List ℕ → ℕ → Guard → Verdict × Guard
  unfolding is_expired equal fail
  check presented t g =
      if ltb t g.locked_until
      then (locked, g)
      else if has_no_key g || not (equal presented g.key)
      then fail t g
      else if is_expired t g
      then (expired, record g { key = [] })
      else (valid, record g { last_use = t })

unfoldable pub revoke : Guard → Guard
revoke g = record g { key = [] }
