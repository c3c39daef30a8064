-- ===== src/Telemetry/Safety.antt =====
-- src/telemetry/ProcessSafety.{h,cpp}: how safe it is to manage a process. The queries of Windows
-- are the parameter `Queries`.
use thread_haul_daemon.Base.{
  is_some, ℕ, Bool, true, false, not, ◌&&◌, ◌||◌, List, [], ◌∷◌, Option, none, some, zero, suc, ltb,
  leb, ◌==◌, if◌then◌else◌, length, any_of,
}

pub data ProcessSafety : Type 0 where
  normal service system essential : ProcessSafety

pub record SafetyInfo : Type 0 where
  pub level : ProcessSafety
  pub image_path : List ℕ

-- "SYSTEM", "LOCAL SERVICE" and "NETWORK SERVICE"
pub data Account : Type 0 where
  local_system local_service network_service : Account

pub record Queries : Type 0 where
  -- `GetCurrentProcessId`
  pub current_pid : ℕ
  -- `CompareStringOrdinal`, ignoring case
  pub same_name : List ℕ → List ℕ → Bool
  -- `OpenProcess` and `QueryFullProcessImageName`: `none` if the process cannot be opened, an empty
  -- path if it cannot be read
  pub image_of : ℕ → Option (List ℕ)
  -- `OpenProcessToken` of a process that could be opened: a handle, `none` where it fails
  pub token_of : ℕ → Option ℕ
  -- `GetTokenInformation` of the token's user: his SID, `none` where it fails
  pub user_of : ℕ → Option (List ℕ)
  -- `CreateWellKnownSid`
  pub well_known_sid : Account → Option (List ℕ)
  -- `EqualSid`
  pub equal_sid : List ℕ → List ℕ → Bool
  -- `ProcessIdToSessionId`
  pub session_of : ℕ → Option ℕ
  -- `GetSystemWindowsDirectory`
  pub windows_directory : List ℕ

abbrev is_slash : ℕ → Bool
is_slash c = c == 0x5c || c == b'/'

-- The directory with a separator at its end.
unfoldable pub with_separator : List ℕ → List ℕ
with_separator [] = 0x5c ∷ []
with_separator (c ∷ []) = if is_slash c then c ∷ [] else c ∷ 0x5c ∷ []
with_separator (c ∷ d ∷ cs) = c ∷ with_separator (d ∷ cs)

-- The first `n` characters.
unfoldable pub head_of : ℕ → List ℕ → List ℕ
head_of n [] = []
head_of zero (c ∷ cs) = []
head_of (suc n) (c ∷ cs) = c ∷ head_of n cs

abbrev pub is_blank : List ℕ → Bool
is_blank [] = true
is_blank (c ∷ cs) = false

abbrev pub is_session_zero : Option ℕ → Bool
is_session_zero none = false
is_session_zero (some s) = s == 0

module _ (q : Queries) where
  unfoldable pub path_is_under : List ℕ → List ℕ → Bool
  unfolding with_separator head_of
  path_is_under path dir =
      let base = with_separator dir in
      if is_blank dir || leb (length path) (length dir)
      then false
      else if ltb (length path) (length base)
      then false
      else q.same_name (head_of (length base) path) base

  -- Is it the SID of the account?
  abbrev is_account : List ℕ → Account → Bool
  is_account sid a = elim (q.well_known_sid a) [ none ↦ false | some wk ↦ q.equal_sid sid wk ]

  -- The first account in the table that has the SID.
  unfoldable pub known_account : List ℕ → List Account → Option Account
  known_account sid [] = none
  known_account sid (a ∷ rest) = if is_account sid a then some a else known_account sid rest

  unfoldable pub account_of_token : Option ℕ → Option Account
  unfolding known_account
  account_of_token none = none
  account_of_token (some token) = elim (q.user_of token) [
    | none ↦ none
    | some sid ↦ known_account sid (local_system ∷ local_service ∷ network_service ∷ [])
  ]

  -- `ServiceAccount`: no account where the token or its user cannot be read.
  unfoldable pub service_account : ℕ → Option Account
  unfolding account_of_token
  service_account pid = account_of_token (q.token_of pid)

  -- A process that could be opened.
  unfoldable pub classify_opened : ℕ → List ℕ → SafetyInfo
  unfolding path_is_under service_account
  classify_opened pid path =
      let info : ProcessSafety → SafetyInfo = λ l. record { level = l; image_path = path } in
      if not (is_blank path) && path_is_under path q.windows_directory
      then info system
      else if is_some (service_account pid)
      then info service
      else if is_session_zero (q.session_of pid)
      then info service
      else info normal

  unfoldable pub classify_process : ℕ → List ℕ → List (List ℕ) → SafetyInfo
  unfolding classify_opened
  classify_process pid name essential_names =
      if leb pid 4
      then record { level = essential; image_path = [] }
      else if pid == q.current_pid
      then record { level = essential; image_path = [] }
      else if any_of (q.same_name name) essential_names
      then record { level = essential; image_path = [] }
      else elim (q.image_of pid) [
        | none ↦ record { level = system; image_path = [] }
        | some path ↦ classify_opened pid path
      ]
