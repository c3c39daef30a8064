-- ===== src/Config/Secrets.antt =====
-- src/config/Secrets.cpp: values of the configuration that are kept encrypted.
pub mod Exact
use thread_haul_daemon.Base.{
  ℕ, ◌≡◌, ◌≢◌, refl, sym, ◌∙◌, Bool, true, false, not, List, [], ◌∷◌, ◌++◌, Option, none, some,
  some_inj, drop, codes, eq_text, starts_with, if◌then◌else◌, Option-cases, Bool-cases, inl, inr,
}

-- The Windows calls: DPAPI, and Base64 text. `none` is a call that fails.
pub record Crypt : Type 0 where
  pub protect_data : List ℕ → Option (List ℕ)
  pub unprotect_data : List ℕ → Option (List ℕ)
  pub to_base64 : List ℕ → Option (List ℕ)
  pub from_base64 : List ℕ → Option (List ℕ)

-- `kSecretPrefix`
abbrev pub prefix : List ℕ
prefix = codes "dpapi:"

unfoldable pub is_protected_secret : List ℕ → Bool
is_protected_secret value = starts_with value prefix

module _ (crypt : Crypt) where
  unfoldable pub protect_secret : List ℕ → List ℕ
  protect_secret plain = elim (crypt.protect_data plain) [
    | none ↦ []
    | some blob ↦ elim (crypt.to_base64 blob) [ none ↦ [] | some b64 ↦ prefix ++ b64 ]
  ]

  -- A decoded value is taken only from the text that encoding it gives.
  unfoldable pub decode_exactly : List ℕ → Option (List ℕ)
  decode_exactly [] = none
  decode_exactly (c ∷ cs) = elim (crypt.from_base64 (c ∷ cs)) [
    | none ↦ none
    | some blob ↦ elim (crypt.to_base64 blob) [
      | none ↦ none
      | some canonical ↦ if eq_text canonical (c ∷ cs) then crypt.unprotect_data blob else none
    ]
  ]

  unfoldable pub unprotect_secret : List ℕ → Option (List ℕ)
  unfolding is_protected_secret decode_exactly
  unprotect_secret value =
      if is_protected_secret value then decode_exactly (drop 6 value) else some value
