-- ===== src/Config/Secrets/Exact.antt =====
-- Which encrypted values are accepted, and what they stand for (src/config/Secrets.cpp).
use thread_haul_daemon.Base.{
  ℕ, ◌≡◌, ◌≢◌, refl, ap, ◌∙◌, true, List, [], ◌∷◌, ◌++◌, Option, none, some, drop, eq_text,
  eq_text_eq, eq_text_self, if◌then◌else◌, Bool-cases, inl, inr,
}
use thread_haul_daemon.Config.Secrets.{
  Crypt, prefix, is_protected_secret, protect_secret, decode_exactly, unprotect_secret,
}

exact-parts :
    (q : Option (List ℕ)) (t : List ℕ) (u : Option (List ℕ)) (plain : List ℕ)
    → elim q [ none ↦ none | some canonical ↦ if eq_text canonical t then u else none ] ≡ some plain
    → (q ≡ some t) × (u ≡ some plain)
exact-parts none t u plain h = cc
exact-parts (some canonical) t u plain h = elim (Bool-cases (eq_text canonical t)) [
  | inl e ↦ (ap (λ x. some x) (eq_text_eq canonical t e), (rw e at h))
  | inr e ↦ absurd (cc)
]

module _ (crypt : Crypt) where
  decoded-parts :
      (o : Option (List ℕ)) (t plain : List ℕ)
      → elim o [
        | none ↦ none
        | some blob ↦ elim (crypt.to_base64 blob) [
          | none ↦ none
          | some canonical ↦ if eq_text canonical t then crypt.unprotect_data blob else none
        ]
      ]
        ≡ some plain
      → (blob : List ℕ) × (crypt.to_base64 blob ≡ some t) × (crypt.unprotect_data blob ≡ some plain)
  decoded-parts none t plain h = cc
  decoded-parts (some blob) t plain h =
      let parts = exact-parts (crypt.to_base64 blob) t (crypt.unprotect_data blob) plain h in
      (blob, parts.0, parts.1)

  decode_exactly-parts :
      (t plain : List ℕ)
      → decode_exactly crypt t ≡ some plain
      → (blob : List ℕ) × (crypt.to_base64 blob ≡ some t) × (crypt.unprotect_data blob ≡ some plain)
  unfolding decode_exactly
  decode_exactly-parts [] plain h = cc
  decode_exactly-parts (c ∷ cs) plain h =
      decoded-parts (crypt.from_base64 (c ∷ cs)) (c ∷ cs) plain h

  -- An encrypted value is accepted only if the text after its prefix is exactly the Base64 text of
  -- some data, and it then stands for what Windows decrypts these data to.
  pub unprotect_secret-canonical :
      (value plain : List ℕ)
      → is_protected_secret value ≡ true
      → unprotect_secret crypt value ≡ some plain
      → (blob : List ℕ) × (crypt.to_base64 blob ≡ some (drop 6 value))
        × (crypt.unprotect_data blob ≡ some plain)
  unfolding unprotect_secret
  unprotect_secret-canonical value plain h e = decode_exactly-parts (drop 6 value) plain (rw h at e)

-- What Windows documents: decrypting undoes encrypting, decoding undoes encoding, and neither
-- encrypted data nor the text of some data is empty.
pub record CryptLaws (crypt : Crypt) : Type 0 where
  pub decrypts :
      (plain blob : List ℕ)
      → crypt.protect_data plain ≡ some blob
      → crypt.unprotect_data blob ≡ some plain
  pub decodes : (blob t : List ℕ) → crypt.to_base64 blob ≡ some t → crypt.from_base64 t ≡ some blob
  pub not_empty :
      (plain blob : List ℕ) → crypt.protect_data plain ≡ some blob → crypt.to_base64 blob ≢ some []

module _ (crypt : Crypt) (laws : CryptLaws crypt) where
  decode_encoded :
      (blob t : List ℕ)
      → crypt.to_base64 blob ≡ some t
      → t ≢ []
      → decode_exactly crypt t ≡ crypt.unprotect_data blob
  unfolding decode_exactly
  decode_encoded blob [] h n = absurd (n refl)
  decode_encoded blob (c ∷ cs) h n =
      let check : Option (List ℕ) → Option (List ℕ) = λ q. elim q [
        | none ↦ none
        | some canonical ↦ if eq_text canonical (c ∷ cs) then crypt.unprotect_data blob else none
      ] in
      rw (decode_exactly, laws.decodes blob (c ∷ cs) h)
        (ap check h
          ∙ ap (λ b. if b then crypt.unprotect_data blob else none) (eq_text_self (c ∷ cs)))

  encoded_lem :
      (plain blob : List ℕ) (t : Option (List ℕ))
      → crypt.protect_data plain ≡ some blob
      → crypt.to_base64 blob ≡ t
      → let value : List ℕ = elim t [ none ↦ [] | some b64 ↦ prefix ++ b64 ] in
        value ≢ [] → unprotect_secret crypt value ≡ some plain
  unfolding unprotect_secret is_protected_secret
  encoded_lem plain blob none p e h = absurd (h refl)
  encoded_lem plain blob (some b64) p e h =
      decode_encoded blob b64 e (λ z. laws.not_empty plain blob p (e ∙ ap (λ x. some x) z))
      ∙ laws.decrypts plain blob p

  protected_lem :
      (plain : List ℕ) (o : Option (List ℕ))
      → crypt.protect_data plain ≡ o
      → let value : List ℕ = elim o [
        | none ↦ []
        | some blob ↦ elim (crypt.to_base64 blob) [ none ↦ [] | some b64 ↦ prefix ++ b64 ]
      ] in
        value ≢ [] → unprotect_secret crypt value ≡ some plain
  protected_lem plain none p h = absurd (h refl)
  protected_lem plain (some blob) p h = encoded_lem plain blob (crypt.to_base64 blob) p refl h

  -- Where Windows keeps these laws, whatever ProtectSecret returns other than the empty text of a
  -- failure is turned back into the plain text by UnprotectSecret.
  pub unprotect_secret-protect_secret :
      (plain : List ℕ)
      → protect_secret crypt plain ≢ []
      → unprotect_secret crypt (protect_secret crypt plain) ≡ some plain
  unfolding protect_secret
  unprotect_secret-protect_secret plain h = protected_lem plain (crypt.protect_data plain) refl h
