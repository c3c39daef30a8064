-- ===== src/Config/Ranges.antt =====
-- What the helpers that read one field let through (src/config/Config.cpp).
use thread_haul_daemon.Base.{
  ℕ, ◌≡◌, refl, Bool, true, false, not, ◌||◌, List, none, some, ltb, Bool-cases, inl, inr, arith,
  Real,
}
use thread_haul_daemon.Config.Json.{
  ℤ, pos, negsuc, Json, null, boolean, integer, real, text, array, object, Members, find_member,
  Result, ok, ◌>>=◌, ◌>>◌, refuse, out_of_range, Ensures, Ensures-ok, Ensures-err, Ensures-any,
  Ensures-refuse,
}
use thread_haul_daemon.Config.Fields.{
  Env, Within, in_range, as_integer, as_number, field, integer_field, opt_integer, is_percent,
  percent, out_of, opt_number, opt_object,
}
use thread_haul_daemon.Config.Sections.{if_present}

in_range-Within : (at : List ℕ) (lo hi : ℕ) (x : ℤ) → Ensures (Within lo hi) (in_range at lo hi x)
unfolding in_range
in_range-Within at lo hi (negsuc n) = Ensures-err (Within lo hi) at out_of_range
in_range-Within at lo hi (pos x) = elim (Bool-cases (ltb x lo || ltb hi x)) [
  | inl e ↦ rw e (Ensures-err (Within lo hi) at out_of_range)
  | inr e ↦ rw e (Ensures-ok (Within lo hi) x (ground arith))
]

module _ {D : Type 0} where
  as_integer-Within :
      (at : List ℕ) (lo hi : ℕ) (v : Json D) → Ensures (Within lo hi) (as_integer at lo hi v)
  unfolding as_integer
  as_integer-Within at lo hi null = Ensures-err (Within lo hi) at _
  as_integer-Within at lo hi (boolean b) = Ensures-err (Within lo hi) at _
  as_integer-Within at lo hi (integer x) = in_range-Within at lo hi x
  as_integer-Within at lo hi (real x) = Ensures-err (Within lo hi) at _
  as_integer-Within at lo hi (text s) = Ensures-err (Within lo hi) at _
  as_integer-Within at lo hi (array vs) = Ensures-err (Within lo hi) at _
  as_integer-Within at lo hi (object ms) = Ensures-err (Within lo hi) at _

  pub integer_field-Within :
      (obj : Members D) (key at : List ℕ) (lo hi : ℕ)
      → Ensures (Within lo hi) (integer_field obj key at lo hi)
  unfolding integer_field
  integer_field-Within obj key at lo hi =
      Ensures-any (Within lo hi) (field obj key at) (as_integer at lo hi)
        (as_integer-Within at lo hi)

  pub opt_integer-Within :
      (obj : Members D) (key at : List ℕ) (lo hi default : ℕ)
      → Within lo hi default
      → Ensures (Within lo hi) (opt_integer obj key at lo hi default)
  unfolding opt_integer
  opt_integer-Within obj key at lo hi default h =
      elim (find_member key obj)
        as (λ o.
          Ensures (Within lo hi) (elim o [ none ↦ ok default | some v ↦ as_integer at lo hi v ])) [
            | none ↦ Ensures-ok (Within lo hi) default h
            | some v ↦ as_integer-Within at lo hi v
          ]

not-false : (b : Bool) → not b ≡ false → b ≡ true
not-false true h = refl
not-false false h = cc

module _ {D : Type 0} ⦃r : Real D⦄ (env : Env D) where
  pub percent-InPercent :
      (obj : Members D) (key at : List ℕ)
      → Ensures (λ x. is_percent env x ≡ true) (percent env obj key at)
  unfolding percent
  percent-InPercent obj key at = Ensures-any _ (field obj key at) _ λ v.
      Ensures-any _ (as_number env at v) _ λ x.
        Ensures-refuse _ (not (is_percent env x)) at out_of_range (ok x)
          λ h. Ensures-ok _ x (not-false (is_percent env x) h)

  pub opt_number-in_range :
      (obj : Members D) (key at : List ℕ) (lo hi default : D)
      → out_of env lo hi default ≡ false
      → Ensures (λ x. out_of env lo hi x ≡ false) (opt_number env obj key at lo hi default)
  unfolding opt_number
  opt_number-in_range obj key at lo hi default h =
      elim (find_member key obj)
        as (λ o.
          Ensures (λ x. out_of env lo hi x ≡ false)
            (elim o [
              | none ↦ ok default
              | some v ↦
                  as_number env at v >>= λ x. refuse (out_of env lo hi x) at out_of_range >> ok x
            ])) [
              | none ↦ Ensures-ok _ default h
              | some v ↦ Ensures-any _ (as_number env at v) _ λ x.
                  Ensures-refuse _ (out_of env lo hi x) at out_of_range (ok x) λ e. Ensures-ok _ x e
            ]

  pub if_present-Ensures :
      {A : Type 0} (P : A → Type 0) (root : Members D) (key : List ℕ) (default : A)
      (parse : Members D → Result A)
      → P default
      → ((ms : Members D) → Ensures P (parse ms))
      → Ensures P (if_present env root key default parse)
  if_present-Ensures P root key default parse h k = Ensures-any P (opt_object root key key) _ λ o.
      elim o as (λ o. Ensures P (elim o [ none ↦ ok default | some ms ↦ parse ms ])) [
        | none ↦ Ensures-ok P default h
        | some ms ↦ k ms
      ]
