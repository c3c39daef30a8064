-- ===== src/Config/Fields.antt =====
-- The helpers that read one field (src/config/Config.cpp).
use thread_haul_daemon.Base.{
  ℕ, ◌≤◌, Bool, true, false, not, ◌&&◌, ◌||◌, List, [], ◌∷◌, Option, none, some, ltb, ◌==◌,
  if◌then◌else◌, any_of, Real, less,
}
use thread_haul_daemon.Config.Json.{
  ℤ, pos, negsuc, Json, boolean, integer, real, text, array, object, Items, nil, cons, Members,
  find_member, not_object, missing, not_integer, out_of_range, not_number, not_array, not_string,
  empty_text, has_path, not_boolean, not_utf8, Result, ok, err, ◌>>=◌, ◌>>◌, refuse,
}

-- What the code takes from the C++ and Windows libraries: the `double` of an integer and the
-- literal 0.1, the conversion from UTF-8 (`none` for text that is not valid) and back, the
-- comparison of names, and the decryption of a secret.
pub record Env (D : Type 0) : Type 0 where
  pub number : ℤ → D
  pub tenth : D
  pub to_wide : List ℕ → Option (List ℕ)
  pub same_name : List ℕ → List ℕ → Bool

abbrev pub Within : ℕ → ℕ → ℕ → Type 0
Within lo hi x = (lo ≤ x) × (x ≤ hi)

abbrev pub wide_or : Option (List ℕ) → Result (List ℕ)
wide_or none = err [] not_utf8
wide_or (some w) = ok w

-- The range test; the minimum and the maximum are never negative.
unfoldable pub in_range : List ℕ → ℕ → ℕ → ℤ → Result ℕ
in_range path lo hi (negsuc n) = err path out_of_range
in_range path lo hi (pos x) = if ltb x lo || ltb hi x then err path out_of_range else ok x

module _ {D : Type 0} where
  unfoldable pub field : Members D → List ℕ → List ℕ → Result (Json D)
  field obj key path = elim (find_member key obj) [ none ↦ err path missing | some v ↦ ok v ]

  unfoldable pub as_object : List ℕ → Json D → Result (Members D)
  as_object path (object ms) = ok ms
  as_object path v = err path not_object

  unfoldable pub object_field : Members D → List ℕ → List ℕ → Result (Members D)
  unfolding field as_object
  object_field obj key path = do v ← field obj key path; as_object path v

  unfoldable pub as_integer : List ℕ → ℕ → ℕ → Json D → Result ℕ
  unfolding in_range
  as_integer path lo hi (integer x) = in_range path lo hi x
  as_integer path lo hi v = err path not_integer

  unfoldable pub integer_field : Members D → List ℕ → List ℕ → ℕ → ℕ → Result ℕ
  unfolding as_integer field
  integer_field obj key path lo hi = do v ← field obj key path; as_integer path lo hi v

  unfoldable pub opt_integer : Members D → List ℕ → List ℕ → ℕ → ℕ → ℕ → Result ℕ
  unfolding as_integer
  opt_integer obj key path lo hi default = elim (find_member key obj) [
    | none ↦ ok default
    | some v ↦ as_integer path lo hi v
  ]

  unfoldable pub as_boolean : List ℕ → Json D → Result Bool
  as_boolean path (boolean b) = ok b
  as_boolean path v = err path not_boolean

  unfoldable pub opt_bool : Members D → List ℕ → List ℕ → Bool → Result Bool
  unfolding as_boolean
  opt_bool obj key path default = elim (find_member key obj) [
    | none ↦ ok default
    | some v ↦ as_boolean path v
  ]

  unfoldable pub as_string : List ℕ → Json D → Result (List ℕ)
  as_string path (text s) = ok s
  as_string path v = err path not_string

  unfoldable pub opt_string : Members D → List ℕ → List ℕ → List ℕ → Result (List ℕ)
  unfolding as_string
  opt_string obj key path default = elim (find_member key obj) [
    | none ↦ ok default
    | some v ↦ as_string path v
  ]

  unfoldable pub opt_object : Members D → List ℕ → List ℕ → Result (Option (Members D))
  unfolding as_object
  opt_object obj key path = elim (find_member key obj) [
    | none ↦ ok none
    | some v ↦ as_object path v >>= λ ms. ok (some ms)
  ]

-- find_first_of("\\/")
unfoldable pub has_separator : List ℕ → Bool
has_separator = any_of (λ c. c == 0x5c || c == b'/')

abbrev pub is_empty : List ℕ → Bool
is_empty [] = true
is_empty _ = false

module _ {D : Type 0} ⦃r : Real D⦄ (env : Env D) where
  -- `is_number` and `get<double>`: an integer is converted.
  unfoldable pub as_number : List ℕ → Json D → Result D
  as_number path (integer x) = ok (env.number x)
  as_number path (real x) = ok x
  as_number path v = err path not_number

  -- `!(x > 0.0 && x <= 100.0)`
  abbrev pub is_percent : D → Bool
  is_percent x = less (env.number (pos 0)) x && r.le x (env.number (pos 100))

  unfoldable pub percent : Members D → List ℕ → List ℕ → Result D
  unfolding as_number field
  percent obj key path = do
    v ← field obj key path
    x ← as_number path v
    refuse (not (is_percent x)) path out_of_range
    ok x

  abbrev pub out_of : D → D → D → Bool
  out_of lo hi x = less x lo || less hi x

  unfoldable pub opt_number : Members D → List ℕ → List ℕ → D → D → D → Result D
  unfolding as_number
  opt_number obj key path lo hi default = elim (find_member key obj) [
    | none ↦ ok default
    | some v ↦ as_number path v >>= λ x. refuse (out_of lo hi x) path out_of_range >> ok x
  ]

  unfoldable pub as_name : List ℕ → Json D → Result (List ℕ)
  unfolding as_string has_separator
  as_name path v = do
    s ← as_string path v
    refuse (is_empty s) path empty_text
    refuse (has_separator s) path has_path
    wide_or (env.to_wide s)

  unfoldable pub names_of : List ℕ → Items D → Result (List (List ℕ))
  unfolding as_name
  names_of path nil = ok []
  names_of path (cons v vs) = do name ← as_name path v; names ← names_of path vs; ok (name ∷ names)

  unfoldable pub name_list : List ℕ → Json D → Result (List (List ℕ))
  unfolding names_of
  name_list path (array vs) = names_of path vs
  name_list path v = err path not_array
