-- ===== src/Config/Json.antt =====
-- Values of nlohmann::json as src/config/Config.cpp meets them, and its errors as values.
use thread_haul_daemon.Base.{
  ℕ, ◌≡◌, refl, subst, Bool, true, false, List, Option, none, some, eq_text, if◌then◌else◌,
}

pub data ℤ : Type 0 where
  pos : ℕ → ℤ
  negsuc : ℕ → ℤ  -- -(n + 1)

mutual
  pub data Json (D : Type 0) : Type 0 where
    null : Json D
    boolean : Bool → Json D
    integer : ℤ → Json D
    real : D → Json D
    text : List ℕ → Json D
    array : Items D → Json D
    object : Members D → Json D

  pub data Items (D : Type 0) : Type 0 where
    nil : Items D
    cons : Json D → Items D → Items D

  pub data Members (D : Type 0) : Type 0 where
    end : Members D
    member : List ℕ → Json D → Members D → Members D

-- `obj.find(key)`
unfoldable pub find_member : {D : Type 0} → List ℕ → Members D → Option (Json D)
find_member key end = none
find_member key (member k v rest) = if eq_text k key then some v else find_member key rest

-- What is wrong with a field; the messages' wording is left out.
pub data Problem : Type 0 where
  invalid_json not_object missing not_integer out_of_range not_number not_array not_string
        empty_text has_path not_boolean bad_order in_both_lists bad_value not_utf8 bad_secret :
      Problem

-- `ConfigError`: the field that the message names, and the problem.
pub data Result {ℓ} (A : Type ℓ) : Type ℓ where
  ok : A → Result A
  err : List ℕ → Problem → Result A

infixl 5 ◌>>=◌ ◌>>◌
abbrev pub ◌>>=◌ {ℓ κ} : {A : Type ℓ} {B : Type κ} → Result A → (A → Result B) → Result B
ok a >>= f = f a
err at p >>= f = err at p

abbrev pub ◌>>◌ {ℓ} : {B : Type ℓ} → Result (Unit {0}) → Result B → Result B
m >> k = m >>= λ _. k

-- `if (bad) throw ConfigError(...)`
abbrev pub refuse : Bool → List ℕ → Problem → Result (Unit {0})
refuse true at p = err at p
refuse false at p = ok tt

-- Whatever is returned satisfies `P`.
pub record Ensures {ℓ κ} {A : Type ℓ} (P : A → Type κ) (r : Result A) : Type (ℓ ⊔ κ) where
  pub apply : (a : A) → r ≡ ok a → P a

pub ok_inj {ℓ} : {A : Type ℓ} {a b : A} → ok a ≡ ok b → a ≡ b
ok_inj h = cc

module _ {ℓ κ} {A : Type ℓ} (P : A → Type κ) where
  pub Ensures-ok : (a : A) → P a → Ensures P (ok a)
  Ensures-ok a h = record { apply = λ b e. subst P (ok_inj e) h }

  pub Ensures-err : (at : List ℕ) (p : Problem) → Ensures P (err at p)
  Ensures-err at p = record { apply = λ b e. cc }

module _ {ℓ κ μ ν} {A : Type ℓ} {B : Type κ} (P : A → Type μ) (Q : B → Type ν) where
  pub Ensures-bind :
      (m : Result A) (f : A → Result B)
      → Ensures P m
      → ((a : A) → P a → Ensures Q (f a))
      → Ensures Q (m >>= f)
  Ensures-bind (ok a) f h k = k a (h.apply a refl)
  Ensures-bind (err at p) f h k = Ensures-err Q at p

module _ {ℓ κ ν} {A : Type ℓ} {B : Type κ} (Q : B → Type ν) where
  -- Nothing is asked of the first result.
  pub Ensures-any :
      (m : Result A) (f : A → Result B) → ((a : A) → Ensures Q (f a)) → Ensures Q (m >>= f)
  Ensures-any (ok a) f k = k a
  Ensures-any (err at p) f k = Ensures-err Q at p

module _ {κ ν} {B : Type κ} (Q : B → Type ν) where
  pub Ensures-refuse :
      (b : Bool) (at : List ℕ) (p : Problem) (k : Result B)
      → (b ≡ false → Ensures Q k)
      → Ensures Q (refuse b at p >> k)
  Ensures-refuse true at p k h = Ensures-err Q at p
  Ensures-refuse false at p k h = h refl

-- What holds of every result holds of the result at hand.
pub Ensures-weaken {ℓ κ μ} :
    {A : Type ℓ} (P : A → Type κ) (Q : A → Type μ) (m : Result A)
    → ((a : A) → P a → Q a)
    → Ensures P m
    → Ensures Q m
Ensures-weaken P Q m f h = record { apply = λ a e. f a (h.apply a e) }
