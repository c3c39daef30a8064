-- ===== src/Channel/Bytes/Laws.antt =====
-- The hexadecimal text of some bytes reads back, and nonces differ (src/common/SecureChannel.cpp).
use thread_haul_daemon.Base.{
  ℕ, ◌*◌, ◌/◌, ◌%◌, ◌<◌, ◌≡◌, refl, ap, Bool, List, [], ◌∷◌, ◌++◌, Option, none, some, All, arith,
}
use thread_haul_daemon.Channel.Bytes.{
  hex_digit, to_hex, hex_value, hex_pairs, from_hex, be32, read32, half, nonce,
}

hex_value-hex_digit : (n : ℕ) → n < 16 → hex_value (hex_digit n) ≡ some n
unfolding hex_value
hex_value-hex_digit n h = ground arith

hex_pairs-to_hex : (cs : List ℕ) → All (λ c. c < 256) cs → hex_pairs (to_hex cs) ≡ some cs
unfolding hex_pairs to_hex
hex_pairs-to_hex [] h = refl
hex_pairs-to_hex (c ∷ cs) h =
    rw
      (
        hex_value-hex_digit (c / 16) (omega (arith, h.0)),
        hex_value-hex_digit (c % 16) (omega arith),
        hex_pairs-to_hex cs h.1,
      )
      (ap (λ x. some (x ∷ cs)) (omega arith))

-- Reading the hexadecimal text of some bytes gives these bytes.
pub from_hex-to_hex : (cs : List ℕ) → All (λ c. c < 256) cs → from_hex (to_hex cs) ≡ cs
unfolding from_hex
from_hex-to_hex cs h =
    let bytes : Option (List ℕ) → List ℕ = λ o. elim o [ none ↦ [] | some b ↦ b ] in
    ap bytes (hex_pairs-to_hex cs h)

pub read32-be32 :
    (n : ℕ) → n < half → read32 (n / 16777216 % 256) (n / 65536 % 256) (n / 256 % 256) (n % 256) ≡ n
unfolding read32
read32-be32 n h = omega arith

pub head_inj : {a b : ℕ} {xs ys : List ℕ} → a ∷ xs ≡ b ∷ ys → a ≡ b
head_inj h = cc

pub tail_inj : {a b : ℕ} {xs ys : List ℕ} → a ∷ xs ≡ b ∷ ys → xs ≡ ys
tail_inj h = cc

be32_inj :
    (m n : ℕ) (xs ys : List ℕ)
    → m < half
    → n < half
    → be32 m ++ xs ≡ be32 n ++ ys
    → (m ≡ n) × (xs ≡ ys)
unfolding be32
be32_inj m n xs ys hm hn h =
    let t1 = tail_inj h in
    let t2 = tail_inj t1 in
    let t3 = tail_inj t2 in
    (omega (arith, head_inj h, head_inj t1, head_inj t2, head_inj t3), tail_inj t3)

-- Two 64-bit sequence numbers with the same nonce are the same.
pub nonce_inj :
    (m n : ℕ) (a b : Bool) → m < half * half → n < half * half → nonce m a ≡ nonce n b → m ≡ n
unfolding nonce
nonce_inj m n a b hm hn h =
    let body = tail_inj (tail_inj (tail_inj (tail_inj h))) in
    let first =
      be32_inj (m / half) (n / half) (be32 (m % half)) (be32 (n % half)) (omega arith) (omega arith)
        body in
    let second = be32_inj (m % half) (n % half) [] [] (omega arith) (omega arith) first.1 in
    omega (arith, first.0, second.0)
