-- ===== src/Channel/Bytes.antt =====
-- Hexadecimal text, big-endian numbers and nonces (src/common/SecureChannel.cpp). A byte is a
-- number below 256.
pub mod Laws
use thread_haul_daemon.Base.{
  ℕ, zero, suc, ◌+◌, ◌-◌, ◌*◌, ◌/◌, ◌%◌, Bool, true, false, ◌&&◌, List, [], ◌∷◌, ◌++◌, Option, none,
  some, ltb, leb, if◌then◌else◌,
}

-- "0123456789abcdef"[n]
abbrev pub hex_digit : ℕ → ℕ
hex_digit n = if ltb n 10 then n + b'0' else n + 87

unfoldable pub to_hex : List ℕ → List ℕ
to_hex [] = []
to_hex (c ∷ cs) = hex_digit (c / 16) ∷ hex_digit (c % 16) ∷ to_hex cs

abbrev pub in_span : ℕ → ℕ → ℕ → Bool
in_span lo hi c = leb lo c && leb c hi

unfoldable pub hex_value : ℕ → Option ℕ
hex_value c =
    if in_span b'0' b'9' c
    then some (c - b'0')
    else if in_span b'a' b'f' c
    then some (c - b'a' + 10)
    else if in_span b'A' b'F' c
    then some (c - b'A' + 10)
    else none

infixl 5 ◌>>=◌
abbrev pub ◌>>=◌ : {A B : Type 0} → Option A → (A → Option B) → Option B
none >>= f = none
some a >>= f = f a

-- The pairs of digits, `none` at a character that is no digit or a digit without its pair.
unfoldable pub hex_pairs : List ℕ → Option (List ℕ)
hex_pairs [] = some []
hex_pairs (a ∷ []) = none
hex_pairs (a ∷ b ∷ rest) = do
  hi ← hex_value a
  lo ← hex_value b
  bytes ← hex_pairs rest
  some ((hi * 16 + lo) ∷ bytes)

-- Text that is not hexadecimal gives no bytes.
unfoldable pub from_hex : List ℕ → List ℕ
unfolding hex_pairs
from_hex text = elim (hex_pairs text) [ none ↦ [] | some bytes ↦ bytes ]

-- The four bytes of a 32-bit number, and the number that four bytes stand for (`|` of shifts that
-- do not overlap is a sum).
unfoldable pub be32 : ℕ → List ℕ
be32 n = n / 16777216 % 256 ∷ n / 65536 % 256 ∷ n / 256 % 256 ∷ n % 256 ∷ []

unfoldable pub read32 : ℕ → ℕ → ℕ → ℕ → ℕ
read32 a b c d = a * 16777216 + b * 65536 + c * 256 + d

abbrev pub half : ℕ
half = 4294967296

unfoldable pub nonce : ℕ → Bool → List ℕ
unfolding be32
nonce seq client_to_server =
    (if client_to_server then b'C' else b'S') ∷ 0 ∷ 0 ∷ 0 ∷ be32 (seq / half) ++ be32 (seq % half)
