-- ===== src/Examples/Logging.antt =====
-- Examples of src/logging.
use thread_haul_daemon.Base.{
  ℕ, ◌+◌, ◌≡◌, refl, false, List, [], ◌∷◌, none, codes, drop, ap, ◌++◌, either_way, ltb, length,
  if◌then◌else◌,
}
use thread_haul_daemon.Logging.Chain.{
  linked, Lines, Progress, chain_line, without_last, last_of, verify_from, write_lines, LineLaws,
  IsHex,
}
use thread_haul_daemon.Logging.Chain.Intact.{verify_from-write_lines}

-- The hash says whether the line is longer than 20 characters.
abbrev is_long : List ℕ → List ℕ
is_long line = if ltb 20 (length line) then b'1' ∷ [] else b'0' ∷ []

is_long-IsHex : (line : List ℕ) → IsHex (is_long line)
is_long-IsHex line = either_way IsHex (ltb 20 (length line)) (refl, tt) (refl, tt)

-- The text after {,"prev_hash":" up to the end of the line.
abbrev until_end : List ℕ → List ℕ
until_end [] = []
until_end (a ∷ []) = []
until_end (a ∷ b ∷ []) = []
until_end (a ∷ b ∷ c ∷ cs) = a ∷ until_end (b ∷ c ∷ cs)

abbrev io : Lines
io = record { line_hash = is_long; link_of = λ line. linked (until_end (drop 15 line)) }

until_end_lem : (prev : List ℕ) → until_end (prev ++ codes "\"}") ≡ prev
until_end_lem [] = refl
until_end_lem (a ∷ []) = refl
until_end_lem (a ∷ b ∷ []) = refl
until_end_lem (a ∷ b ∷ c ∷ cs) = ap (λ l. a ∷ l) (until_end_lem (b ∷ c ∷ cs))

abbrev entries : List (List ℕ)
entries = codes "{}" ∷ codes "{}" ∷ []

abbrev fresh : Progress
fresh = record {
  report = record { lines = 0; chained = 0; unchained = 0; broken_line = 0 };
  previous = none;
  seen_chained = false;
}

laws : LineLaws io entries
unfolding chain_line without_last last_of
laws = record {
  hash_is_hex = is_long-IsHex;
  not_blank = (λ prev x. refl, (λ prev x. refl, tt));
  reads_back = (
    λ prev x. ap (λ l. linked l) (until_end_lem prev),
    (λ prev x. ap (λ l. linked l) (until_end_lem prev), tt),
  );
}

verify_from-write_lines_example :
    let r = verify_from io [] (write_lines io (codes "0") entries) fresh in
    (r.broken_line ≡ 0) × (r.chained ≡ 0 + 2) × (r.unchained ≡ 0)
verify_from-write_lines_example =
    verify_from-write_lines io [] entries (codes "0") fresh laws (refl, tt) refl
