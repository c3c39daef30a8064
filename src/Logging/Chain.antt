-- ===== src/Logging/Chain.antt =====
-- src/logging/LogChain.{h,cpp}: every line of the log carries the hash of the line before it. The
-- hash of a line and what the JSON parser reads of it are parameters.
pub mod Intact
use thread_haul_daemon.Base.{
  ℕ, zero, suc, ◌+◌, ◌-◌, ◌≤◌, ◌<◌, ◌≡◌, ◌≢◌, refl, sym, ap, ◌∙◌, Bool, true, false, not, ◌&&◌,
  ◌||◌, List, [], ◌∷◌, ◌++◌, Option, none, some, ltb, leb, ◌==◌, if◌then◌else◌, length, codes,
  eq_text, eq_text_eq, eq_text_self, All, Bool-cases, inl, inr, arith,
}

-- What a line holds: no JSON object, an object without a text under "prev_hash", or that text.
pub data Link : Type 0 where
  not_object unlinked : Link
  linked : List ℕ → Link

pub record Lines : Type 0 where
  pub line_hash : List ℕ → List ℕ
  pub link_of : List ℕ → Link

abbrev pub is_blank : List ℕ → Bool
is_blank [] = true
is_blank (c ∷ cs) = false

-- The text before its last character, and that character.
unfoldable pub without_last : List ℕ → List ℕ
without_last [] = []
without_last (c ∷ []) = []
without_last (c ∷ d ∷ cs) = c ∷ without_last (d ∷ cs)

unfoldable pub last_of : List ℕ → ℕ
last_of [] = 0
last_of (c ∷ []) = c
last_of (c ∷ d ∷ cs) = last_of (d ∷ cs)

unfoldable pub chain_line : List ℕ → List ℕ → List ℕ
unfolding without_last last_of
chain_line line prev =
    if ltb (length line) 2 || not (last_of line == b'}')
    then line
    else without_last line ++ codes ",\"prev_hash\":\"" ++ prev ++ codes "\"}"

-- The counters of a report; the line at which it stops is 0 for none.
pub record Report : Type 0 where
  pub lines : ℕ
  pub chained : ℕ
  pub unchained : ℕ
  pub broken_line : ℕ

-- Where the loop stands: the report so far, the line before, and whether a chained line was seen.
pub record Progress : Type 0 where
  pub report : Report
  pub previous : Option (List ℕ)
  pub seen_chained : Bool

abbrev pub break_at : Progress → Report
break_at p = record p.report { lines = p.report.lines + 1; broken_line = p.report.lines + 1 }

abbrev pub pass_unchained : List ℕ → Progress → Progress
pass_unchained line p = record {
  report = record p.report { lines = p.report.lines + 1; unchained = p.report.unchained + 1 };
  previous = some line;
  seen_chained = p.seen_chained;
}

abbrev pub pass_chained : List ℕ → Progress → Progress
pass_chained line p = record {
  report = record p.report { lines = p.report.lines + 1; chained = p.report.chained + 1 };
  previous = some line;
  seen_chained = true;
}

module _ (io : Lines) (first_prev : List ℕ) where
  -- The hash that the next line must carry; an empty one asks for nothing.
  abbrev pub wanted : Option (List ℕ) → List ℕ
  wanted none = first_prev
  wanted (some previous) = io.line_hash previous

  -- The lines are those of the file, without their ends.
  unfoldable pub verify_from : List (List ℕ) → Progress → Report
  verify_from [] p = p.report
  verify_from (line ∷ rest) p =
      let want = wanted p.previous in
      let skipped = verify_from rest p in
      let unchained = verify_from rest (pass_unchained line p) in
      let chained = verify_from rest (pass_chained line p) in
      if is_blank line then skipped else elim (io.link_of line) [
        | not_object ↦ break_at p
        | unlinked ↦ if p.seen_chained then break_at p else unchained
        | linked prev ↦
            if not (is_blank want) && not (eq_text prev want) then break_at p else chained
      ]

-- The lines that are written after a line with the hash `prev`, where each write succeeds and none
-- starts a new file.
unfoldable pub write_lines : Lines → List ℕ → List (List ℕ) → List (List ℕ)
unfolding chain_line
write_lines io prev [] = []
write_lines io prev (line ∷ rest) =
    let chained = chain_line line prev in chained ∷ write_lines io (io.line_hash chained) rest

-- A hexadecimal text, as a hash is; the empty one, too.
abbrev pub IsHex : List ℕ → Type 0
IsHex cs = All (λ c. (leb b'0' c && leb c b'9' || leb b'a' c && leb c b'f') ≡ true) cs

-- A hash is hexadecimal, and the JSON parser finds the hexadecimal text that a line was chained with.
pub record LineLaws (io : Lines) (entries : List (List ℕ)) : Type 0 where
  pub hash_is_hex : (line : List ℕ) → IsHex (io.line_hash line)
  pub not_blank :
      All (λ line. (prev : List ℕ) → IsHex prev → is_blank (chain_line line prev) ≡ false) entries
  pub reads_back :
      All
        (λ line. (prev : List ℕ) → IsHex prev → io.link_of (chain_line line prev) ≡ linked prev)
        entries
