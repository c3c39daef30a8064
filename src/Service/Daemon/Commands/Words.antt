-- ===== src/Service/Daemon/Commands/Words.antt =====
-- The words of a command line (src/service/Daemon.cpp).
use thread_haul_daemon.Base.{
  ℕ, ◌≡◌, ◌≢◌, refl, ap, sym, ◌∙◌, subst, true, false, List, [], ◌∷◌, ◌++◌, map, All, by_test, inl,
  inr, Bool-cases, any_of, none_of, eq_text, eq_text_eq,
}
use thread_haul_daemon.Service.Daemon.Commands.{
  is_space, word_from, next_word, to_lower, verb_in, target_in,
}

-- A text without white space, of one character or more.
abbrev pub IsWord : List ℕ → Type 0
IsWord t = (t ≢ []) × All (λ c. is_space c ≡ false) t

-- Nothing, or white space and whatever follows it.
abbrev pub IsBreak : List ℕ → Type 0
IsBreak [] = Unit
IsBreak (c ∷ cs) = is_space c ≡ true

word_from-++ :
    (t rest : List ℕ)
    → All (λ c. is_space c ≡ false) t
    → IsBreak rest
    → word_from (t ++ rest) ≡ (t, rest)
unfolding word_from
word_from-++ [] [] h b = refl
word_from-++ [] (c ∷ cs) h b = rw b refl
word_from-++ (c ∷ cs) rest h b = rw (h.0, word_from-++ cs rest h.1 b) refl

next_word-++ : (t rest : List ℕ) → IsWord t → IsBreak rest → next_word (t ++ rest) ≡ (t, rest)
unfolding next_word
next_word-++ [] rest h b = absurd (h.0 refl)
next_word-++ (c ∷ cs) rest h b = rw (h.1.0, word_from-++ cs rest h.1.1 b) refl

next_word-space : (xs : List ℕ) → next_word (b' ' ∷ xs) ≡ next_word xs
unfolding next_word
next_word-space xs = refl

-- A text without white space is read whole.
word_from-solid : (t : List ℕ) → All (λ c. is_space c ≡ false) t → (word_from t).0 ≡ t
unfolding word_from
word_from-solid [] h = refl
word_from-solid (c ∷ cs) h = rw h.0 (ap (λ l. c ∷ l) (word_from-solid cs h.1))

pub next_word-solid : (t : List ℕ) → All (λ c. is_space c ≡ false) t → (next_word t).0 ≡ t
unfolding next_word
next_word-solid [] h = refl
next_word-solid (c ∷ cs) h = rw h.0 (ap (λ l. c ∷ l) (word_from-solid cs h.1))

-- The text is some white space, then `t` up to the next white space, and what follows it. It is
-- empty only if the text is all white space.
pub record IsFirstWord (t target : List ℕ) : Type 0 where
  pub lead : List ℕ
  pub rest : List ℕ
  pub whole : target ≡ lead ++ (t ++ rest)
  pub blank : All (λ c. is_space c ≡ true) lead
  pub solid : All (λ c. is_space c ≡ false) t
  pub ends : IsBreak rest
  pub blank_only : t ≡ [] → rest ≡ []

abbrev IsSplit : List ℕ → List ℕ × List ℕ → Type 0
IsSplit xs p = (xs ≡ p.0 ++ p.1) × All (λ c. is_space c ≡ false) p.0 × IsBreak p.1

word_from-IsSplit : (xs : List ℕ) → IsSplit xs (word_from xs)
unfolding word_from
word_from-IsSplit [] = (refl, tt, tt)
word_from-IsSplit (c ∷ cs) =
    let (whole, solid, ends) = word_from-IsSplit cs in
    let w = word_from cs in
    by_test (IsSplit (c ∷ cs)) (is_space c) (λ e. (refl, tt, e))
      (λ e. (ap (λ l. c ∷ l) whole, (e, solid), ends))

first_solid :
    (c : ℕ) (cs : List ℕ) → is_space c ≡ false → IsFirstWord (word_from (c ∷ cs)).0 (c ∷ cs)
unfolding word_from
first_solid c cs e =
    let (whole, solid, ends) = word_from-IsSplit cs in
    let w = word_from cs in
    rw e (record {
      lead = [];
      rest = w.1;
      whole = ap (λ l. c ∷ l) whole;
      blank = tt;
      solid = (e, solid);
      ends = ends;
      blank_only = λ h. cc;
    })

-- What `>>` reads is the first word.
pub next_word-IsFirstWord : (target : List ℕ) → IsFirstWord (next_word target).0 target
unfolding next_word
next_word-IsFirstWord [] = record {
  lead = [];
  rest = [];
  whole = refl;
  blank = tt;
  solid = tt;
  ends = tt;
  blank_only = λ h. refl;
}
next_word-IsFirstWord (c ∷ cs) =
    let f = next_word-IsFirstWord cs in
    by_test (λ (p : List ℕ × List ℕ). IsFirstWord p.0 (c ∷ cs)) (is_space c)
      (λ e. record {
        lead = c ∷ f.lead;
        rest = f.rest;
        whole = ap (λ l. c ∷ l) f.whole;
        blank = (e, f.blank);
        solid = f.solid;
        ends = f.ends;
        blank_only = f.blank_only;
      })
      (λ e. first_solid c cs e)

-- The line of a command is read as its verb and the first word of its target.
pub line_lem :
    (v x : List ℕ)
    → IsWord v
    → (verb_in (v ++ b' ' ∷ x) ≡ map to_lower v) × (target_in (v ++ b' ' ∷ x) ≡ (next_word x).0)
line_lem v x hv =
    let first = next_word-++ v (b' ' ∷ x) hv refl in
    (
      ap (λ (p : List ℕ × List ℕ). map to_lower p.0) first,
      ap (λ (p : List ℕ × List ℕ). (next_word p.1).0) first
          ∙ ap (λ (p : List ℕ × List ℕ). p.0) (next_word-space x),
    )

pub known-IsWord :
    (v : List ℕ) (names : List (List ℕ))
    → any_of (λ n. eq_text v n) names ≡ true
    → All IsWord names
    → IsWord v
known-IsWord v [] h all = cc
known-IsWord v (n ∷ ns) h all = elim (Bool-cases (eq_text v n)) [
  | inl e ↦ subst IsWord (sym (eq_text_eq v n e)) all.0
  | inr no_ ↦ known-IsWord v ns (rw no_ at h) all.1
]

pub text-IsWord : (t : List ℕ) → t ≢ [] → any_of is_space t ≡ false → IsWord t
text-IsWord t some_ h = (some_, none_of is_space t h)
