-- ===== src/Channel/Frame/Reassembly.antt =====
-- However the network cuts a frame up, it is received whole (src/common/SecureChannel.cpp).
use thread_haul_daemon.Base.{
  ℕ, ◌+◌, ◌≤◌, ◌<◌, ◌≡◌, ◌≢◌, refl, sym, ap, ◌∙◌, List, [], ◌∷◌, ◌++◌, some, some_inj, ltb, length,
  length-append, append_nil, append_assoc, drop, All, arith, Bool-cases, inl, inr,
}
use thread_haul_daemon.Channel.Bytes.{be32, read32}
use thread_haul_daemon.Channel.Bytes.Laws.{read32-be32, head_inj, tail_inj}
use thread_haul_daemon.Channel.Frame.{
  max_frame, frame_bytes, take_bytes, incomplete, complete, parse_frame, Arrival, chunk, broken,
  frame, receive_frame, receive_parsed,
}

abbrev pub concat : List (List ℕ) → List ℕ
concat [] = []
concat (c ∷ cs) = c ++ concat cs

take_bytes-length : (f rest : List ℕ) → take_bytes (length f) (f ++ rest) ≡ f
unfolding take_bytes
take_bytes-length [] [] = refl
take_bytes-length [] (x ∷ rest) = refl
take_bytes-length (x ∷ f) rest = ap (λ l. x ∷ l) (take_bytes-length f rest)

drop-length : (f rest : List ℕ) → drop (length f) (f ++ rest) ≡ rest
drop-length [] rest = refl
drop-length (x ∷ f) rest = drop-length f rest

module _ (a b c d n : ℕ) (body : List ℕ) (e : read32 a b c d ≡ n) (h : n ≤ max_frame) where
  parse_frame-complete :
      n ≤ length body
      → parse_frame (a ∷ b ∷ c ∷ d ∷ body) ≡ complete (take_bytes n body) (drop n body)
  unfolding parse_frame
  parse_frame-complete l = rw e (ground arith)

  parse_frame-incomplete : length body < n → parse_frame (a ∷ b ∷ c ∷ d ∷ body) ≡ incomplete
  unfolding parse_frame
  parse_frame-incomplete l = rw e (ground arith)

-- The bytes of a frame, with whatever follows, are read as that frame.
pub parse_frame-whole :
    (f rest : List ℕ)
    → length f ≤ max_frame
    → parse_frame (be32 (length f) ++ f ++ rest) ≡ complete f rest
unfolding be32
parse_frame-whole f rest h =
    parse_frame-complete _ _ _ _ (length f) (f ++ rest) (read32-be32 (length f) (omega (arith, h)))
      h (omega (arith, length-append f rest))
    ∙ ap (λ l. complete l (drop (length f) (f ++ rest))) (take_bytes-length f rest)
    ∙ ap (complete f) (drop-length f rest)

positive_length : (rest : List ℕ) → rest ≢ [] → 0 < length rest
positive_length [] h = absurd (h refl)
positive_length (x ∷ rest) h = omega arith

-- A proper beginning of a frame's bytes is no frame yet.
parse_frame-part :
    (f buffer rest : List ℕ)
    → length f ≤ max_frame
    → rest ≢ []
    → buffer ++ rest ≡ be32 (length f) ++ f
    → parse_frame buffer ≡ incomplete
unfolding parse_frame be32 read32
parse_frame-part f [] rest h n e = refl
parse_frame-part f (a ∷ []) rest h n e = refl
parse_frame-part f (a ∷ b ∷ []) rest h n e = refl
parse_frame-part f (a ∷ b ∷ c ∷ []) rest h n e = refl
parse_frame-part f (a ∷ b ∷ c ∷ d ∷ body) rest h n e =
    let t1 = tail_inj e in
    let t2 = tail_inj t1 in
    let t3 = tail_inj t2 in
    let header : read32 a b c d ≡ length f =
      omega (arith, head_inj e, head_inj t1, head_inj t2, head_inj t3, h) in
    parse_frame-incomplete a b c d (length f) body header h (
      omega (
        arith,
        positive_length rest n,
        length-append body rest,
        ap (λ (l : List ℕ). length l) (tail_inj t3),
      ))

pub frame_bytes-parts :
    (f bytes : List ℕ)
    → frame_bytes f ≡ some bytes
    → (length f ≤ max_frame) × (bytes ≡ be32 (length f) ++ f)
unfolding frame_bytes
frame_bytes-parts f bytes s = elim (Bool-cases (ltb max_frame (length f))) [
  | inl e ↦ absurd (cc)
  | inr e ↦ (ground arith, sym (some_inj (rw e at s)))
]

append_not_empty : (xs ys : List ℕ) → xs ≢ [] → xs ++ ys ≢ []
append_not_empty [] ys h = absurd (h refl)
append_not_empty (x ∷ xs) ys h = λ e. cc

abbrev pub chunks_of : List (List ℕ) → List Arrival
chunks_of [] = []
chunks_of (c ∷ cs) = chunk c ∷ chunks_of cs

receive_chunk :
    (buffer c : List ℕ) (arrivals : List Arrival)
    → c ≢ []
    → length (buffer ++ c) ≤ max_frame + 4
    → receive_parsed incomplete buffer (chunk c ∷ arrivals) ≡ receive_frame (buffer ++ c) arrivals
unfolding receive_parsed receive_frame
receive_chunk buffer [] arrivals h l = absurd (h refl)
receive_chunk buffer (x ∷ c) arrivals h l = ground arith

part_length :
    (f grown rest : List ℕ)
    → length f ≤ max_frame
    → grown ++ rest ≡ be32 (length f) ++ f
    → length grown ≤ max_frame + 4
unfolding be32
part_length f grown rest h e =
    omega (arith, length-append grown rest, ap (λ (l : List ℕ). length l) e)

receive_frame-cut :
    (f buffer : List ℕ) (chunks : List (List ℕ)) (more : List Arrival)
    → length f ≤ max_frame
    → All (λ c. c ≢ []) chunks
    → buffer ++ concat chunks ≡ be32 (length f) ++ f
    → receive_frame buffer (chunks_of chunks ++ more) ≡ (frame f, [], more)
unfolding receive_frame be32 receive_parsed
receive_frame-cut f buffer [] more h n e =
    let whole = parse_frame-whole f [] h in
    let same = sym (append_nil buffer) ∙ e ∙ ap (λ l. be32 (length f) ++ l) (sym (append_nil f)) in
    ap (λ b. receive_parsed (parse_frame b) b more) same
    ∙ ap (λ p. receive_parsed p (be32 (length f) ++ f ++ []) more) whole
receive_frame-cut f buffer (c ∷ chunks) more h n e =
    let grown = append_assoc buffer c (concat chunks) ∙ e in
    ap (λ p. receive_parsed p buffer (chunk c ∷ (chunks_of chunks ++ more)))
      (parse_frame-part f buffer (c ++ concat chunks) h (append_not_empty c (concat chunks) n.0) e)
    ∙ receive_chunk buffer c (chunks_of chunks ++ more) n.0
        (part_length f (buffer ++ c) (concat chunks) h grown)
    ∙ receive_frame-cut f (buffer ++ c) chunks more h n.1 grown

-- Whatever pieces, none empty, the bytes that are sent for a frame arrive in, the frame is received
-- whole, with nothing left in the buffer and nothing more waited for.
pub receive_frame-reassembles :
    (f bytes : List ℕ) (chunks : List (List ℕ)) (more : List Arrival)
    → frame_bytes f ≡ some bytes
    → All (λ c. c ≢ []) chunks
    → concat chunks ≡ bytes
    → receive_frame [] (chunks_of chunks ++ more) ≡ (frame f, [], more)
receive_frame-reassembles f bytes chunks more s n e =
    let parts = frame_bytes-parts f bytes s in
    receive_frame-cut f [] chunks more parts.0 n (e ∙ parts.1)

overrun :
    (buffer c : List ℕ) (arrivals : List Arrival)
    → max_frame + 4 < length (buffer ++ c)
    → (receive_parsed incomplete buffer (chunk c ∷ arrivals)).0 ≡ broken
unfolding receive_parsed
overrun buffer [] arrivals h = refl
overrun buffer (x ∷ c) arrivals h = ground arith

-- A frame of exactly the greatest length is refused, and the connection with it, when its last
-- bytes arrive together with the first of what follows.
pub receive_frame-overrun :
    (f buffer rest next : List ℕ) (more : List Arrival)
    → length f ≡ max_frame
    → buffer ++ rest ≡ be32 (length f) ++ f
    → rest ≢ []
    → next ≢ []
    → (receive_frame buffer (chunk (rest ++ next) ∷ more)).0 ≡ broken
unfolding receive_frame be32
receive_frame-overrun f buffer rest next more l e n m =
    ap (λ p. (receive_parsed p buffer (chunk (rest ++ next) ∷ more)).0)
      (parse_frame-part f buffer rest (omega (arith, l)) n e)
    ∙ overrun buffer (rest ++ next) more (
        omega (
          arith,
          l,
          positive_length next m,
          length-append buffer (rest ++ next),
          length-append rest next,
          length-append buffer rest,
          ap (λ (x : List ℕ). length x) e,
        ))
