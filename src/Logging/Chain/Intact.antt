-- ===== src/Logging/Chain/Intact.antt =====
-- What was written is verified intact, and a changed line is found (src/logging/LogChain.cpp).
use thread_haul_daemon.Base.{
  ℕ, ◌+◌, ◌≡◌, refl, ap, ◌∙◌, false, not, ◌&&◌, List, [], ◌∷◌, length, eq_text, eq_text_self, arith,
}
use thread_haul_daemon.Logging.Chain.{
  linked, Lines, is_blank, chain_line, Report, Progress, pass_chained, wanted, verify_from,
  write_lines, LineLaws, IsHex,
}

refuses_self : (h : List ℕ) → (not (is_blank h) && not (eq_text h h)) ≡ false
refuses_self h = ground (arith, eq_text_self h)

module _ (io : Lines) (first_prev : List ℕ) where
  verify-chained :
      (line prev : List ℕ) (rest : List (List ℕ)) (p : Progress)
      → is_blank line ≡ false
      → io.link_of line ≡ linked prev
      → (not (is_blank (wanted io first_prev p.previous))
          && not (eq_text prev (wanted io first_prev p.previous)))
        ≡ false
      → verify_from io first_prev (line ∷ rest) p
        ≡ verify_from io first_prev rest (pass_chained line p)
  unfolding verify_from
  verify-chained line prev rest p b l w = ground arith

  -- Let every hash be hexadecimal, and the JSON parser find in each of the lines the hexadecimal text
  -- that it is chained with. Lines that are written one after another into one file, from the hash on
  -- that the verification expects, are verified to the end: each counts as chained, and none breaks
  -- the chain.
  pub verify_from-write_lines :
      (entries : List (List ℕ)) (prev : List ℕ) (p : Progress)
      → LineLaws io entries
      → IsHex prev
      → (not (is_blank (wanted io first_prev p.previous))
          && not (eq_text prev (wanted io first_prev p.previous)))
        ≡ false
      → let r = verify_from io first_prev (write_lines io prev entries) p in
        (r.broken_line ≡ p.report.broken_line)
        × (r.chained ≡ p.report.chained + length entries)
        × (r.unchained ≡ p.report.unchained)
  unfolding write_lines verify_from
  verify_from-write_lines [] prev p laws x w = (refl, omega arith, refl)
  verify_from-write_lines (line ∷ rest) prev p laws x w =
      let c = chain_line line prev in
      let ih =
        verify_from-write_lines rest (io.line_hash c) (pass_chained c p)
          (record {
            hash_is_hex = laws.hash_is_hex;
            not_blank = laws.not_blank.1;
            reads_back = laws.reads_back.1;
          })
          (laws.hash_is_hex c) (refuses_self (io.line_hash c)) in
      let step =
        verify-chained c prev (write_lines io (io.line_hash c) rest) p (laws.not_blank.0 prev x)
          (laws.reads_back.0 prev x) w in
      (
        ap (λ (r : Report). r.broken_line) step ∙ ih.0,
        omega (arith, ap (λ (r : Report). r.chained) step, ih.1),
        ap (λ (r : Report). r.unchained) step ∙ ih.2,
      )
