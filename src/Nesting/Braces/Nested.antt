-- ===== src/Nesting/Braces/Nested.antt =====
-- A line whose braces are balanced leaves the stack as it was.
use mathlib.Core.List.{append_assoc, append-nil}
use c_plus_server.Base.{
  ℕ, ◌≡◌, ◌≢◌, refl, ap, ◌∙◌, Bool-cases, true, inl, inr, some, List, [], ◌∷◌, ◌++◌, arith,
}
use c_plus_server.Text.{Text}
use c_plus_server.Regex.{one_of}
use c_plus_server.Nesting.Blocks.{BlockInfo}
use c_plus_server.Nesting.Ends.{check_end}
use c_plus_server.Nesting.Braces.{
  brace_chars, at_brace, brace_reports, top_check_end, opened_block, consume_braces, open_brace,
  end_declaration, pop_block, seen_open_brace,
}
use c_plus_server.Nesting.Braces.Split.{is_line}
use c_plus_server.Nesting.Braces.Run.{run_braces, consume_braces-run_braces}

-- Text in which every brace is matched; semicolons and parentheses stand anywhere.
pub data Nested : Text → Type 0 where
  empty : Nested []
  other : (c : ℕ) (s : Text) → c ≢ b'{' → c ≢ b'}' → Nested s → Nested (c ∷ s)
  block : (s t : Text) → Nested s → Nested t → Nested (b'{' ∷ s ++ b'}' ∷ t)

opened_block-check_end :
    (line : Text) (n m : ℕ) (elided : List Text) (raw_line : Text)
    → check_end (opened_block line n) elided raw_line m ≡ []
unfolding opened_block check_end
opened_block-check_end line n m elided raw_line = ground arith

opened_block-seen : (line : Text) (n : ℕ) → (opened_block line n).seen_open_brace ≡ true
unfolding opened_block
opened_block-seen line n = ground arith

module _ (elided : List Text) (raw_line : Text) (n : ℕ) where
  at_open :
      (line : Text) (stack : List BlockInfo)
      → seen_open_brace stack ≡ true
      → at_brace b'{' line n stack ≡ opened_block line n ∷ stack
  unfolding at_brace open_brace seen_open_brace
  at_open line [] h = refl
  at_open line (b ∷ stack) h = rw h

  at_end_declaration :
      (stack : List BlockInfo) → seen_open_brace stack ≡ true → end_declaration stack ≡ stack
  unfolding end_declaration seen_open_brace
  at_end_declaration [] h = refl
  at_end_declaration (b ∷ stack) h = rw h

  -- A semicolon or a parenthesis does nothing to a stack whose top has its brace.
  other_token :
      (c : ℕ) (line : Text) (stack : List BlockInfo)
      → c ≢ b'{'
      → c ≢ b'}'
      → one_of brace_chars c ≡ true
      → seen_open_brace stack ≡ true
      → (at_brace c line n stack ≡ stack) × (brace_reports elided raw_line n c stack ≡ [])
  unfolding at_brace brace_reports
  other_token c line stack a b t h = ground (arith, at_end_declaration stack h)

  Nested-run_braces :
      {s : Text} (pending rest : Text) (stack : List BlockInfo)
      → Nested s
      → seen_open_brace stack ≡ true
      → (p : Text) × (run_braces elided raw_line n pending (s ++ rest) stack
          ≡ run_braces elided raw_line n p rest stack)
  unfolding run_braces at_brace brace_reports pop_block top_check_end seen_open_brace
  Nested-run_braces pending rest stack empty h = (pending, refl)
  Nested-run_braces pending rest stack (other c s a b m) h =
      elim (Bool-cases (one_of brace_chars c)) [
        | inl e ↦
            let (kept, q) = other_token c (pending ++ (c ∷ (s ++ rest))) stack a b e h in
            let (p, r) = Nested-run_braces [] rest stack m h in (p, rw (e, kept, q) r)
        | inr e ↦ let (p, r) = Nested-run_braces (pending ++ c ∷ []) rest stack m h in (p, rw e r)
      ]
  Nested-run_braces pending rest stack (block s t m m') h =
      let line = pending ++ (b'{' ∷ (s ++ (b'}' ∷ t ++ rest))) in
      let inner = opened_block line n ∷ stack in
      let assoc = append_assoc s (b'}' ∷ t) rest in
      let (p, q) = Nested-run_braces [] (b'}' ∷ t ++ rest) inner m (opened_block-seen line n) in
      let (p', q') = Nested-run_braces [] rest stack m' h in
      (p', rw (assoc, at_open line stack h, q, opened_block-check_end line n n elided raw_line) q')

-- On a line whose braces are balanced, where the block on top has seen its brace, the loop leaves
-- the stack as it was and reports nothing.
pub consume_braces-Nested :
    (elided : List Text) (raw_line : Text) (linenum : ℕ) (line : Text) (stack : List BlockInfo)
    → is_line line ≡ true
    → Nested line
    → seen_open_brace stack ≡ true
    → consume_braces elided raw_line linenum line stack ≡ some (stack, [])
unfolding run_braces
consume_braces-Nested elided raw_line linenum line stack l m h =
    let (p, e) = Nested-run_braces elided raw_line linenum [] [] stack m h in
    consume_braces-run_braces elided raw_line linenum line stack l
    ∙ ap some (rw (append-nil line) at e)
