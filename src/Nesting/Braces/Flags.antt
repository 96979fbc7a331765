-- ===== src/Nesting/Braces/Flags.antt =====
-- The stack of blocks as a machine on flags: whether each block has seen its opening brace.
use c_plus_server.Base.{
  ℕ, ◌≡◌, refl, sym, ap, ◌∙◌, Bool, Bool-cases, true, false, inl, inr, some, List, [], ◌∷◌, ◌++◌,
  map, arith, ◌==◌, ◌||◌, if◌then◌else◌,
}
use c_plus_server.Text.{Text}
use c_plus_server.Report.{Report}
use c_plus_server.Regex.{one_of}
use c_plus_server.Nesting.Blocks.{BlockInfo}
use c_plus_server.Nesting.Braces.{
  brace_chars, at_brace, opened_block, consume_braces, open_brace, end_declaration, pop_block,
}
use c_plus_server.Nesting.Braces.Split.{is_line}
use c_plus_server.Nesting.Braces.Run.{run_braces, consume_braces-run_braces}

abbrev pub flags : List BlockInfo → List Bool
flags stack = map (λ (b : BlockInfo). b.seen_open_brace) stack

-- `{` completes the head on top, or opens a block.
unfoldable pub open_flag : List Bool → List Bool
open_flag [] = true ∷ []
open_flag (seen ∷ fs) = if seen then true ∷ seen ∷ fs else true ∷ fs

-- `;` and `)` drop a head that has no brace yet.
unfoldable pub end_flag : List Bool → List Bool
end_flag [] = []
end_flag (seen ∷ fs) = if seen then seen ∷ fs else fs

unfoldable pub close_flag : List Bool → List Bool
close_flag [] = []
close_flag (seen ∷ fs) = fs

unfoldable pub step_flags : ℕ → List Bool → List Bool
unfolding open_flag end_flag close_flag
step_flags c fs =
    if c == b'{'
    then open_flag fs
    else if c == b';' || c == b')'
    then end_flag fs
    else if c == b'}'
    then close_flag fs
    else fs

unfoldable pub run_flags : Text → List Bool → List Bool
run_flags [] fs = fs
run_flags (c ∷ s) fs = run_flags s (step_flags c fs)

opened_block-seen : (line : Text) (n : ℕ) → (opened_block line n).seen_open_brace ≡ true
unfolding opened_block
opened_block-seen line n = ground arith

flags-open_brace :
    (line : Text) (n : ℕ) (stack : List BlockInfo)
    → flags (open_brace line n stack) ≡ open_flag (flags stack)
unfolding open_brace open_flag
flags-open_brace line n [] = ground (arith, opened_block-seen line n)
flags-open_brace line n (b ∷ stack) = ground (arith, opened_block-seen line n)

flags-end_declaration :
    (stack : List BlockInfo) → flags (end_declaration stack) ≡ end_flag (flags stack)
unfolding end_declaration end_flag
flags-end_declaration [] = refl
flags-end_declaration (b ∷ stack) = ground arith

flags-pop_block : (stack : List BlockInfo) → flags (pop_block stack) ≡ close_flag (flags stack)
unfolding pop_block close_flag
flags-pop_block [] = refl
flags-pop_block (b ∷ stack) = refl

-- On each of the four tokens the stack takes the machine's step.
flags-at_brace :
    (token : ℕ) (line : Text) (n : ℕ) (stack : List BlockInfo)
    → one_of brace_chars token ≡ true
    → flags (at_brace token line n stack) ≡ step_flags token (flags stack)
unfolding at_brace step_flags
flags-at_brace token line n stack h =
    ground
      (arith, flags-open_brace line n stack, flags-end_declaration stack, flags-pop_block stack)

step_flags-other : (c : ℕ) (fs : List Bool) → one_of brace_chars c ≡ false → step_flags c fs ≡ fs
unfolding step_flags
step_flags-other c fs h = ground arith

flags-run_braces :
    (elided : List Text) (raw_line : Text) (n : ℕ) (pending s : Text) (stack : List BlockInfo)
    → flags (run_braces elided raw_line n pending s stack).0 ≡ run_flags s (flags stack)
unfolding run_braces run_flags
flags-run_braces elided raw_line n pending [] stack = refl
flags-run_braces elided raw_line n pending (x ∷ s) stack =
    elim (Bool-cases (one_of brace_chars x)) [
      | inl e ↦ rw e (
          flags-run_braces elided raw_line n [] s (at_brace x (pending ++ x ∷ s) n stack)
          ∙ ap (run_flags s) (flags-at_brace x (pending ++ x ∷ s) n stack e))
      | inr e ↦ rw e (
          flags-run_braces elided raw_line n (pending ++ x ∷ []) s stack
          ∙ ap (run_flags s) (sym (step_flags-other x (flags stack) e)))
    ]

-- The loop ends on every line, and the flags of the stack that it leaves are those that a machine
-- comes to which reads the characters one by one.
pub consume_braces-run_flags :
    (elided : List Text) (raw_line : Text) (linenum : ℕ) (line : Text) (stack : List BlockInfo)
    → is_line line ≡ true
    → (stack' : List BlockInfo) × (reports : List Report) × (consume_braces elided raw_line linenum
          line stack
        ≡ some (stack', reports))
      × (flags stack' ≡ run_flags line (flags stack))
consume_braces-run_flags elided raw_line linenum line stack l =
    let r = run_braces elided raw_line linenum [] line stack in
    (
      r.0,
      r.1,
      consume_braces-run_braces elided raw_line linenum line stack l,
      flags-run_braces elided raw_line linenum [] line stack,
    )
