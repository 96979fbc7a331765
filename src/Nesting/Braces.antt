-- ===== src/Nesting/Braces.antt =====
-- The last loop of NestingState.Update: the braces and semicolons on a line.
pub mod Split
pub mod Run
pub mod Flags
pub mod Nested
use c_plus_server.Base.{
  ℕ, zero, suc, Bool, true, false, Option, none, some, List, [], ◌∷◌, ◌++◌, ◌==◌, ◌||◌,
  if◌then◌else◌, length,
}
use c_plus_server.Text.{Text, codes}
use c_plus_server.Report.{Report}
use c_plus_server.Regex.{
  Regex, ◌⊙◌, bol, eol, alt, set, star, plus, group, lit, opt, space, dot, matches, match_re,
  group_text, any_of, none_of,
}
use c_plus_server.Nesting.Blocks.{
  BlockInfo, InlineAsm, block_asm, new_block_info, new_extern_c_info,
}
use c_plus_server.Nesting.Ends.{check_end}

-- r'^\s*(?:asm|_asm|__asm|__asm__)(?:\s+(volatile|__volatile__))?\s*[{(]'
unfoldable pub match_asm : Regex
unfolding space lit
match_asm =
    bol
    ⊙ star space
    ⊙ alt (lit "asm") (alt (lit "_asm") (alt (lit "__asm") (lit "__asm__")))
    ⊙ opt (plus space ⊙ group 1 (alt (lit "volatile") (lit "__volatile__")))
    ⊙ star space
    ⊙ any_of (b'{' ∷ b'(' ∷ [])

-- r'^extern\s*"[^"]*"\s*\{'
unfoldable pub extern_brace : Regex
unfolding space lit
extern_brace =
    bol
    ⊙ lit "extern"
    ⊙ star space
    ⊙ lit "\""
    ⊙ star (none_of (b'"' ∷ []))
    ⊙ lit "\""
    ⊙ star space
    ⊙ lit "{"

abbrev pub brace_chars : List ℕ
brace_chars = b'{' ∷ b';' ∷ b')' ∷ b'}' ∷ []

-- r'^[^{;)}]*([{;)}])(.*)$'
abbrev pub next_brace : Regex
next_brace =
    bol ⊙ star (none_of brace_chars) ⊙ group 1 (any_of brace_chars) ⊙ group 2 (star dot) ⊙ eol

-- SeenOpenBrace, for a stack with its top at the head
unfoldable pub seen_open_brace : List BlockInfo → Bool
seen_open_brace [] = true
seen_open_brace (b ∷ stack) = b.seen_open_brace

abbrev pub mark_seen : BlockInfo → BlockInfo
mark_seen b = record b { seen_open_brace = true }

-- The block that `{` opens on what is left of the line.
unfoldable pub opened_block : Text → ℕ → BlockInfo
unfolding extern_brace match_asm
opened_block line linenum =
    if matches extern_brace line
    then new_extern_c_info linenum
    else if matches match_asm line
    then record (new_block_info linenum true) { inline_asm = block_asm }
    else new_block_info linenum true

unfoldable pub open_brace : Text → ℕ → List BlockInfo → List BlockInfo
open_brace line linenum [] = opened_block line linenum ∷ []
open_brace line linenum (b ∷ stack) =
    if b.seen_open_brace then opened_block line linenum ∷ b ∷ stack else mark_seen b ∷ stack

-- `;` and `)`: a block that has not seen its brace is dropped.
unfoldable pub end_declaration : List BlockInfo → List BlockInfo
end_declaration [] = []
end_declaration (b ∷ stack) = if b.seen_open_brace then b ∷ stack else stack

unfoldable pub pop_block : List BlockInfo → List BlockInfo
pop_block [] = []
pop_block (b ∷ stack) = stack

-- CheckEnd of the block on top
unfoldable pub top_check_end : List Text → Text → ℕ → List BlockInfo → List Report
top_check_end elided raw_line linenum [] = []
top_check_end elided raw_line linenum (b ∷ stack) = check_end b elided raw_line linenum

-- What a token does to the stack, with what is left of the line from before it.
unfoldable pub at_brace : ℕ → Text → ℕ → List BlockInfo → List BlockInfo
unfolding open_brace end_declaration pop_block
at_brace token line linenum stack =
    if token == b'{'
    then open_brace line linenum stack
    else if token == b';' || token == b')'
    then end_declaration stack
    else pop_block stack

-- The errors that a token leads to; `{`, `;` and `)` lead to none.
unfoldable pub brace_reports : List Text → Text → ℕ → ℕ → List BlockInfo → List Report
unfolding top_check_end
brace_reports elided raw_line linenum token stack =
    if token == b'{' || token == b';' || token == b')'
    then []
    else top_check_end elided raw_line linenum stack

-- The token and what is behind it.
unfoldable pub brace_split : Text → Option (ℕ × Text)
brace_split line = elim (match_re next_brace line) [
  | none ↦ none
  | some m ↦ elim (group_text 1 m.groups) [
    | [] ↦ none
    | token ∷ more ↦ some (token, group_text 2 m.groups)
  ]
]

-- The loop; `none` if the fuel runs out.
unfoldable pub brace_loop :
    ℕ → List Text → Text → ℕ → Text → List BlockInfo → Option (List BlockInfo × List Report)
brace_loop zero elided raw_line linenum line stack = none
brace_loop (suc f) elided raw_line linenum line stack = elim (brace_split line) [
  | none ↦ some (stack, [])
  | some (token, rest) ↦
      elim (brace_loop f elided raw_line linenum rest (at_brace token line linenum stack)) [
        | none ↦ none
        | some (stack', reports) ↦
            some (stack', brace_reports elided raw_line linenum token stack ++ reports)
      ]
]

unfoldable pub consume_braces :
    List Text → Text → ℕ → Text → List BlockInfo → Option (List BlockInfo × List Report)
unfolding brace_loop
consume_braces elided raw_line linenum line stack =
    brace_loop (suc (length line)) elided raw_line linenum line stack
