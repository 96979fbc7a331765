-- ===== src/Reverse.antt =====
-- my_socket/build_support/cpplint.py, the search for the beginning of a bracketed expression:
-- FindStartOfExpressionInLine and ReverseCloseExpression. A stack has its top at the head.
pub mod Operator
pub mod Mirror
pub mod Refine
pub mod Pairs
pub mod RoundTrip
pub mod Bounds
mod Tests
use c_plus_server.Base.{
  ℕ, zero, suc, ◌+◌, Bool, true, false, ◌||◌, ◌&&◌, Option, none, some, List, [], ◌∷◌, ◌==◌, ◌++◌,
  if◌then◌else◌, reverse, drop, take, length, get_elem?, get_or,
}
use c_plus_server.Text.{Text}
use c_plus_server.Regex.{Regex, lit, ◌⊙◌, space, matches}
use c_plus_server.Expression.{
  is_open, is_close, closes, preceded_by, preceded, after_operator, drop_angles, LineScan, found,
  gave_up, unclosed, Place,
}

-- What one code point does: the scan goes on, with the next code point left out or not, the
-- expression begins here, or it is given up.
pub data BackScan : Type 0 where
  going : Bool → List ℕ → BackScan
  opened lost : BackScan

-- r'\s>=\s'
abbrev pub greater_equal : Regex
greater_equal = space ⊙ lit ">=" ⊙ space

-- `i > 0` and the tests of `->`, `>=` and `operator>`; `before` is `line[0:i]`, reversed, and
-- `after` is `line[i + 1:]`
unfoldable pub is_operator : Text → Text → Bool
is_operator [] after = false
is_operator (p ∷ before) after =
    p == b'-' || matches greater_equal (p ∷ b'>' ∷ after) || after_operator (p ∷ before)

-- The bracket `char` against the top of the stack.
unfoldable pub pop_close : ℕ → List ℕ → BackScan
unfolding closes
pop_close char [] = lost
pop_close char (c ∷ []) = if closes char c then opened else lost
pop_close char (c ∷ d ∷ stack) = if closes char c then going false (d ∷ stack) else lost

-- `<` against the top of the stack.
unfoldable pub pop_greater : List ℕ → BackScan
pop_greater [] = going false []
pop_greater (c ∷ []) = if c == b'>' then opened else going false (c ∷ [])
pop_greater (c ∷ d ∷ stack) =
    if c == b'>' then going false (d ∷ stack) else going false (c ∷ d ∷ stack)

unfoldable pub end_of_statement : List ℕ → BackScan
end_of_statement [] = lost
end_of_statement (c ∷ stack) = going false (c ∷ stack)

-- The body of the loop at `char`.
unfoldable pub step_backward : Text → ℕ → Text → List ℕ → BackScan
step_backward before char after stack =
    if is_close char
    then going false (char ∷ stack)
    else if char == b'>'
    then if is_operator before after then going true stack else going false (b'>' ∷ stack)
    else if char == b'<'
    then if preceded_by b'<' before then going true stack else pop_greater stack
    else if is_open char
    then pop_close char (drop_angles b'>' stack)
    else if char == b';'
    then end_of_statement (drop_angles b'>' stack)
    else going false stack

-- The loop from the first code point of a reversed line on; `skip` leaves that one out.
unfoldable pub find_start_from : Bool → Text → Text → List ℕ → LineScan
find_start_from skip [] after stack = unclosed stack
find_start_from true (char ∷ before) after stack = find_start_from false before (char ∷ after) stack
find_start_from false (char ∷ before) after stack = elim (step_backward before char after stack) [
  | going skip stack' ↦ find_start_from skip before (char ∷ after) stack'
  | opened ↦ found (length before)
  | lost ↦ gave_up
]

-- For `endpos + 1` code points, the last of which stands at `endpos`.
unfoldable pub find_start_of_expression_in_line : Text → ℕ → List ℕ → LineScan
unfolding find_start_from
find_start_of_expression_in_line line count stack =
    find_start_from false (reverse (take count line)) (drop count line) stack

-- `while stack and linenum > 0`, over the lines from `linenum - 1` up
unfoldable pub reverse_close_on : List Text → Text → ℕ → List ℕ → Place
unfolding find_start_of_expression_in_line
reverse_close_on elided line linenum [] = record { line = line; linenum = 0; pos = none }
reverse_close_on elided line zero (c ∷ stack) = record { line = line; linenum = 0; pos = none }
reverse_close_on elided line (suc linenum) (c ∷ stack) =
    let above = get_or elided linenum [] in
    elim (find_start_of_expression_in_line above (length above) (c ∷ stack)) [
      | found p ↦ record { line = above; linenum = linenum; pos = some p }
      | gave_up ↦ record { line = above; linenum = 0; pos = none }
      | unclosed stack' ↦ reverse_close_on elided above linenum stack'
    ]

unfoldable pub reverse_close_at : List Text → Text → ℕ → ℕ → Place
unfolding reverse_close_on
reverse_close_at elided line linenum pos =
    elim (find_start_of_expression_in_line line (suc pos) []) [
      | found p ↦ record { line = line; linenum = linenum; pos = some p }
      | gave_up ↦ record { line = line; linenum = 0; pos = none }
      | unclosed stack ↦ reverse_close_on elided line linenum stack
    ]

-- `none` is an IndexError
unfoldable pub reverse_close_expression : List Text → ℕ → ℕ → Option Place
unfolding reverse_close_at
reverse_close_expression elided linenum pos = elim (get_elem? elided linenum) [
  | none ↦ none
  | some line ↦ elim (get_elem? line pos) [
    | none ↦ none
    | some char ↦ some (
        if is_close char || char == b'>'
        then reverse_close_at elided line linenum pos
        else record { line = line; linenum = 0; pos = none })
  ]
]
