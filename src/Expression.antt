-- ===== src/Expression.antt =====
-- my_socket/build_support/cpplint.py, the search for the end of a bracketed expression:
-- FindEndOfExpressionInLine and CloseExpression. A stack of open brackets has its top at the head.
pub mod Plain
pub mod Refine
pub mod Balanced
pub mod Close
pub mod Meaning
pub mod Bounds
mod Tests
use c_plus_server.Base.{
  ℕ, zero, suc, ◌+◌, Bool, true, false, ◌||◌, ◌&&◌, Option, none, some, List, [], ◌∷◌, ◌==◌,
  if◌then◌else◌, reverse, drop, length,
}
use c_plus_server.Text.{Text}
use c_plus_server.Regex.{Regex, lit, ◌⊙◌, star, space, eol, word_boundary, set, searches, matches}

unfoldable pub is_open : ℕ → Bool
is_open c = c == b'(' || c == b'[' || c == b'{'

unfoldable pub is_close : ℕ → Bool
is_close c = c == b')' || c == b']' || c == b'}'

-- The bracket `o` is closed by `c`.
unfoldable pub closes : ℕ → ℕ → Bool
closes o c = (o == b'(' && c == b')') || (o == b'[' && c == b']') || (o == b'{' && c == b'}')

-- r'\boperator\s*$'
abbrev pub operator_end : Regex
operator_end = word_boundary ⊙ lit "operator" ⊙ star space ⊙ eol

-- `Search(r'\boperator\s*$', line)` for a line given from its end
unfoldable pub after_operator : Text → Bool
after_operator before = searches operator_end (reverse before)

-- `i > 0 and line[i - 1] == c`
unfoldable pub preceded_by : ℕ → Text → Bool
preceded_by c [] = false
preceded_by c (x ∷ before) = x == c

unfoldable pub preceded : Text → Bool
preceded [] = false
preceded (x ∷ before) = true

-- What one code point does: the scan goes on, the expression ends, or it is given up.
pub data Scan : Type 0 where
  keep : List ℕ → Scan
  closed broken : Scan

-- `while stack and stack[-1] == angle: stack.pop()`
unfoldable pub drop_angles : ℕ → List ℕ → List ℕ
drop_angles angle [] = []
drop_angles angle (x ∷ stack) =
    let rest = drop_angles angle stack in if x == angle then rest else x ∷ stack

-- `<<`: the pending `<` was a shift.
unfoldable pub shift_left : List ℕ → Scan
shift_left [] = keep []
shift_left (x ∷ []) = if x == b'<' then broken else keep (x ∷ [])
shift_left (x ∷ y ∷ stack) = if x == b'<' then keep (y ∷ stack) else keep (x ∷ y ∷ stack)

unfoldable pub pop_bracket : ℕ → List ℕ → Scan
unfolding closes
pop_bracket c [] = broken
pop_bracket c (o ∷ []) = if closes o c then closed else broken
pop_bracket c (o ∷ p ∷ stack) = if closes o c then keep (p ∷ stack) else broken

unfoldable pub pop_angle : ℕ → List ℕ → Scan
pop_angle angle [] = keep []
pop_angle angle (x ∷ []) = if x == angle then closed else keep (x ∷ [])
pop_angle angle (x ∷ y ∷ stack) = if x == angle then keep (y ∷ stack) else keep (x ∷ y ∷ stack)

unfoldable pub end_statement : List ℕ → Scan
end_statement [] = broken
end_statement (x ∷ stack) = keep (x ∷ stack)

-- The body of the loop at `char`, behind the text `before`.
unfoldable pub step_forward : Text → ℕ → List ℕ → Scan
step_forward before char stack =
    if is_open char
    then keep (char ∷ stack)
    else if char == b'<'
    then if preceded_by b'<' before
      then shift_left stack
      else if preceded before && after_operator before
      then keep stack
      else keep (b'<' ∷ stack)
    else if is_close char
    then pop_bracket char (drop_angles b'<' stack)
    else if char == b'>'
    then if preceded before && (preceded_by b'-' before || after_operator (drop 1 before))
      then keep stack
      else pop_angle b'<' stack
    else if char == b';'
    then end_statement (drop_angles b'<' stack)
    else keep stack

-- (index, None), (-1, None) and (-1, stack)
pub data LineScan : Type 0 where
  found : ℕ → LineScan
  gave_up : LineScan
  unclosed : List ℕ → LineScan

unfoldable pub find_end_from : ℕ → Text → Text → List ℕ → LineScan
find_end_from i before [] stack = unclosed stack
find_end_from i before (char ∷ rest) stack = elim (step_forward before char stack) [
  | keep stack' ↦ find_end_from (i + 1) (char ∷ before) rest stack'
  | closed ↦ found (i + 1)
  | broken ↦ gave_up
]

-- `line[0:n]`, reversed, and `line[n:]`
unfoldable pub split_at : ℕ → Text → Text → Text × Text
split_at zero before rest = (before, rest)
split_at (suc n) before [] = (before, [])
split_at (suc n) before (c ∷ rest) = split_at n (c ∷ before) rest

unfoldable pub find_end_of_expression_in_line : Text → ℕ → List ℕ → LineScan
unfolding split_at find_end_from
find_end_of_expression_in_line line startpos stack =
    let (before, rest) = split_at startpos [] line in find_end_from startpos before rest stack

-- The triple that CloseExpression returns; `none` is the position -1.
pub record Place : Type 0 where
  pub line : Text
  pub linenum : ℕ
  pub pos : Option ℕ

-- `while stack and linenum < clean_lines.NumLines() - 1`, over the lines behind `line`
unfoldable pub close_on : ℕ → Text → ℕ → List ℕ → List Text → Place
unfolding find_end_of_expression_in_line
close_on total line linenum [] rest = record { line = line; linenum = total; pos = none }
close_on total line linenum (x ∷ stack) [] = record { line = line; linenum = total; pos = none }
close_on total line linenum (x ∷ stack) (next ∷ rest) =
    elim (find_end_of_expression_in_line next 0 (x ∷ stack)) [
      | found p ↦ record { line = next; linenum = linenum + 1; pos = some p }
      | gave_up ↦ record { line = next; linenum = total; pos = none }
      | unclosed stack' ↦ close_on total next (linenum + 1) stack' rest
    ]

-- r'<[<=]'
abbrev shift_or_le : Regex
shift_or_le = lit "<" ⊙ set (λ c. c == b'<' || c == b'=')

-- `line[pos] in '({[<'` and no `<<` or `<=`; `none` is an IndexError
unfoldable pub opens_at : Text → ℕ → Option Bool
unfolding is_open
opens_at line pos = elim (drop pos line) [
  | [] ↦ none
  | c ∷ rest ↦ some (
      if is_open c || c == b'<'
      then (if matches shift_or_le (c ∷ rest) then false else true)
      else false)
]

-- On the line `line` with number `linenum`, the lines `rest` behind it.
unfoldable pub close_from : ℕ → Text → ℕ → ℕ → List Text → Option Place
close_from total line linenum pos rest = elim (opens_at line pos) [
  | none ↦ none
  | some false ↦ some (record { line = line; linenum = total; pos = none })
  | some true ↦ some (elim (find_end_of_expression_in_line line pos []) [
    | found p ↦ record { line = line; linenum = linenum; pos = some p }
    | gave_up ↦ record { line = line; linenum = total; pos = none }
    | unclosed stack ↦ close_on total line linenum stack rest
  ])
]

-- `clean_lines.elided[linenum]` and the lines behind it; `none` is an IndexError
unfoldable pub line_and_rest : List Text → ℕ → Option (Text × List Text)
line_and_rest elided linenum = elim (drop linenum elided) [
  | [] ↦ none
  | line ∷ rest ↦ some (line, rest)
]

unfoldable pub close_expression : List Text → ℕ → ℕ → Option Place
close_expression elided linenum pos = elim (line_and_rest elided linenum) [
  | none ↦ none
  | some (line, rest) ↦ close_from (length elided) line linenum pos rest
]
