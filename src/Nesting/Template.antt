-- ===== src/Nesting/Template.antt =====
-- NestingState.InTemplateArgumentList.
pub mod Total
use c_plus_server.Base.{
  ℕ, zero, suc, ◌+◌, ◌-◌, Bool, true, false, ◌||◌, not, Option, none, some, List, [], ◌∷◌, ◌==◌,
  leb, if◌then◌else◌, length, drop, get_elem?,
}
use c_plus_server.Text.{Text, codes}
use c_plus_server.Regex.{
  Regex, ◌⊙◌, bol, set, star, group, dot, match_re, group_text, any_of, none_of,
}
use c_plus_server.Expression.{close_expression, Place}

abbrev suspects : List ℕ
suspects = b'{' ∷ b'}' ∷ b';' ∷ b'=' ∷ b'[' ∷ b']' ∷ b'.' ∷ b'<' ∷ b'>' ∷ []

-- r'^[^{};=\[\]\.<>]*(.)'
abbrev next_suspect : Regex
next_suspect = bol ⊙ star (none_of suspects) ⊙ group 1 dot

-- What one round of the loop comes to; a place that is out of range is an IndexError.
pub data Round : Type 0 where
  answer : Bool → Round
  go_on : ℕ → ℕ → Round
  index_error : Round

-- `token in ('{', '}', ';')`
abbrev ends_search : ℕ → Bool
ends_search c = c == b'{' || c == b'}' || c == b';'

-- `token in ('>', '=', '[', ']', '.')`
abbrev in_arguments : ℕ → Bool
in_arguments c = c == b'>' || c == b'=' || c == b'[' || c == b']' || c == b'.'

-- The round behind the match: `pos` is just after the token.
unfoldable pub at_token : List Text → Text → ℕ → ℕ → ℕ → Round
at_token elided line linenum pos token =
    if ends_search token
    then answer false
    else if in_arguments token
    then answer true
    else if not (token == b'<')
    then (if leb (length line) (pos + 1) then go_on (linenum + 1) 0 else go_on linenum (pos + 1))
    else elim (close_expression elided linenum (pos - 1)) [
      | none ↦ index_error
      | some place ↦ elim place.pos [
        | none ↦ answer false
        | some end_pos ↦ go_on place.linenum end_pos
      ]
    ]

unfoldable pub template_round : List Text → Text → ℕ → ℕ → Round
unfolding at_token
template_round elided line linenum pos = elim (match_re next_suspect (drop pos line)) [
  | none ↦ go_on (linenum + 1) 0
  | some m ↦ elim (group_text 1 m.groups) [
    | [] ↦ index_error
    | token ∷ more ↦ at_token elided line linenum (pos + length m.before) token
  ]
]

-- The loop; `none` is an IndexError, or the fuel has run out.
unfoldable pub in_template_from : ℕ → List Text → ℕ → ℕ → Option Bool
in_template_from zero elided linenum pos = none
in_template_from (suc f) elided linenum pos = elim (get_elem? elided linenum) [
  | none ↦ some false
  | some line ↦ elim (template_round elided line linenum pos) [
    | answer b ↦ some b
    | go_on linenum' pos' ↦ in_template_from f elided linenum' pos'
    | index_error ↦ none
  ]
]

-- The characters of the lines, with one more for the end of each.
unfoldable pub room : List Text → ℕ
room [] = 1
room (line ∷ lines) = suc (length line) + room lines

unfoldable pub in_template_argument_list : List Text → ℕ → ℕ → Option Bool
unfolding in_template_from room
in_template_argument_list elided linenum pos =
    in_template_from (room (drop linenum elided)) elided linenum pos
