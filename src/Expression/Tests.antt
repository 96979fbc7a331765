-- ===== src/Expression/Tests.antt =====
-- Tests of Expression.antt, and its theorems at concrete inputs.
use c_plus_server.Base.{
  ℕ, ◌≤◌, ◌<◌, ◌≡◌, refl, List, [], ◌∷◌, ◌++◌, some, length, drop, get_elem?, ◌↔◌,
}
use c_plus_server.Text.{Text, codes}
use c_plus_server.Regex.{search_re, match_re, space, lit}
use c_plus_server.Expression.{
  find_end_of_expression_in_line, found, close_expression, find_end_from, step_forward, close_from,
  close_on, after_operator, line_and_rest, Place, is_open, is_close, preceded_by, preceded,
  drop_angles, shift_left, pop_bracket, pop_angle, end_statement, opens_at,
}
use c_plus_server.Expression.Close.{offset, flatten}
use c_plus_server.Expression.Meaning.{Encloses, find_end-Encloses, close_expression-Encloses}
use c_plus_server.Expression.Bounds.{close_expression-Within}

abbrev call : Text
call = codes "f(a < b, g[1]) + h"

abbrev template : List Text
template =
    codes "std::map<int, vector<char> >"
    ∷ codes "operator<(T x);"
    ∷ codes "g(a,"
    ∷ codes "b) {"
    ∷ []

runs : find_end_of_expression_in_line call 1 [] ≡ found 14
unfolding find_end_of_expression_in_line find_end_from step_forward after_operator search_re lit
    space is_open is_close preceded_by preceded drop_angles shift_left pop_bracket pop_angle
    end_statement codes
runs = refl

angles :
    close_expression template 0 8
    ≡ some (record { line = codes "std::map<int, vector<char> >"; linenum = 0; pos = some 28 })
unfolding close_expression line_and_rest close_from find_end_of_expression_in_line find_end_from
    step_forward after_operator search_re lit space is_open is_close preceded_by preceded
    drop_angles shift_left pop_bracket pop_angle end_statement codes opens_at match_re
angles = refl

two_lines :
    close_expression template 2 1 ≡ some (record { line = codes "b) {"; linenum = 3; pos = some 2 })
unfolding close_expression line_and_rest close_from find_end_of_expression_in_line find_end_from
    step_forward after_operator search_re lit space is_open is_close preceded_by preceded
    drop_angles shift_left pop_bracket pop_angle end_statement codes opens_at match_re close_on
two_lines = refl

find_end-Encloses_example :
    (find_end_of_expression_in_line call 1 [] ≡ found 14) ↔ Encloses 1 (drop 1 call) 14
unfolding codes is_open
find_end-Encloses_example = find_end-Encloses call 1 b'(' (codes "a < b, g[1]) + h") 14 refl refl

close_expression-Encloses_example :
    (place : Place) × (close_expression template 2 1 ≡ some place)
    × ((q : ℕ)
        → (offset 2 (codes "g(a," ∷ codes "b) {" ∷ []) place ≡ some q)
          ↔ Encloses 1 (codes "(a," ++ flatten (codes "b) {" ∷ [])) q)
unfolding codes is_open
close_expression-Encloses_example =
    close_expression-Encloses template 2 1 (codes "g(a,") (codes "b) {" ∷ []) b'(' (codes "a,") refl
      refl refl

close_expression-Within_example :
    (0 ≤ 0)
    × (0 < length template)
    × (get_elem? template 0 ≡ some (codes "std::map<int, vector<char> >"))
    × (0 < 28)
    × (28 ≤ length (codes "std::map<int, vector<char> >"))
close_expression-Within_example =
    close_expression-Within template 0 8
      (record { line = codes "std::map<int, vector<char> >"; linenum = 0; pos = some 28 }) 28 angles
      refl
