-- ===== src/Reverse/Tests.antt =====
-- Tests of Reverse.antt, and its theorems at concrete inputs.
use c_plus_server.Base.{arith, ◌≡◌, refl, List, [], ◌∷◌, some, none, ◌↔◌}
use c_plus_server.Text.{Text, codes}
use c_plus_server.Regex.{search_re, match_re, space, lit}
use c_plus_server.Expression.{
  find_end_of_expression_in_line, found, Place, after_operator, is_open, is_close, preceded_by,
  drop_angles, closes,
}
use c_plus_server.Reverse.{
  find_start_of_expression_in_line, find_start_from, step_backward, is_operator, pop_close,
  pop_greater, end_of_statement, reverse_close_expression, reverse_close_at, reverse_close_on,
}
use c_plus_server.Reverse.Bounds.{NotBehind, reverse_close_expression-NotBehind}
use c_plus_server.Reverse.Pairs.{Pair}
use c_plus_server.Reverse.RoundTrip.{find_start-Pair, find_start-find_end}

abbrev call : Text
call = codes "f(a->b > c, g[1]) + h"

abbrev template : List Text
template = codes "std::map<int," ∷ codes "  vector<char> > m;" ∷ codes "x = (y;)" ∷ []

runs : find_start_of_expression_in_line call 17 [] ≡ found 1
unfolding find_start_of_expression_in_line find_start_from step_backward is_operator pop_close
    pop_greater end_of_statement after_operator search_re match_re lit space is_open is_close
    preceded_by drop_angles closes codes
runs = refl

two_lines :
    reverse_close_expression template 1 15
    ≡ some (record { line = codes "std::map<int,"; linenum = 0; pos = some 8 })
unfolding reverse_close_expression reverse_close_at reverse_close_on
    find_start_of_expression_in_line find_start_from step_backward is_operator pop_close pop_greater
    end_of_statement after_operator search_re match_re lit space is_open is_close preceded_by
    drop_angles closes codes
two_lines = refl

no_bracket :
    reverse_close_expression template 0 1
    ≡ some (record { line = codes "std::map<int,"; linenum = 0; pos = none })
unfolding reverse_close_expression is_close codes
no_bracket = refl

find_start-Pair_example : (find_start_of_expression_in_line call 17 [] ≡ found 1) ↔ Pair call 1 16
unfolding codes is_close
find_start-Pair_example = find_start-Pair call 1 16 b')' (codes " + h") refl refl

find_start-find_end_example :
    (find_end_of_expression_in_line call 1 [] ≡ found 17)
    ↔ (find_start_of_expression_in_line call 17 [] ≡ found 1)
unfolding codes is_open is_close
find_start-find_end_example =
    find_start-find_end call 1 16 b'(' b')' (codes "a->b > c, g[1]) + h") (codes " + h") refl refl
      refl refl

reverse_close_expression-NotBehind_example :
    (place : Place) × (reverse_close_expression template 1 15 ≡ some place)
    × NotBehind template 1 place
unfolding codes
reverse_close_expression-NotBehind_example =
    reverse_close_expression-NotBehind template 1 15 (codes "  vector<char> > m;") refl
      (ground arith)
