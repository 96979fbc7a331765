-- ===== src/FunctionLength/Tests.antt =====
-- Tests of FunctionLength.antt, and its theorem at a concrete input.
use c_plus_server.Base.{◌≡◌, refl, some, List, [], ◌∷◌, true, false}
use c_plus_server.Text.{Text, codes}
use c_plus_server.Report.{Report}
use c_plus_server.FunctionSize.{FunctionState, new_function_state}
use c_plus_server.FunctionLength.{starts_function, function_name}
use c_plus_server.FunctionLength.Whole.{
  check_lines, Begins, IsBody, closing, blank, counted, Reported, check_lines-trigger,
}

abbrev small : List Text
small = codes "f() {" ∷ codes " g;" ∷ [] ∷ codes "}" ∷ []

starts : starts_function (codes "int f(int a) {") ≡ true
unfolding starts_function c_plus_server.Regex.match_re c_plus_server.Regex.word codes
    c_plus_server.Regex.lit c_plus_server.Regex.space c_plus_server.Text.text_eq
    c_plus_server.Text.rstrip c_plus_server.Regex.group_text
starts = refl

macro : starts_function (codes "MACRO(a)") ≡ false
unfolding starts_function c_plus_server.Regex.match_re c_plus_server.Regex.word codes
    c_plus_server.Regex.lit c_plus_server.Regex.space c_plus_server.Text.text_eq
    c_plus_server.Text.rstrip c_plus_server.Regex.group_text
macro = refl

named : function_name (codes "int f(int a) {") [] ≡ some (codes "f()")
unfolding function_name c_plus_server.Regex.search_re codes c_plus_server.Regex.word
    c_plus_server.Regex.lit c_plus_server.Regex.match_re c_plus_server.Regex.group_text
named = refl

Begins-small : Begins small 0 (codes "f()")
unfolding starts_function c_plus_server.Regex.match_re c_plus_server.Regex.word codes
    c_plus_server.Regex.lit c_plus_server.Regex.space c_plus_server.Text.text_eq
    c_plus_server.Text.rstrip c_plus_server.Regex.group_text c_plus_server.FunctionLength.find_body
    c_plus_server.Regex.search_re function_name
Begins-small = record {
  line = codes "f() {";
  joined = codes " f() {";
  there = refl;
  starts = refl;
  has_body = refl;
  named = refl;
}

IsBody-small : IsBody small 1 2 1
unfolding starts_function c_plus_server.Regex.match_re c_plus_server.Regex.word codes
    c_plus_server.Regex.lit c_plus_server.Regex.space
IsBody-small =
    counted
      (record {
        line = codes " g;";
        there = refl;
        begins_none = refl;
        ends_none = refl;
        is_blank = refl;
      })
      (blank
        (record { line = []; there = refl; begins_none = refl; ends_none = refl; is_blank = refl })
        (closing (record { line = codes "}"; there = refl; begins_none = refl; ends = refl })))

check_lines-trigger_example :
    (s' : FunctionState) × (reports : List Report) × (check_lines small 0 4 0 new_function_state
      ≡ some (s', reports))
    × (s'.in_a_function ≡ false)
    × Reported 0 (codes "f()") 1 3 reports
check_lines-trigger_example =
    check_lines-trigger small 0 1 2 0 (codes "f()") new_function_state Begins-small IsBody-small
