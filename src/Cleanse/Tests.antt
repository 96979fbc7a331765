-- ===== src/Cleanse/Tests.antt =====
-- Tests of Cleanse.antt, and its theorems at concrete inputs.
use c_plus_server.Base.{◌≡◌, refl, some, List, [], ◌∷◌, true}
use c_plus_server.Text.{Text, codes}
use c_plus_server.Cleanse.Loops.{cleanse_raw_strings, done, no_fuel}
use c_plus_server.Cleanse.{
  is_cpp_string, cleanse_comments, collapse_strings, CleansedLines, cleansed_lines,
}
use c_plus_server.Cleanse.Returns.{collapse_strings-done}
use c_plus_server.Cleanse.Comments.{cleanse_comments-slashes}
use c_plus_server.Cleanse.Lines.{SameLength, cleansed_lines-SameLength}

abbrev commented : Text
commented = codes "f(/* a */ x);  // \"b\""

cleansed_comment : cleanse_comments commented ≡ codes "f(x);"
unfolding codes cleanse_comments c_plus_server.Regex.remove_all
    c_plus_server.Cleanse.strip_line_comment c_plus_server.Text.find is_cpp_string
    c_plus_server.Text.count c_plus_server.Text.replace c_plus_server.Text.rstrip
    c_plus_server.Cleanse.Patterns.re_pattern_cleanse_line_c_comments
cleansed_comment = refl

open_string : is_cpp_string (codes "a = \"b\\\"") ≡ true
unfolding is_cpp_string c_plus_server.Text.count c_plus_server.Text.replace codes
open_string = refl

collapsed :
    collapse_strings (codes "s = \"a\\\"b\" + 'c' + 1'000;") ≡ done (codes "s = \"\" + '' + 1000;")
unfolding collapse_strings c_plus_server.Regex.match_re
    c_plus_server.Cleanse.Patterns.re_pattern_include c_plus_server.Cleanse.Loops.collapse_from
    c_plus_server.Cleanse.Loops.quote_split c_plus_server.Regex.remove_all
    c_plus_server.Cleanse.Patterns.re_pattern_cleanse_line_escapes c_plus_server.Text.text_eq
    c_plus_server.Regex.group_text c_plus_server.Text.find c_plus_server.Regex.search_re
    c_plus_server.Cleanse.Loops.literal_split c_plus_server.Regex.word c_plus_server.Text.replace
collapsed = refl

abbrev raw_lines : List Text
raw_lines = codes "s = R\"(a" ∷ codes "  )\" + R\"x(b)x\";" ∷ []

raw_strings : cleanse_raw_strings raw_lines ≡ some (codes "s = \"\"" ∷ codes "  \"\" + \"\";" ∷ [])
unfolding cleanse_raw_strings c_plus_server.Cleanse.Loops.cleanse_from
    c_plus_server.Cleanse.Loops.raw_line c_plus_server.Cleanse.Loops.raw_loop
    c_plus_server.Cleanse.Loops.raw_start c_plus_server.Regex.match_re codes c_plus_server.Regex.lit
    c_plus_server.Regex.dot c_plus_server.Text.is_space c_plus_server.Regex.group_text
    c_plus_server.Text.find c_plus_server.Cleanse.Loops.indentation c_plus_server.Regex.space
    c_plus_server.Regex.non_space
raw_strings = refl

abbrev small_file : CleansedLines
small_file = record {
  elided = codes "a = \"\";" ∷ [];
  lines = codes "a = \"b\";" ∷ [];
  raw_lines = codes "a = \"b\";  // c" ∷ [];
  num_lines = 1;
  lines_without_raw_strings = codes "a = \"b\";  // c" ∷ [];
}

small : cleansed_lines (codes "a = \"b\";  // c" ∷ []) ≡ some small_file
unfolding cleansed_lines cleanse_raw_strings c_plus_server.Cleanse.Loops.cleanse_from
    c_plus_server.Cleanse.Loops.raw_line c_plus_server.Cleanse.Loops.raw_loop
    c_plus_server.Cleanse.Loops.raw_start c_plus_server.Cleanse.Loops.collapse_from
    c_plus_server.Cleanse.Loops.quote_split c_plus_server.Cleanse.Loops.indentation
    c_plus_server.Cleanse.Loops.literal_split c_plus_server.Regex.match_re c_plus_server.Regex.lit
    c_plus_server.Regex.dot c_plus_server.Regex.remove_all c_plus_server.Regex.at_boundary
    c_plus_server.Regex.at_end c_plus_server.Regex.greedy c_plus_server.Regex.group_of
    c_plus_server.Regex.group_text c_plus_server.Regex.is_empty c_plus_server.Regex.is_word
    c_plus_server.Regex.lit_codes c_plus_server.Regex.non_space c_plus_server.Regex.reluctant
    c_plus_server.Regex.remove_from c_plus_server.Regex.run c_plus_server.Regex.search_from
    c_plus_server.Regex.search_re c_plus_server.Regex.space c_plus_server.Regex.step_set
    c_plus_server.Regex.word c_plus_server.Regex.word_at codes c_plus_server.Cleanse.elide
    collapse_strings cleanse_comments is_cpp_string c_plus_server.Cleanse.strip_line_comment
    c_plus_server.Cleanse.Patterns.re_pattern_include
    c_plus_server.Cleanse.Patterns.re_pattern_cleanse_line_escapes
    c_plus_server.Cleanse.Patterns.is_digit c_plus_server.Cleanse.Patterns.is_hex
    c_plus_server.Cleanse.Patterns.re_pattern_c_comments
    c_plus_server.Cleanse.Patterns.re_pattern_cleanse_line_c_comments c_plus_server.Text.count
    c_plus_server.Text.count_from c_plus_server.Text.find c_plus_server.Text.is_space
    c_plus_server.Text.lstrip c_plus_server.Text.replace c_plus_server.Text.replace_from
    c_plus_server.Text.rstrip c_plus_server.Text.starts_with c_plus_server.Text.text_eq
small = refl

collapse_strings-done_example : (t : Text) × (collapse_strings (codes "n = 1'000'x\"';") ≡ done t)
collapse_strings-done_example = collapse_strings-done (codes "n = 1'000'x\"';")

cleanse_comments-slashes_example :
    cleanse_comments (codes "u = \"http://a\";") ≡ codes "u = \"http://a\";"
unfolding codes c_plus_server.Cleanse.Comments.in_string
cleanse_comments-slashes_example =
    cleanse_comments-slashes (codes "u = \"http:") (codes "a\";") refl (λ _. refl)

cleansed_lines-SameLength_example : SameLength 1 small_file
cleansed_lines-SameLength_example =
    cleansed_lines-SameLength (codes "a = \"b\";  // c" ∷ []) small_file small
