-- ===== src/FileChecks/Tests.antt =====
-- Tests of FileChecks.antt, and its theorems at concrete inputs.
use c_plus_server.Base.{◌≡◌, ◌↔◌, refl, some, List, [], ◌∷◌, true, length}
use c_plus_server.Text.{Text, codes, split}
use c_plus_server.FileChecks.{
  check_for_newline_at_eof, check_for_bad_characters, check_for_multiline_comments_and_strings,
  get_previous_non_blank_line,
}
use c_plus_server.FileChecks.Ending.{ends_in_newline, marked, check_for_newline_at_eof-split}
use c_plus_server.FileChecks.Previous.{Nearest, get_previous_non_blank_line-Nearest}

abbrev some_lines : List Text
some_lines = codes "a" ∷ codes " " ∷ [] ∷ codes "b" ∷ []

previous : get_previous_non_blank_line some_lines 3 ≡ (codes "a", some 0)
unfolding get_previous_non_blank_line codes c_plus_server.Text.is_space
previous = refl

one_nul : length (check_for_bad_characters ((b'a' ∷ 0 ∷ []) ∷ [])) ≡ 1
unfolding check_for_bad_characters
one_nul = refl

open_comment : length (check_for_multiline_comments_and_strings 0 (codes "a /* \"")) ≡ 2
unfolding check_for_multiline_comments_and_strings c_plus_server.Text.count
    c_plus_server.Text.replace codes
open_comment = refl

no_newline : length (check_for_newline_at_eof (marked [] [] (split b'\n' (codes "a")))) ≡ 1
unfolding check_for_newline_at_eof split codes
no_newline = refl

check_for_newline_at_eof-split_example :
    (check_for_newline_at_eof (marked [] [] (split b'\n' (b'a' ∷ b'\n' ∷ []))) ≡ [])
    ↔ (ends_in_newline (b'a' ∷ b'\n' ∷ []) ≡ true)
check_for_newline_at_eof-split_example = check_for_newline_at_eof-split [] [] (b'a' ∷ b'\n' ∷ [])

get_previous_non_blank_line-Nearest_example :
    Nearest some_lines 3 (get_previous_non_blank_line some_lines 3)
get_previous_non_blank_line-Nearest_example = get_previous_non_blank_line-Nearest some_lines 3
