-- ===== src/Suppressions/Tests.antt =====
-- Tests of Suppressions.antt, and its theorems at concrete inputs.
use c_plus_server.Base.{◌≡◌, refl, arith, List, [], ◌∷◌, none, some, true, false, ◌||◌, ◌&&◌, any}
use c_plus_server.Text.{Text, codes, text_in}
use c_plus_server.Suppressions.Global.{process_global_suppressions-global}
use c_plus_server.Suppressions.{
  Suppressions, parse_nolint_suppressions, reset_nolint_suppressions, is_error_suppressed_by_nolint,
  nolint_groups, is_c_file, unknown_category, process_global_suppressions,
  default_c_suppressed_categories, default_kernel_suppressed_categories, is_kernel_file,
}
use c_plus_server.Suppressions.Comment.{IsNolint, named}
use c_plus_server.Suppressions.Covers.{
  suppresses, unknown_reports, parse_nolint_suppressions-covers, parse_nolint_suppressions-unknown,
}
use c_plus_server.Suppressions.Effect.{parse_nolint_suppressions-elsewhere}

abbrev good : Text
good = codes "f();  // NOLINTNEXTLINE(build/include)"

abbrev bad : Text
bad = codes "f();  // NOLINT(build/nothing)"

good_groups : nolint_groups good ≡ some ((2, codes "(build/include)") ∷ (1, codes "NEXTLINE") ∷ [])
unfolding nolint_groups c_plus_server.Regex.search_re codes c_plus_server.Regex.lit
good_groups = refl

good_line :
    (parse_nolint_suppressions reset_nolint_suppressions good 7).0.lines
    ≡ (some (codes "build/include"), 8) ∷ []
unfolding parse_nolint_suppressions nolint_groups c_plus_server.Regex.search_re codes
    c_plus_server.Regex.lit c_plus_server.Suppressions.apply_groups c_plus_server.Regex.group_of
    c_plus_server.Suppressions.apply_category c_plus_server.Text.text_eq
    c_plus_server.Text.starts_with c_plus_server.Text.ends_with c_plus_server.Text.text_in
    c_plus_server.Suppressions.error_categories c_plus_server.Suppressions.inside
    c_plus_server.Suppressions.suppress c_plus_server.Suppressions.suppressed_line
good_line = refl

bad_line :
    (parse_nolint_suppressions reset_nolint_suppressions bad 7).1
    ≡ unknown_category (codes "build/nothing") 7 ∷ []
unfolding parse_nolint_suppressions nolint_groups c_plus_server.Regex.search_re codes
    c_plus_server.Regex.lit c_plus_server.Suppressions.apply_groups c_plus_server.Regex.group_of
    c_plus_server.Suppressions.apply_category c_plus_server.Text.text_eq
    c_plus_server.Text.starts_with c_plus_server.Text.ends_with c_plus_server.Text.text_in
    c_plus_server.Suppressions.error_categories c_plus_server.Suppressions.inside
    c_plus_server.Suppressions.legacy_error_categories
bad_line = refl

plain_line : nolint_groups (codes "int NOLINTER;") ≡ none
unfolding nolint_groups c_plus_server.Regex.search_re codes c_plus_server.Regex.lit
plain_line = refl

vim_line : is_c_file (codes "/* vim: sw=2 filetype=c */") ≡ true
unfolding is_c_file c_plus_server.Regex.search_re codes c_plus_server.Regex.lit
    c_plus_server.Regex.space c_plus_server.Regex.dot
vim_line = refl

parse_nolint_suppressions-elsewhere_example :
    is_error_suppressed_by_nolint
      (parse_nolint_suppressions reset_nolint_suppressions good 7).0
      (codes "build/include")
      9
    ≡ is_error_suppressed_by_nolint reset_nolint_suppressions (codes "build/include") 9
parse_nolint_suppressions-elsewhere_example =
    parse_nolint_suppressions-elsewhere reset_nolint_suppressions good 7 (codes "build/include") 9
      (omega arith) (omega arith)

good-IsNolint : IsNolint good (some (true, some (codes "build/include")))
unfolding codes c_plus_server.Regex.word_at
good-IsNolint = named true (codes "f();  // ") b'b' (codes "uild/include") [] (refl, refl) refl

bad-IsNolint : IsNolint bad (some (false, some (codes "build/nothing")))
unfolding codes c_plus_server.Regex.word_at
bad-IsNolint = named false (codes "f();  // ") b'b' (codes "uild/nothing") [] (refl, refl) refl

parse_nolint_suppressions-covers_example :
    is_error_suppressed_by_nolint
      (parse_nolint_suppressions reset_nolint_suppressions good 7).0
      (codes "build/include")
      8
    ≡ (is_error_suppressed_by_nolint reset_nolint_suppressions (codes "build/include") 8
        || suppresses (some (true, some (codes "build/include"))) 7 (codes "build/include") 8)
parse_nolint_suppressions-covers_example =
    parse_nolint_suppressions-covers reset_nolint_suppressions good
      (some (true, some (codes "build/include"))) 7 (codes "build/include") 8 good-IsNolint

parse_nolint_suppressions-unknown_example :
    (parse_nolint_suppressions reset_nolint_suppressions bad 7).1
    ≡ unknown_reports (some (false, some (codes "build/nothing"))) 7
parse_nolint_suppressions-unknown_example =
    parse_nolint_suppressions-unknown reset_nolint_suppressions bad
      (some (false, some (codes "build/nothing"))) 7 bad-IsNolint

abbrev kernel_lines : List Text
kernel_lines = codes "// LINT_KERNEL_FILE" ∷ codes "int x;" ∷ []

process_global_suppressions-global_example :
    text_in
      (codes "whitespace/tab")
      (process_global_suppressions reset_nolint_suppressions kernel_lines).global
    ≡ (text_in (codes "whitespace/tab") []
        || (any is_c_file kernel_lines
            && text_in (codes "whitespace/tab") default_c_suppressed_categories)
        || (any is_kernel_file kernel_lines
            && text_in (codes "whitespace/tab") default_kernel_suppressed_categories))
process_global_suppressions-global_example =
    process_global_suppressions-global reset_nolint_suppressions kernel_lines
      (codes "whitespace/tab")
