-- ===== src/HeaderGuard/Tests.antt =====
-- Tests of HeaderGuard.antt, and its theorem at a concrete input.
use c_plus_server.Base.{◌≡◌, refl, ◌||◌, any, some, List, [], ◌∷◌, if◌then◌else◌}
use c_plus_server.Text.{Text, codes, words, words_from, is_space, text_eq, starts_with}
use c_plus_server.Regex.{searches}
use c_plus_server.LintState.{new_lint_state}
use c_plus_server.Suppressions.{reset_nolint_suppressions}
use c_plus_server.Reporting.{Sink, parse_nolint}
use c_plus_server.FileNames.Sample.{posix, in_src, guard}
use c_plus_server.HeaderGuard.{
  nolint_guard, pragma_once, check_for_header_guard, scan_guards, with_words, with_ifndef,
  with_define, with_endif, no_guard,
}
use c_plus_server.HeaderGuard.Matching.{endif_line}
use c_plus_server.HeaderGuard.Scan.{guarded, endif_position}
use c_plus_server.HeaderGuard.Proper.{check_for_header_guard-proper}

abbrev sink : Sink
sink = record { lint = new_lint_state; suppressions = reset_nolint_suppressions; outputs = [] }

abbrev pre : List Text
pre = codes "// Copyright" ∷ []

abbrev body : List Text
body = codes "int a;" ∷ codes "#endif" ∷ []

abbrev post : List Text
post = [] ∷ []

found : scan_guards 0 (guarded (codes "A_H_") pre body post) no_guard ≡ record {
  ifndef = codes "A_H_";
  ifndef_linenum = 1;
  define = codes "A_H_";
  endif = codes "#endif  // A_H_";
  endif_linenum = 5;
}
unfolding scan_guards with_words with_ifndef with_define with_endif words words_from is_space
    text_eq starts_with codes
found = refl

check_for_header_guard-proper_example :
    check_for_header_guard posix in_src
      (codes "src/my-a.h")
      (guarded (codes "MY_A_H_") pre body post)
      sink
    ≡ (if any (searches nolint_guard) (guarded (codes "MY_A_H_") pre body post)
          || any (searches pragma_once) (guarded (codes "MY_A_H_") pre body post)
        then some sink
        else parse_nolint (endif_line (codes "MY_A_H_")) (endif_position pre body) sink)
unfolding words words_from is_space text_eq starts_with codes
check_for_header_guard-proper_example =
    check_for_header_guard-proper posix in_src (codes "src/my-a.h") (codes "MY_A_H_") pre body post
      sink guard ((refl, refl), tt) (refl, tt)
