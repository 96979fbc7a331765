-- ===== src/LineChecks.antt =====
-- my_socket/build_support/cpplint.py, checks of a single line: CheckPosixThreading,
-- CheckVlogArguments, CheckInvalidIncrement, CheckMakePairUsesDeduction and
-- CheckRedundantOverrideOrFinal.
pub mod Features
pub mod Virtual
pub mod Constructs
pub mod Inside
mod Tests
use c_plus_server.Base.{
  ℕ, ◌-◌, Bool, true, false, ◌&&◌, ◌||◌, not, Option, none, some, List, [], ◌∷◌, ◌++◌, ◌==◌,
  if◌then◌else◌, get_or, ltb,
}
use c_plus_server.Text.{Text, codes, text_eq, text_in, starts_with}
use c_plus_server.Regex.{
  Regex, ◌⊙◌, bol, alt, set, star, plus, opt, group, lit, lit_codes, space, word, word_boundary,
  any_of, none_of, matches, searches, match_re, search_re, group_text,
}
use c_plus_server.Report.{Report}
use c_plus_server.Cleanse.Patterns.{is_digit}

abbrev pub line_report : ℕ → Text → ℕ → Text → Report
line_report linenum category confidence message = record {
  linenum = linenum;
  category = category;
  confidence = confidence;
  message = message;
}

-- r'(?:[-+*/=%^&|(<]\s*|>\s+)'
abbrev unsafe_func_prefix : Regex
unsafe_func_prefix =
    alt
      (any_of (b'-' ∷ b'+' ∷ b'*' ∷ b'/' ∷ b'=' ∷ b'%' ∷ b'^' ∷ b'&' ∷ b'|' ∷ b'(' ∷ b'<' ∷ [])
        ⊙ star space)
      (lit ">" ⊙ plus space)

-- An entry of _THREADING_LIST without the `(` of its names: the name, and whether the call that the
-- pattern looks for has arguments.
pub record ThreadingEntry : Type 0 where
  pub name : Text
  pub arguments : Bool

abbrev threading_list : List ThreadingEntry
threading_list =
    record { name = codes "asctime"; arguments = true }
    ∷ record { name = codes "ctime"; arguments = true }
    ∷ record { name = codes "getgrgid"; arguments = true }
    ∷ record { name = codes "getgrnam"; arguments = true }
    ∷ record { name = codes "getlogin"; arguments = false }
    ∷ record { name = codes "getpwnam"; arguments = true }
    ∷ record { name = codes "getpwuid"; arguments = true }
    ∷ record { name = codes "gmtime"; arguments = true }
    ∷ record { name = codes "localtime"; arguments = true }
    ∷ record { name = codes "rand"; arguments = false }
    ∷ record { name = codes "strtok"; arguments = true }
    ∷ record { name = codes "ttyname"; arguments = true }
    ∷ []

unfoldable pub call_pattern : ThreadingEntry → Regex
call_pattern entry =
    unsafe_func_prefix
    ⊙ lit_codes entry.name
    ⊙ (if entry.arguments then lit "(" ⊙ plus (none_of (b')' ∷ [])) ⊙ lit ")" else lit "()")

unfoldable pub threading_reports : ℕ → Text → List ThreadingEntry → List Report
unfolding call_pattern
threading_reports linenum line [] = []
threading_reports linenum line (entry ∷ entries) =
    let more = threading_reports linenum line entries in
    if searches (call_pattern entry) line
    then line_report linenum (codes "runtime/threadsafe_fn") 2 (
        codes "Consider using "
        ++ (entry.name
            ++ (codes "_r("
                ++ (codes "...) instead of "
                    ++ (entry.name ++ (codes "(" ++ codes "...) for improved thread safety."))))))
      ∷ more
    else more

unfoldable pub check_posix_threading : List Text → ℕ → List Report
unfolding threading_reports
check_posix_threading elided linenum =
    threading_reports linenum (get_or elided linenum []) threading_list

-- r'\bVLOG\((INFO|ERROR|WARNING|DFATAL|FATAL)\)'
abbrev symbolic_vlog : Regex
symbolic_vlog =
    word_boundary
    ⊙ lit "VLOG("
    ⊙ group 1 (
        alt (lit "INFO")
          (alt (lit "ERROR") (alt (lit "WARNING") (alt (lit "DFATAL") (lit "FATAL")))))
    ⊙ lit ")"

unfoldable pub check_vlog_arguments : List Text → ℕ → List Report
check_vlog_arguments elided linenum =
    if searches symbolic_vlog (get_or elided linenum [])
    then line_report linenum (codes "runtime/vlog") 5 (
        codes "VLOG() should be used with numeric verbosity level.  "
        ++ codes "Use LOG() if you want symbolic severity levels.")
      ∷ []
    else []

-- r'^\s*\*\w+(\+\+|--);'
abbrev re_pattern_invalid_increment : Regex
re_pattern_invalid_increment =
    bol ⊙ star space ⊙ lit "*" ⊙ plus word ⊙ group 1 (alt (lit "++") (lit "--")) ⊙ lit ";"

unfoldable pub check_invalid_increment : List Text → ℕ → List Report
check_invalid_increment elided linenum =
    if matches re_pattern_invalid_increment (get_or elided linenum [])
    then line_report linenum (codes "runtime/invalid_increment") 5
        (codes "Changing pointer instead of value (or unused value of operator*).")
      ∷ []
    else []

-- r'\bmake_pair\s*<'
abbrev re_pattern_explicit_makepair : Regex
re_pattern_explicit_makepair = word_boundary ⊙ lit "make_pair" ⊙ star space ⊙ lit "<"

unfoldable pub check_make_pair_uses_deduction : List Text → ℕ → List Report
check_make_pair_uses_deduction elided linenum =
    if searches re_pattern_explicit_makepair (get_or elided linenum [])
    then line_report linenum (codes "build/explicit_make_pair") 4 (
        codes "For C++11-compatibility, omit template arguments from make_pair"
        ++ codes " OR use pair directly OR if appropriate, construct a pair directly")
      ∷ []
    else []

-- `s[s.rfind(c):]`; `none` where rfind returns -1
unfoldable pub from_last : ℕ → Text → Option Text
from_last c [] = none
from_last c (x ∷ s) = elim (from_last c s) [
  | some t ↦ some t
  | none ↦ if x == c then some (x ∷ s) else none
]

-- Where CheckRedundantOverrideOrFinal looks: `fragment`, or `none` at its `return`.
unfoldable pub declarator_fragment : List Text → ℕ → Option Text
unfolding from_last
declarator_fragment elided linenum = elim (from_last b')' (get_or elided linenum [])) [
  | some fragment ↦ some fragment
  | none ↦
      if ltb 1 linenum
      then elim (from_last b')' (get_or elided (linenum - 1) [])) [
        | some rest ↦ some (get_or elided linenum [])
        | none ↦ none
      ]
      else none
]

unfoldable pub check_redundant_override_or_final : List Text → ℕ → List Report
unfolding declarator_fragment
check_redundant_override_or_final elided linenum = elim (declarator_fragment elided linenum) [
  | none ↦ []
  | some fragment ↦
      if searches (word_boundary ⊙ lit "override" ⊙ word_boundary) fragment
        && searches (word_boundary ⊙ lit "final" ⊙ word_boundary) fragment
      then line_report linenum (codes "readability/inheritance") 4 (
          codes "\"override\" is redundant since function is "
          ++ codes "already declared as \"final\"")
        ∷ []
      else []
]
