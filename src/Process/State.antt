-- ===== src/Process/State.antt =====
-- The checks of a line, what is kept between them, and CheckForNamespaceIndentation and the beginning
-- of CheckLanguage.
use c_plus_server.Base.{
  ℕ, ◌-◌, Bool, Option, none, some, List, [], ◌∷◌, ◌++◌, if◌then◌else◌, get_or,
}
use c_plus_server.Text.{Text}
use c_plus_server.Regex.{
  Regex, ◌⊙◌, bol, star, space, lit, alt, group, word_boundary, search_re, match_re, group_text,
}
use c_plus_server.Report.{Report}
use c_plus_server.Reporting.{Sink, report_all, ◌>>=◌}
use c_plus_server.Cleanse.{CleansedLines}
use c_plus_server.Cleanse.Patterns.{re_pattern_include}
use c_plus_server.Includes.{IncludeState, reset_section}
use c_plus_server.IncludeLine.{check_include_line}
use c_plus_server.IncludeLine.Classify.{Setting}
use c_plus_server.FunctionSize.{FunctionState}
use c_plus_server.LineChecks.Constructs.{check_for_non_standard_constructs}
use c_plus_server.LineChecks.{
  check_posix_threading, check_vlog_arguments, check_invalid_increment,
  check_make_pair_uses_deduction, check_redundant_override_or_final,
}
use c_plus_server.LineChecks.Features.{check_printf}
use c_plus_server.Nesting.State.{NestingState}
use c_plus_server.Process.Namespaces.{
  should_check_namespace_indentation, check_item_indentation_in_namespace,
}

-- The checks that are not modelled, as the errors they report. `indent_item` is the test of
-- CheckForNamespaceIndentation, which compares blocks by identity; `casts` are CheckCasts and
-- CheckGlobalStatic, `language` is CheckLanguage behind CheckPrintf,
-- `constructors` CheckForNonStandardConstructs from its tests on classes on; `extra` are the extra checks of ProcessLine.
-- The check for redundant semicolons also parses the NOLINT comments of the lines at the end of the
-- block it reports on: these suppressions are left out.
pub record Checks : Type 0 where
  pub indent_item : NestingState → Bool
  pub style : CleansedLines → ℕ → NestingState → List Report
  pub casts : CleansedLines → ℕ → List Report
  pub language : CleansedLines → ℕ → NestingState → List Report
  pub non_const_reference : CleansedLines → ℕ → NestingState → List Report
  pub constructors : CleansedLines → ℕ → NestingState → List Report
  pub extra : List (CleansedLines → ℕ → NestingState → List Report)
  pub include_what_you_use : CleansedLines → IncludeState → List Report
  pub header_file_included : IncludeState → List Report

-- What the checks of a file remember from line to line.
pub record FileState : Type 0 where
  pub include_state : IncludeState
  pub function_state : FunctionState
  pub nesting_state : NestingState
  pub sink : Sink

-- CheckForNamespaceIndentation
unfoldable pub check_for_namespace_indentation :
    Checks → NestingState → CleansedLines → ℕ → List Report
unfolding should_check_namespace_indentation check_item_indentation_in_namespace
check_for_namespace_indentation checks nesting_state clean_lines line =
    if should_check_namespace_indentation nesting_state.nesting.stack
      (checks.indent_item nesting_state) clean_lines.elided line
    then check_item_indentation_in_namespace clean_lines.elided line
    else []

-- r'^\s*#\s*(if|ifdef|ifndef|elif|else|endif)\b'
abbrev pub section_directive : Regex
section_directive =
    bol
    ⊙ star space
    ⊙ lit "#"
    ⊙ star space
    ⊙ group 1 (
        alt (lit "if") (
          alt (lit "ifdef")
            (alt (lit "ifndef") (alt (lit "elif") (alt (lit "else") (lit "endif"))))))
    ⊙ word_boundary

-- The include state behind a line that is no #include.
unfoldable pub reset_at : Text → IncludeState → IncludeState
unfolding group_text reset_section
reset_at line s = elim (match_re section_directive line) [
  | none ↦ s
  | some m ↦ reset_section s (group_text 1 m.groups)
]

-- CheckLanguage on a line that is not empty.
unfoldable pub language_line :
    Setting
    → Checks
    → CleansedLines
    → ℕ
    → NestingState
    → Text
    → IncludeState
    → Option (IncludeState × List Report)
unfolding reset_at
language_line st checks clean_lines linenum nesting line s =
    elim (search_re re_pattern_include line) [
      | some m ↦
          check_include_line st (get_or clean_lines.lines linenum [])
            (get_or clean_lines.elided (linenum - 1) []) linenum s
      | none ↦ some (
        reset_at line s,
        checks.casts clean_lines linenum
            ++ check_printf clean_lines.elided linenum
            ++ checks.language clean_lines linenum nesting,
      )
    ]

unfoldable pub check_language :
    Setting
    → Checks
    → CleansedLines
    → ℕ
    → NestingState
    → IncludeState
    → Option (IncludeState × List Report)
unfolding language_line
check_language st checks clean_lines linenum nesting s =
    elim (get_or clean_lines.elided linenum []) [
      | [] ↦ some (s, [])
      | c ∷ line ↦ language_line st checks clean_lines linenum nesting (c ∷ line) s
    ]

-- The checks behind CheckLanguage, up to CheckMakePairUsesDeduction.
unfoldable pub line_checks : Checks → List (CleansedLines → ℕ → NestingState → List Report)
line_checks checks =
    checks.non_const_reference
    ∷ (λ c n nesting.
        check_for_non_standard_constructs c.lines c.elided n ++ checks.constructors c n nesting)
    ∷ (λ c n nesting. check_vlog_arguments c.elided n)
    ∷ (λ c n nesting. check_posix_threading c.elided n)
    ∷ (λ c n nesting. check_invalid_increment c.elided n)
    ∷ (λ c n nesting. check_make_pair_uses_deduction c.elided n)
    ∷ []

-- The checks behind CheckRedundantVirtual.
unfoldable pub last_checks : Checks → List (CleansedLines → ℕ → NestingState → List Report)
last_checks checks = (λ c n nesting. check_redundant_override_or_final c.elided n) ∷ checks.extra

-- The checks of a list, one after the other.
unfoldable pub run_checks :
    List (CleansedLines → ℕ → NestingState → List Report)
    → CleansedLines
    → ℕ
    → NestingState
    → Sink
    → Option Sink
unfolding report_all
run_checks [] clean_lines linenum nesting s = some s
run_checks (f ∷ fs) clean_lines linenum nesting s =
    report_all (f clean_lines linenum nesting) s >>= run_checks fs clean_lines linenum nesting
