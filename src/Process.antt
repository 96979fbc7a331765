-- ===== src/Process.antt =====
-- my_socket/build_support/cpplint.py, how the checks of a file go together: ProcessLine,
-- ProcessFileData and CheckForCopyright. The checks that are not modelled are parameters.
pub mod Namespaces
pub mod State
pub mod Steps
pub mod Returns
pub mod Safe
pub mod Guard
pub mod Whole
pub mod Silent
mod Tests
use c_plus_server.Base.{
  ℕ, zero, suc, ◌+◌, ◌-◌, Bool, true, false, ◌&&◌, not, Option, none, some, List, [], ◌∷◌, ◌++◌,
  if◌then◌else◌, length, take, drop, any, get_or, get_elem?, ltb,
}
use c_plus_server.Text.{Text, codes, lower, has, text_in}
use c_plus_server.Regex.{
  Regex, ◌⊙◌, bol, star, space, lit, alt, group, word_boundary, search_re, match_re, group_text,
}
use c_plus_server.Report.{Report}
use c_plus_server.Reporting.{Sink, report_all, parse_nolint, ◌>>=◌}
use c_plus_server.LintState.{LintState}
use c_plus_server.Suppressions.{reset_nolint_suppressions, process_global_suppressions}
use c_plus_server.MultiLine.{remove_multi_line_comments}
use c_plus_server.Cleanse.{CleansedLines, cleansed_lines}
use c_plus_server.Cleanse.Patterns.{re_pattern_include}
use c_plus_server.Extensions.{is_header_extension, get_non_header_extensions}
use c_plus_server.HeaderGuard.{check_for_header_guard}
use c_plus_server.Includes.{IncludeState, new_include_state, reset_section}
use c_plus_server.IncludeLine.{check_include_line}
use c_plus_server.IncludeLine.Classify.{Setting}
use c_plus_server.FunctionSize.{FunctionState, new_function_state}
use c_plus_server.FunctionLength.{check_for_function_lengths}
use c_plus_server.FileChecks.{
  check_for_multiline_comments_and_strings, check_for_bad_characters, check_for_newline_at_eof,
}
use c_plus_server.LineChecks.{
  check_posix_threading, check_vlog_arguments, check_invalid_increment,
  check_make_pair_uses_deduction, check_redundant_override_or_final,
}
use c_plus_server.LineChecks.Features.{flag_cxx11_features, check_printf}
use c_plus_server.LineChecks.Virtual.{check_redundant_virtual}
use c_plus_server.Nesting.Blocks.{BlockInfo}
use c_plus_server.Nesting.State.{
  NestingState, new_nesting_state, in_asm_block, check_completed_blocks,
}
use c_plus_server.Nesting.Update.{update}
use c_plus_server.Process.Namespaces.{
  should_check_namespace_indentation, check_item_indentation_in_namespace,
}
use c_plus_server.Process.State.{
  Checks, FileState, check_for_namespace_indentation, section_directive, reset_at, language_line,
  check_language, line_checks, last_checks, run_checks,
}

-- From CheckForFunctionLengths on.
unfoldable pub process_code : Setting → Checks → CleansedLines → ℕ → FileState → Option FileState
unfolding check_language run_checks line_checks last_checks
process_code st checks clean_lines line s = do
  (function_state, lengths) ←
      check_for_function_lengths clean_lines.lines s.sink.lint.verbose_level line s.function_state
  measured ← report_all lengths s.sink
  texts ←
      report_all (check_for_multiline_comments_and_strings line (get_or clean_lines.elided line []))
        measured
  styled ← report_all (checks.style clean_lines line s.nesting_state) texts
  (include_state, language) ←
      check_language st checks clean_lines line s.nesting_state s.include_state
  spoken ← report_all language styled
  checked ← run_checks (line_checks checks) clean_lines line s.nesting_state spoken
  virtual ← check_redundant_virtual clean_lines.elided line
  told ← report_all virtual checked
  sink ← run_checks (last_checks checks) clean_lines line s.nesting_state told
  some (record s { include_state = include_state; function_state = function_state; sink = sink })

unfoldable pub process_line : Setting → Checks → CleansedLines → ℕ → FileState → Option FileState
unfolding check_for_namespace_indentation process_code
process_line st checks clean_lines line s = do
  raw_line ← get_elem? clean_lines.raw_lines line
  parsed ← parse_nolint raw_line line s.sink
  (nesting_state, blocks) ← update clean_lines line s.nesting_state
  updated ← report_all blocks parsed
  sink ← report_all (check_for_namespace_indentation checks nesting_state clean_lines line) updated
  (if in_asm_block nesting_state
      then some (record s { nesting_state = nesting_state; sink = sink })
      else process_code st checks clean_lines line
          (record s { nesting_state = nesting_state; sink = sink }))

-- `n` lines from number `line` on, with FlagCxx11Features behind each.
unfoldable pub process_lines :
    ℕ → Setting → Checks → CleansedLines → ℕ → FileState → Option FileState
unfolding process_line
process_lines zero st checks clean_lines line s = some s
process_lines (suc n) st checks clean_lines line s = do
  processed ← process_line st checks clean_lines line s
  sink ← report_all (flag_cxx11_features clean_lines.elided line) processed.sink
  process_lines n st checks clean_lines (line + 1) (record processed { sink = sink })

-- CheckForCopyright; `re.I` on the lines in small letters
unfoldable pub check_for_copyright : List Text → List Report
check_for_copyright lines =
    if any (λ line. has (lower line) (codes "copyright")) (take 10 (drop 1 lines))
    then []
    else record {
      linenum = 0;
      category = codes "legal/copyright";
      confidence = 5;
      message =
          codes "No copyright message found.  You should have a line: "
          ++ codes "\"Copyright [year] <Copyright Owner>\"";
    }
      ∷ []

-- The lines of a file, with a marker in front and behind.
abbrev pub with_markers : List Text → List Text
with_markers lines =
    codes "// marker so line numbers and indices both start at 1"
    ∷ (lines ++ codes "// marker so line numbers end in a known way" ∷ [])

-- What is checked before the lines.
unfoldable pub check_head : Setting → Text → CleansedLines → Sink → Option Sink
check_head st file_extension clean_lines s =
    if is_header_extension st.extensions file_extension
    then check_for_header_guard st.os st.options st.filename clean_lines.lines_without_raw_strings s
    else some s

-- What is checked behind the lines.
unfoldable pub check_tail :
    Setting → Checks → Text → List Text → CleansedLines → FileState → Option Sink
check_tail st checks file_extension lines clean_lines s = do
  completed ← report_all (check_completed_blocks s.nesting_state) s.sink
  used ← report_all (checks.include_what_you_use clean_lines s.include_state) completed
  included ←
      report_all
        (if text_in file_extension (get_non_header_extensions st.extensions)
          then checks.header_file_included s.include_state
          else [])
        used
  characters ← report_all (check_for_bad_characters lines) included
  report_all (check_for_newline_at_eof lines) characters

unfoldable pub process_file_data : Setting → Checks → Text → List Text → LintState → Option Sink
process_file_data st checks file_extension file_lines lint = do
  let lines = with_markers file_lines
  copyright ←
      report_all (check_for_copyright lines)
        (record { lint = lint; suppressions = reset_nolint_suppressions; outputs = [] })
  let global = process_global_suppressions copyright.suppressions lines
  (cleared, comments) ← remove_multi_line_comments lines
  removed ← report_all comments (record copyright { suppressions = global })
  clean_lines ← cleansed_lines cleared
  guarded ← check_head st file_extension clean_lines removed
  processed ← process_lines clean_lines.num_lines st checks clean_lines 0 (record {
    include_state = new_include_state;
    function_state = new_function_state;
    nesting_state = new_nesting_state;
    sink = guarded;
  })
  check_tail st checks file_extension cleared clean_lines processed
