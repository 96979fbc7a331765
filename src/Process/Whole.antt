-- ===== src/Process/Whole.antt =====
-- ProcessFileData returns.
use c_plus_server.Base.{
  ℕ, zero, suc, ◌+◌, ◌<◌, ◌≤◌, true, ◌≡◌, refl, Option, some, List, [], all, arith, length,
  get_elem?-some,
}
use c_plus_server.Text.{Text}
use c_plus_server.LintState.{LintState, has_sign}
use c_plus_server.Suppressions.{parse_nolint_suppressions, reset_nolint_suppressions}
use c_plus_server.Reporting.{Sink, parse_nolint, ◌>>=◌}
use c_plus_server.MultiLine.Clearing.{remove_multi_line_comments-Cleaned}
use c_plus_server.Cleanse.{CleansedLines, cleansed_lines}
use c_plus_server.Cleanse.Returns.{cleansed_lines-some}
use c_plus_server.Cleanse.Lines.{SameLength, cleansed_lines-SameLength}
use c_plus_server.Extensions.{is_header_extension}
use c_plus_server.FileNames.Search.{Shortens, TopIsPlain}
use c_plus_server.IncludeLine.Classify.{Setting}
use c_plus_server.LineChecks.Features.{flag_cxx11_features}
use c_plus_server.FileChecks.{check_for_bad_characters, check_for_newline_at_eof}
use c_plus_server.Includes.{new_include_state}
use c_plus_server.FunctionSize.{new_function_state}
use c_plus_server.Nesting.State.{new_nesting_state, check_completed_blocks}
use c_plus_server.Process.{
  process_line, process_lines, check_for_copyright, with_markers, check_head, check_tail,
  process_file_data,
}
use c_plus_server.Process.State.{Checks, FileState}
use c_plus_server.Process.Steps.{Signed}
use c_plus_server.Process.Returns.{process_line-Ends}
use c_plus_server.Process.Safe.{Any, reached, Safe, some-Safe, report_all-Safe, bind-Safe, if-Safe}
use c_plus_server.Process.Guard.{check_for_header_guard-Safe}

-- The checks of a line return, and the filters have signs behind them.
abbrev SafeState : Option FileState → Type 0
SafeState o = (t : FileState) × (o ≡ some t) × Signed t.sink

module _ (st : Setting) (checks : Checks) (short : Shortens st.os) (top : TopIsPlain st.os) where
  module _ (c : CleansedLines) (size : ℕ) (same : SameLength size c) where
    process_line-Safe :
        (n : ℕ) (s : FileState)
        → n < size
        → Signed s.sink
        → SafeState (process_line st checks c n s)
    unfolding parse_nolint
    process_line-Safe n s h k =
        let (raw_line, e) = get_elem?-some n c.raw_lines (omega (arith, same.raw_length)) in
        let (suppressions, reports) = parse_nolint_suppressions s.sink.suppressions raw_line n in
        let t : Sink = record s.sink { suppressions = suppressions } in
        let (u, f, r) = report_all-Safe reports t k in
        let (v, g, q) =
          process_line-Ends st checks c Any n u s short top (omega (arith, same.lines_length))
            raw_line u e (omega (arith, same.elided_length)) f (reached u r) in
        (v, g, q.signed)

    process_lines-Safe :
        (k n : ℕ) (s : FileState)
        → n + k ≤ size
        → Signed s.sink
        → SafeState (process_lines k st checks c n s)
    unfolding process_lines
    process_lines-Safe zero n s h g = (s, refl, g)
    process_lines-Safe (suc k) n s h g =
        let (t, e, i) = process_line-Safe n s (omega arith) g in
        let (u, f, j) = report_all-Safe (flag_cxx11_features c.elided n) t.sink i in
        let (v, d, q) = process_lines-Safe k (n + 1) (record t { sink = u }) (omega arith) j in
        (v, rw (process_lines, e, f) d, q)

  check_head-Safe :
      (ext : Text) (c : CleansedLines) (s : Sink) → Signed s → Safe (check_head st ext c s)
  unfolding check_head
  check_head-Safe ext c s h =
      if-Safe (is_header_extension st.extensions ext) _ _
        (check_for_header_guard-Safe st.os st.options st.filename c.lines_without_raw_strings s
          short top h)
        (some-Safe s h)

check_tail-Safe :
    (st : Setting) (checks : Checks) (ext : Text) (lines : List Text) (c : CleansedLines)
    (s : FileState)
    → Signed s.sink
    → Safe (check_tail st checks ext lines c s)
unfolding check_tail
check_tail-Safe st checks ext lines c s h =
    bind-Safe _ _ (report_all-Safe (check_completed_blocks s.nesting_state) s.sink h) (λ t i.
      bind-Safe _ _ (report_all-Safe (checks.include_what_you_use c s.include_state) t i) (λ u j.
        bind-Safe _ _ (report_all-Safe _ u j) (λ v k.
          bind-Safe _ _ (report_all-Safe (check_for_bad_characters lines) v k)
            (report_all-Safe (check_for_newline_at_eof lines)))))

-- From CheckForHeaderGuard on.
from_head-Safe :
    (st : Setting) (checks : Checks) (ext : Text) (cleared : List Text) (c : CleansedLines)
    (s : Sink)
    → Shortens st.os
    → TopIsPlain st.os
    → cleansed_lines cleared ≡ some c
    → Signed s
    → Safe (
        check_head st ext c s >>= (λ guarded.
          process_lines c.num_lines st checks c 0 (record {
            include_state = new_include_state;
            function_state = new_function_state;
            nesting_state = new_nesting_state;
            sink = guarded;
          })
          >>= check_tail st checks ext cleared c))
from_head-Safe st checks ext cleared c s short top f h =
    let same = cleansed_lines-SameLength cleared c f in
    bind-Safe _ _ (check_head-Safe st checks short top ext c s h) (λ guarded i.
      let (t, e, j) =
        process_lines-Safe st checks short top c (length cleared) same c.num_lines 0
          (record {
            include_state = new_include_state;
            function_state = new_function_state;
            nesting_state = new_nesting_state;
            sink = guarded;
          })
          (omega (arith, same.num_length)) i in
      rw e (check_tail-Safe st checks ext cleared c t j))

-- If os.path shortens paths, no directory without a parent is the top of an SVN checkout and every
-- filter has a sign, ProcessFileData comes to an end and raises no error on every list of lines, as
-- long as the checks that are not modelled do, whatever they report.
pub process_file_data-returns :
    (st : Setting) (checks : Checks) (file_extension : Text) (file_lines : List Text)
    (lint : LintState)
    → Shortens st.os
    → TopIsPlain st.os
    → all has_sign lint.filters ≡ true
    → (t : Sink) × (process_file_data st checks file_extension file_lines lint ≡ some t)
unfolding process_file_data
process_file_data-returns st checks ext file_lines lint short top h =
    let (cleared, comments, e, _) = remove_multi_line_comments-Cleaned (with_markers file_lines) in
    let (c, f) = cleansed_lines-some cleared in
    let (t, g, _) =
      bind-Safe _ _
        (report_all-Safe (check_for_copyright (with_markers file_lines))
          (record { lint = lint; suppressions = reset_nolint_suppressions; outputs = [] }) h)
        (λ copyright i. rw e (
          bind-Safe _ _ (report_all-Safe comments _ i)
            (λ removed j. rw f (from_head-Safe st checks ext cleared c removed short top f j)))) in
    (t, g)
