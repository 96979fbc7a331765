-- ===== src/LintState/Tests.antt =====
-- Tests of LintState.antt, and its theorems at concrete inputs.
use c_plus_server.Base.{
  ℕ, ◌+◌, ◌≡◌, ◌≢◌, refl, List, [], ◌∷◌, ◌++◌, none, some, false, if◌then◌else◌,
}
use c_plus_server.Text.{Text, codes, starts_with, drop_first}
use c_plus_server.Report.{Report}
use c_plus_server.Suppressions.{reset_nolint_suppressions}
use c_plus_server.LintState.{
  LintState, new_lint_state, detailed, toplevel, total, add_filters, has_sign, is_filtered,
  should_print_error, error, set_counting_style, default_filters, Output, emacs,
}
use c_plus_server.LintState.Filtering.{is_filtered-last, should_print_error-add_filters}
use c_plus_server.LintState.Counts.{
  run_errors, count_of, total_of, occurrences, run_errors-count_of, run_errors-total_of,
}

abbrev report : Text → ℕ → Report
report category confidence = record {
  linenum = 4;
  category = category;
  confidence = confidence;
  message = codes "m";
}

abbrev some_reports : List Report
some_reports =
    report (codes "build/include") 4
    ∷ report (codes "build/include_alpha") 4
    ∷ report (codes "build/class") 0
    ∷ report (codes "build/include") 5
    ∷ []

abbrev detailed_state : LintState
detailed_state = record new_lint_state { counting = detailed }

abbrev after_reports : LintState
after_reports = record detailed_state {
  error_count = 2;
  errors_by_category = (codes "build/include", 2) ∷ [];
}

abbrev outputs : List Output
outputs =
    record { format = emacs; report = report (codes "build/include") 4 }
    ∷ record { format = emacs; report = report (codes "build/include") 5 }
    ∷ []

-- One is filtered out, and one is below the verbosity.
ran :
    run_errors detailed_state reset_nolint_suppressions some_reports ≡ some (after_reports, outputs)
unfolding run_errors error should_print_error
    c_plus_server.Suppressions.is_error_suppressed_by_nolint c_plus_server.Text.text_in
    c_plus_server.Suppressions.listed is_filtered starts_with codes drop_first
    c_plus_server.LintState.written_as c_plus_server.LintState.increment_error_count
    c_plus_server.LintState.counted c_plus_server.LintState.bump
ran = refl

blanks :
    (add_filters new_lint_state (codes " +build , ,-build/class")).0.filters
    ≡ default_filters ++ codes "+build" ∷ codes "-build/class" ∷ []
unfolding add_filters c_plus_server.LintState.clean_filters c_plus_server.Text.split codes
    c_plus_server.LintState.is_nonempty c_plus_server.Text.strip
blanks = refl

no_sign : (add_filters new_lint_state (codes "-,+whitespace,whitespace")).1 ≡ false
unfolding add_filters has_sign starts_with codes c_plus_server.LintState.clean_filters
    c_plus_server.Text.split c_plus_server.LintState.is_nonempty c_plus_server.Text.strip
no_sign = refl

is_filtered-last_example :
    is_filtered false (default_filters ++ codes "+build" ∷ []) (codes "build/include_alpha")
    ≡ (elim (is_filtered false default_filters (codes "build/include_alpha")) [
      | none ↦ none
      | some x ↦ some (
          if starts_with (codes "build/include_alpha") (drop_first (codes "+build"))
          then starts_with (codes "+build") (codes "-")
          else x)
    ])
unfolding has_sign starts_with codes
is_filtered-last_example =
    is_filtered-last false default_filters (codes "+build") (codes "build/include_alpha") refl

should_print_error-add_filters_example :
    should_print_error
      (add_filters new_lint_state (codes "-build")).0
      reset_nolint_suppressions
      (codes "build/class")
      3
      1
    ≢ none
unfolding add_filters has_sign starts_with codes c_plus_server.LintState.clean_filters
    c_plus_server.Text.split c_plus_server.LintState.is_nonempty c_plus_server.Text.strip
should_print_error-add_filters_example =
    should_print_error-add_filters new_lint_state (codes "-build") reset_nolint_suppressions
      (codes "build/class") 3 1 refl

run_errors-count_of_example :
    count_of (codes "build/include") after_reports.errors_by_category
    ≡ occurrences detailed_state reset_nolint_suppressions (codes "build/include") some_reports
      + count_of (codes "build/include") []
run_errors-count_of_example =
    run_errors-count_of detailed_state reset_nolint_suppressions some_reports after_reports outputs
      (codes "build/include") ran

run_errors-total_of_example : total_of after_reports.errors_by_category + 0 ≡ total_of [] + 2
run_errors-total_of_example =
    run_errors-total_of detailed_state reset_nolint_suppressions some_reports after_reports outputs
      (λ e. cc) ran
