-- ===== src/LintState.antt =====
-- my_socket/build_support/cpplint.py, class _CppLintState and the functions _ShouldPrintError and
-- Error: the filters, the verbosity and the error counts.
pub mod Filtering
pub mod Counts
mod Tests
use c_plus_server.Base.{
  ℕ, suc, ◌+◌, Bool, true, false, ◌&&◌, ◌||◌, not, Option, none, some, List, [], ◌∷◌, ◌++◌, ltb,
  if◌then◌else◌, all,
}
use c_plus_server.Text.{Text, codes, text_eq, starts_with, drop_first, split, strip}
use c_plus_server.Report.{Report}
use c_plus_server.Suppressions.{Suppressions, is_error_suppressed_by_nolint}

pub data Counting : Type 0 where
  total toplevel detailed : Counting

pub data OutputFormat : Type 0 where
  emacs eclipse vs7 junit : OutputFormat

-- `verbose_level` is not negative.
pub record LintState : Type 0 where
  pub verbose_level : ℕ
  pub error_count : ℕ
  pub filters : List Text
  pub filters_backup : List Text
  pub counting : Counting
  pub errors_by_category : List (Text × ℕ)
  pub quiet : Bool
  pub output_format : OutputFormat
  pub junit_failures : List Report

abbrev pub default_filters : List Text
default_filters = codes "-build/include_alpha" ∷ []

abbrev pub new_lint_state : LintState
new_lint_state = record {
  verbose_level = 1;
  error_count = 0;
  filters = default_filters;
  filters_backup = default_filters;
  counting = total;
  errors_by_category = [];
  quiet = false;
  output_format = emacs;
  junit_failures = [];
}

unfoldable pub set_output_format : LintState → OutputFormat → LintState
set_output_format s format = record s { output_format = format }

-- The setters that return the setting from before.
unfoldable pub set_quiet : LintState → Bool → LintState × Bool
set_quiet s quiet = (record s { quiet = quiet }, s.quiet)

unfoldable pub set_verbose_level : LintState → ℕ → LintState × ℕ
set_verbose_level s level = (record s { verbose_level = level }, s.verbose_level)

unfoldable pub set_counting_style : LintState → Counting → LintState
set_counting_style s style = record s { counting = style }

unfoldable pub is_nonempty : Text → Bool
is_nonempty [] = false
is_nonempty (c ∷ s) = true

-- The filters of a comma-separated list, without blanks.
unfoldable pub clean_filters : List Text → List Text
clean_filters [] = []
clean_filters (f ∷ fs) =
    let rest = clean_filters fs in if is_nonempty (strip f) then strip f ∷ rest else rest

unfoldable pub has_sign : Text → Bool
has_sign f = starts_with f (codes "+") || starts_with f (codes "-")

-- The filters are added before they are looked at; `false` is the ValueError.
unfoldable pub add_filters : LintState → Text → LintState × Bool
add_filters s filters =
    let all_filters = s.filters ++ clean_filters (split b',' filters) in
    (record s { filters = all_filters }, all has_sign all_filters)

unfoldable pub set_filters : LintState → Text → LintState × Bool
set_filters s filters = add_filters (record s { filters = default_filters }) filters

unfoldable pub backup_filters : LintState → LintState
backup_filters s = record s { filters_backup = s.filters }

unfoldable pub restore_filters : LintState → LintState
restore_filters s = record s { filters = s.filters_backup }

unfoldable pub reset_error_counts : LintState → LintState
reset_error_counts s = record s { error_count = 0; errors_by_category = [] }

-- `errors_by_category[category] += 1`, from 0 if it is new
unfoldable pub bump : Text → List (Text × ℕ) → List (Text × ℕ)
bump category [] = (category, 1) ∷ []
bump category ((c, n) ∷ counts) =
    let rest = bump category counts in
    if text_eq c category then (c, n + 1) ∷ counts else (c, n) ∷ rest

-- `category.split('/')[0]`
unfoldable pub top_level : Text → Text
top_level category = elim (split b'/' category) [ [] ↦ [] | w ∷ ws ↦ w ]

unfoldable pub counted : Counting → Text → List (Text × ℕ) → List (Text × ℕ)
counted total category counts = counts
counted toplevel category counts = bump (top_level category) counts
counted detailed category counts = bump category counts

unfoldable pub increment_error_count : LintState → Text → LintState
increment_error_count s category = record s {
  error_count = s.error_count + 1;
  errors_by_category = counted s.counting category s.errors_by_category;
}

-- The loop over the filters; `none` is the failing assertion.
unfoldable pub is_filtered : Bool → List Text → Text → Option Bool
is_filtered filtered [] category = some filtered
is_filtered filtered (f ∷ fs) category =
    let minus = is_filtered (starts_with category (drop_first f) || filtered) fs category in
    let plus = is_filtered (not (starts_with category (drop_first f)) && filtered) fs category in
    if starts_with f (codes "-") then minus else if starts_with f (codes "+") then plus else none

unfoldable pub should_print_error : LintState → Suppressions → Text → ℕ → ℕ → Option Bool
should_print_error s suppressions category confidence linenum =
    if is_error_suppressed_by_nolint suppressions category linenum
    then some false
    else if ltb confidence s.verbose_level
    then some false
    else elim (is_filtered false s.filters category) [ none ↦ none | some b ↦ some (not b) ]

-- What is written, and in which format; the JUnit output is only collected.
pub record Output : Type 0 where
  pub format : OutputFormat
  pub report : Report

unfoldable pub written_as : OutputFormat → LintState → Report → LintState × List Output
written_as junit s r = (record s { junit_failures = s.junit_failures ++ r ∷ [] }, [])
written_as format s r = (s, record { format = format; report = r } ∷ [])

unfoldable pub error : LintState → Suppressions → Report → Option (LintState × List Output)
error s suppressions r =
    elim (should_print_error s suppressions r.category r.confidence r.linenum) [
      | none ↦ none
      | some false ↦ some (s, [])
      | some true ↦ some (written_as s.output_format (increment_error_count s r.category) r)
    ]
