-- ===== src/Process/Tests.antt =====
-- Tests of Process.antt with small checks, and its theorems at concrete inputs.
use c_plus_server.Base.{ℕ, ◌≡◌, ◌≢◌, refl, true, false, some, List, [], ◌∷◌, ◌++◌, all, arith}
use c_plus_server.Text.{Text, codes}
use c_plus_server.Report.{Report}
use c_plus_server.Regex.{run, search_re, lit, space, group_of}
use c_plus_server.Suppressions.{nolint_groups, reset_nolint_suppressions}
use c_plus_server.LintState.{new_lint_state, Output, has_sign}
use c_plus_server.Reporting.{Sink}
use c_plus_server.Cleanse.{CleansedLines}
use c_plus_server.FileNames.Sample.{posix, posix-Shortens, posix-TopIsPlain, no_options}
use c_plus_server.IncludeLine.Classify.{Setting}
use c_plus_server.Includes.{new_include_state}
use c_plus_server.FunctionSize.{new_function_state}
use c_plus_server.Nesting.State.{new_nesting_state}
use c_plus_server.Process.{process_line, process_file_data, check_for_copyright, with_markers}
use c_plus_server.Process.State.{Checks, FileState}
use c_plus_server.Process.Steps.{AllOn}
use c_plus_server.Process.Silent.{Blanket, process_line-Blanket}
use c_plus_server.Process.Whole.{process_file_data-returns}

abbrev setting : Setting
setting = record {
  os = posix;
  options = no_options;
  extensions = record { hpp_headers = []; valid_extensions = [] };
  filename = codes "src/my-a.h";
}

abbrev spacing : ℕ → Report
spacing linenum = record {
  linenum = linenum;
  category = codes "whitespace/tab";
  confidence = 1;
  message = codes "Tab found; better to use spaces";
}

-- A check of the style that finds something on every line.
abbrev checks : Checks
checks = record {
  indent_item = λ s. false;
  style = λ c n s. spacing n ∷ [];
  casts = λ c n. [];
  language = λ c n s. [];
  non_const_reference = λ c n s. spacing n ∷ [];
  constructors = λ c n s. [];
  extra = [];
  include_what_you_use = λ c s. [];
  header_file_included = λ s. [];
}

abbrev marked_lines : CleansedLines
marked_lines = record {
  elided = [] ∷ codes "int a;" ∷ [] ∷ [];
  lines = [] ∷ codes "int a;" ∷ [] ∷ [];
  raw_lines = [] ∷ codes "int a;  // NOLINT" ∷ [] ∷ [];
  num_lines = 3;
  lines_without_raw_strings = [] ∷ codes "int a;  // NOLINT" ∷ [] ∷ [];
}

abbrev file_state : FileState
file_state = record {
  include_state = new_include_state;
  function_state = new_function_state;
  nesting_state = new_nesting_state;
  sink = record { lint = new_lint_state; suppressions = reset_nolint_suppressions; outputs = [] };
}

groups_there : nolint_groups (codes "int a;  // NOLINT") ≡ some []
unfolding nolint_groups search_re run lit space codes
groups_there = refl

no_copyright : (check_for_copyright (with_markers (codes "// Copyright 2020" ∷ []))) ≡ []
unfolding check_for_copyright c_plus_server.Text.lower codes c_plus_server.Text.find
no_copyright = refl

blanket : Blanket (codes "int a;  // NOLINT")
unfolding group_of
blanket = ([], groups_there, refl, refl)

signs : all has_sign new_lint_state.filters ≡ true
unfolding has_sign codes c_plus_server.Text.starts_with
signs = refl

process_line-Blanket_example :
    (t : FileState) × (process_line setting checks marked_lines 1 file_state ≡ some t)
    × (extra : List Output) × (t.sink.outputs ≡ [] ++ extra)
    × AllOn (λ m. m ≢ 1) extra
process_line-Blanket_example =
    process_line-Blanket setting checks marked_lines 1 file_state (codes "int a;  // NOLINT")
      posix-Shortens posix-TopIsPlain refl (omega arith) (omega arith) signs blanket

process_file_data-returns_example :
    (t : Sink) × (process_file_data setting checks
        (codes "h")
        (codes "int f() {" ∷ codes "  s = \"a; // NOLINT(" ∷ codes "#if 1'0 /* x" ∷ [])
        new_lint_state
      ≡ some t)
process_file_data-returns_example =
    process_file_data-returns setting checks (codes "h")
      (codes "int f() {" ∷ codes "  s = \"a; // NOLINT(" ∷ codes "#if 1'0 /* x" ∷ []) new_lint_state
      posix-Shortens posix-TopIsPlain signs
