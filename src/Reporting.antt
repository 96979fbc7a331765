-- ===== src/Reporting.antt =====
-- What all checks of my_socket/build_support/cpplint.py share: the state behind the function Error,
-- with what has been written so far. `none` is an error that the program raises, or a loop that does
-- not end.
use c_plus_server.Base.{ℕ, Option, none, some, List, [], ◌∷◌, ◌++◌}
use c_plus_server.Text.{Text}
use c_plus_server.Report.{Report}
use c_plus_server.LintState.{LintState, Output, error}
use c_plus_server.Suppressions.{Suppressions, parse_nolint_suppressions}

pub record Sink : Type 0 where
  pub lint : LintState
  pub suppressions : Suppressions
  pub outputs : List Output

infixl 5 ◌>>=◌
abbrev pub ◌>>=◌ : {A B : Type 0} → Option A → (A → Option B) → Option B
none >>= f = none
some a >>= f = f a

unfoldable pub report : Report → Sink → Option Sink
report r s = elim (error s.lint s.suppressions r) [
  | none ↦ none
  | some (lint, written) ↦ some (record s { lint = lint; outputs = s.outputs ++ written })
]

unfoldable pub report_all : List Report → Sink → Option Sink
unfolding report
report_all [] s = some s
report_all (r ∷ rs) s = report r s >>= report_all rs

-- ParseNolintSuppressions(filename, raw_line, linenum, error)
unfoldable pub parse_nolint : Text → ℕ → Sink → Option Sink
unfolding report_all
parse_nolint raw_line linenum s =
    let (suppressions, reports) = parse_nolint_suppressions s.suppressions raw_line linenum in
    report_all reports (record s { suppressions = suppressions })
