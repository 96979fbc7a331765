-- ===== src/Process/Safe.antt =====
-- Runs of Error that return, for a list of filters with signs: the assertion in _ShouldPrintError holds.
use c_plus_server.Base.{ℕ, Bool, true, false, ◌≡◌, refl, Option, some, List, if◌then◌else◌}
use c_plus_server.Text.{Text}
use c_plus_server.Report.{Report}
use c_plus_server.Suppressions.{parse_nolint_suppressions}
use c_plus_server.Reporting.{Sink, report, report_all, parse_nolint, ◌>>=◌}
use c_plus_server.Process.Steps.{Signed, Reached, Reached-refl, report-Goes, report_all-Reached}

-- Every line.
abbrev pub Any : ℕ → Type 0
Any n = Unit

pub reached : (s : Sink) → Signed s → Reached Any s s
reached s h = Reached-refl Any s h (λ c m e. tt)

-- The run returns, and the filters have signs behind it.
abbrev pub Safe : Option Sink → Type 0
Safe o = (t : Sink) × (o ≡ some t) × Signed t

pub some-Safe : (s : Sink) → Signed s → Safe (some s)
some-Safe s h = (s, refl, h)

pub report_all-Safe : (rs : List Report) (s : Sink) → Signed s → Safe (report_all rs s)
report_all-Safe rs s h =
    let (t, e, r) = report_all-Reached Any s s rs (reached s h) in (t, e, r.signed)

pub report-Safe : (r : Report) (s : Sink) → Signed s → Safe (report r s)
report-Safe r s h =
    let (t, e, g) = report-Goes Any r s h (λ c m e. tt) in (t, e, rw g.same_filters h)

pub parse_nolint-Safe :
    (raw_line : Text) (n : ℕ) (s : Sink) → Signed s → Safe (parse_nolint raw_line n s)
unfolding parse_nolint
parse_nolint-Safe raw_line n s h =
    let (suppressions, reports) = parse_nolint_suppressions s.suppressions raw_line n in
    report_all-Safe reports (record s { suppressions = suppressions }) h

pub bind-Safe :
    (o : Option Sink) (f : Sink → Option Sink)
    → Safe o
    → ((t : Sink) → Signed t → Safe (f t))
    → Safe (o >>= f)
bind-Safe o f (t, e, h) k = rw e (k t h)

pub if-Safe : (b : Bool) (o p : Option Sink) → Safe o → Safe p → Safe (if b then o else p)
if-Safe true o p h k = h
if-Safe false o p h k = k
