-- ===== src/Process/Steps.antt =====
-- What a run of Error writes while a line is silenced.
use mathlib.Core.List.{append_assoc, append-nil}
use c_plus_server.Base.{
  ℕ, Bool-cases, Option-cases, true, false, ◌≡◌, ◌≢◌, refl, sym, ap, ◌∙◌, inl, inr, none, some,
  List, [], ◌∷◌, ◌++◌, all, arith, subst,
}
use c_plus_server.Text.{Text}
use c_plus_server.Report.{Report}
use c_plus_server.LintState.{
  LintState, Output, OutputFormat, emacs, eclipse, vs7, junit, has_sign, should_print_error,
  increment_error_count, written_as, error,
}
use c_plus_server.LintState.Filtering.{is_filtered-total}
use c_plus_server.Suppressions.{Suppressions, is_error_suppressed_by_nolint}
use c_plus_server.Reporting.{Sink, report, report_all}

-- Every filter has a sign, as AddFilters demands.
abbrev pub Signed : Sink → Type 0
Signed s = all has_sign s.lint.filters ≡ true

-- The errors that are not suppressed are on lines that `P` allows.
abbrev pub Lets : (ℕ → Type 0) → Sink → Type 0
Lets P s =
    (category : Text) (n : ℕ)
    → is_error_suppressed_by_nolint s.suppressions category n ≡ false
    → P n

-- All that was written is on such lines.
abbrev pub AllOn : (ℕ → Type 0) → List Output → Type 0
AllOn P [] = Unit
AllOn P (o ∷ os) = P o.report.linenum × AllOn P os

-- From `s` to `t` something was written, all on such lines; the settings are the same.
pub record Goes (P : ℕ → Type 0) (s t : Sink) : Type 0 where
  pub extra : List Output
  pub written : t.outputs ≡ s.outputs ++ extra
  pub on : AllOn P extra
  pub same_suppressions : t.suppressions ≡ s.suppressions
  pub same_filters : t.lint.filters ≡ s.lint.filters
  pub same_level : t.lint.verbose_level ≡ s.lint.verbose_level

AllOn-append : (P : ℕ → Type 0) (os ps : List Output) → AllOn P os → AllOn P ps → AllOn P (os ++ ps)
AllOn-append P [] ps h k = k
AllOn-append P (o ∷ os) ps (a, h) k = (a, AllOn-append P os ps h k)

pub Goes-refl : (P : ℕ → Type 0) (s : Sink) → Goes P s s
Goes-refl P s = record {
  extra = [];
  written = sym (append-nil s.outputs);
  on = tt;
  same_suppressions = refl;
  same_filters = refl;
  same_level = refl;
}

pub Goes-trans : (P : ℕ → Type 0) (s t u : Sink) → Goes P s t → Goes P t u → Goes P s u
Goes-trans P s t u g h = record {
  extra = g.extra ++ h.extra;
  written = h.written ∙ ap (λ os. os ++ h.extra) g.written ∙ append_assoc s.outputs g.extra h.extra;
  on = AllOn-append P g.extra h.extra g.on h.on;
  same_suppressions = h.same_suppressions ∙ g.same_suppressions;
  same_filters = h.same_filters ∙ g.same_filters;
  same_level = h.same_level ∙ g.same_level;
}

should_print_error-some :
    (s : LintState) (suppressions : Suppressions) (r : Report)
    → all has_sign s.filters ≡ true
    → should_print_error s suppressions r.category r.confidence r.linenum ≢ none
unfolding should_print_error
should_print_error-some s suppressions r h =
    let kept = is_filtered-total false s.filters r.category h in ground arith

should_print_error-suppressed :
    (s : LintState) (suppressions : Suppressions) (r : Report)
    → should_print_error s suppressions r.category r.confidence r.linenum ≡ some true
    → is_error_suppressed_by_nolint suppressions r.category r.linenum ≡ false
unfolding should_print_error
should_print_error-suppressed s suppressions r h =
    elim (Bool-cases (is_error_suppressed_by_nolint suppressions r.category r.linenum)) [
      | inl e ↦ absurd (some_false (rw (should_print_error, e) at h))
      | inr e ↦ e
    ]
  where
    some_false : some false ≡ some true → ⊥
    some_false q = cc

-- The sink behind what one error writes.
noted : Sink → LintState × List Output → Sink
noted s (lint, written) = record s { lint = lint; outputs = s.outputs ++ written }

one_more :
    (P : ℕ → Type 0) (s : Sink) (format : OutputFormat) (r : Report)
    → P r.linenum
    → Goes P s (
        noted s
          (increment_error_count s.lint r.category, record { format = format; report = r } ∷ []))
unfolding noted increment_error_count
one_more P s format r h = record {
  extra = record { format = format; report = r } ∷ [];
  written = refl;
  on = (h, tt);
  same_suppressions = refl;
  same_filters = refl;
  same_level = refl;
}

nothing_more : (P : ℕ → Type 0) (s : Sink) → Goes P s (noted s (s.lint, []))
unfolding noted
nothing_more P s = record {
  extra = [];
  written = refl;
  on = tt;
  same_suppressions = refl;
  same_filters = refl;
  same_level = refl;
}

written_as-Goes :
    (P : ℕ → Type 0) (s : Sink) (r : Report) (format : OutputFormat)
    → P r.linenum
    → Goes P s (noted s (written_as format (increment_error_count s.lint r.category) r))
unfolding noted written_as increment_error_count
written_as-Goes P s r emacs h = one_more P s emacs r h
written_as-Goes P s r eclipse h = one_more P s eclipse r h
written_as-Goes P s r vs7 h = one_more P s vs7 r h
written_as-Goes P s r junit h = record {
  extra = [];
  written = refl;
  on = tt;
  same_suppressions = refl;
  same_filters = refl;
  same_level = refl;
}

report-shape :
    (s : Sink) (r : Report)
    → report r s
      ≡ (elim (error s.lint s.suppressions r) [ none ↦ none | some p ↦ some (noted s p) ])
unfolding report noted
report-shape s r = elim (Option-cases (error s.lint s.suppressions r)) [
  | inl e ↦ rw (report, e)
  | inr (p, e) ↦ rw (report, e)
]

-- Error, called while line `n` is silenced.
pub report-Goes :
    (P : ℕ → Type 0) (r : Report) (s : Sink)
    → Signed s
    → Lets P s
    → (t : Sink) × (report r s ≡ some t) × Goes P s t
unfolding error
report-Goes P r s h k =
    elim (Option-cases
      (should_print_error s.lint s.suppressions r.category r.confidence r.linenum)) [
        | inl e ↦ absurd (should_print_error-some s.lint s.suppressions r h e)
        | inr (false, e) ↦
            (noted s (s.lint, []), rw (report-shape s r) (rw (error, e) refl), nothing_more P s)
        | inr (true, e) ↦ (
          noted s (written_as s.lint.output_format (increment_error_count s.lint r.category) r),
          rw (report-shape s r) (rw (error, e) refl),
          written_as-Goes P s r s.lint.output_format
              (k r.category r.linenum (should_print_error-suppressed s.lint s.suppressions r e)),
        )
      ]

-- A state reached from `s`, from which the checks can go on.
pub record Reached (P : ℕ → Type 0) (s t : Sink) : Type 0 where
  pub goes : Goes P s t
  pub signed : Signed t
  pub lets : Lets P t

pub Reached-refl : (P : ℕ → Type 0) (s : Sink) → Signed s → Lets P s → Reached P s s
Reached-refl P s h k = record { goes = Goes-refl P s; signed = h; lets = k }

Reached-step : (P : ℕ → Type 0) (s t u : Sink) → Reached P s t → Goes P t u → Reached P s u
Reached-step P s t u r g = record {
  goes = Goes-trans P s t u r.goes g;
  signed = subst (λ fs. all has_sign fs ≡ true) (sym g.same_filters) r.signed;
  lets = λ c m e. r.lets c m (
      ap (λ (p : Suppressions). is_error_suppressed_by_nolint p c m) (sym g.same_suppressions) ∙ e);
}

-- The errors of a check, and what follows it.
pub report_all-Reached :
    (P : ℕ → Type 0) (s t : Sink) (rs : List Report)
    → Reached P s t
    → (u : Sink) × (report_all rs t ≡ some u) × Reached P s u
unfolding report_all
report_all-Reached P s t [] r = (t, refl, r)
report_all-Reached P s t (x ∷ rs) r =
    let (u, e, g) = report-Goes P x t r.signed r.lets in
    let (v, f, q) = report_all-Reached P s u rs (Reached-step P s t u r g) in (v, rw e f, q)
