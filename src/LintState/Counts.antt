-- ===== src/LintState/Counts.antt =====
-- The error counts after a run of Error.
use c_plus_server.Base.{
  ℕ, suc, ◌+◌, Bool, false, ◌&&◌, Option-cases, ◌≡◌, ◌≢◌, refl, sym, ◌∙◌, inl, inr, Option, none,
  some, List, [], ◌∷◌, ◌++◌, if◌then◌else◌, arith,
}
use c_plus_server.Text.{Text, text_eq, text_eq_iff}
use c_plus_server.Report.{Report}
use c_plus_server.Suppressions.{Suppressions}
use c_plus_server.LintState.{
  LintState, Counting, total, toplevel, detailed, Output, bump, top_level, counted,
  increment_error_count, should_print_error, written_as, error,
}

-- Error, called for each report in turn.
unfoldable pub run_errors :
    LintState → Suppressions → List Report → Option (LintState × List Output)
run_errors s suppressions [] = some (s, [])
run_errors s suppressions (r ∷ rs) = elim (error s suppressions r) [
  | none ↦ none
  | some (s', out) ↦ elim (run_errors s' suppressions rs) [
    | none ↦ none
    | some (t, outs) ↦ some (t, out ++ outs)
  ]
]

-- `errors_by_category[category]`, 0 for a missing key
unfoldable pub count_of : Text → List (Text × ℕ) → ℕ
count_of category [] = 0
count_of category ((c, n) ∷ counts) =
    let rest = count_of category counts in if text_eq c category then n else rest

unfoldable pub total_of : List (Text × ℕ) → ℕ
total_of [] = 0
total_of ((c, n) ∷ counts) = n + total_of counts

-- The category under which a style counts an error; `none` if it does not.
unfoldable pub counted_as : Counting → Text → Option Text
counted_as total category = none
counted_as toplevel category = some (top_level category)
counted_as detailed category = some category

unfoldable pub counts_for : Counting → Text → Text → Bool
counts_for style c category = elim (counted_as style category) [
  | none ↦ false
  | some d ↦ text_eq d c
]

unfoldable pub is_printed : LintState → Suppressions → Report → Bool
is_printed s suppressions r =
    elim (should_print_error s suppressions r.category r.confidence r.linenum) [
      | none ↦ false
      | some b ↦ b
    ]

-- How many of the reports are printed and count for the category `c`.
unfoldable pub occurrences : LintState → Suppressions → Text → List Report → ℕ
occurrences s suppressions c [] = 0
occurrences s suppressions c (r ∷ rs) =
    (if is_printed s suppressions r && counts_for s.counting c r.category then 1 else 0)
    + occurrences s suppressions c rs

count_of-bump :
    (c d : Text) (counts : List (Text × ℕ))
    → count_of c (bump d counts) ≡ (if text_eq d c then 1 else 0) + count_of c counts
unfolding count_of bump
count_of-bump c d [] = ground arith
count_of-bump c d ((e, n) ∷ counts) =
    ground (arith, count_of-bump c d counts, text_eq_iff e d, text_eq_iff e c, text_eq_iff d c)

total_of-bump :
    (d : Text) (counts : List (Text × ℕ)) → total_of (bump d counts) ≡ suc (total_of counts)
unfolding total_of bump
total_of-bump d [] = omega arith
total_of-bump d ((e, n) ∷ counts) = ground (arith, total_of-bump d counts)

-- What one call of Error leaves as it is.
pub record SameSettings (s t : LintState) : Type 0 where
  pub same_level : t.verbose_level ≡ s.verbose_level
  pub same_filters : t.filters ≡ s.filters
  pub same_counting : t.counting ≡ s.counting

error-SameSettings :
    (s : LintState) (suppressions : Suppressions) (r : Report) (t : LintState) (out : List Output)
    → error s suppressions r ≡ some (t, out)
    → SameSettings s t
unfolding error written_as increment_error_count
error-SameSettings s suppressions r t out h = ground arith

error-count_of :
    (s : LintState) (suppressions : Suppressions) (r : Report) (t : LintState) (out : List Output)
    (c : Text)
    → error s suppressions r ≡ some (t, out)
    → count_of c t.errors_by_category
      ≡ (if is_printed s suppressions r && counts_for s.counting c r.category then 1 else 0)
        + count_of c s.errors_by_category
unfolding error written_as increment_error_count is_printed counts_for counted counted_as
error-count_of s suppressions r t out c h = ground (
  arith,
  count_of-bump c r.category s.errors_by_category,
  count_of-bump c (top_level r.category) s.errors_by_category,
)

error-total_of :
    (s : LintState) (suppressions : Suppressions) (r : Report) (t : LintState) (out : List Output)
    → s.counting ≢ total
    → error s suppressions r ≡ some (t, out)
    → total_of t.errors_by_category + s.error_count ≡ total_of s.errors_by_category + t.error_count
unfolding error written_as increment_error_count counted
error-total_of s suppressions r t out n h = ground (
  arith,
  total_of-bump r.category s.errors_by_category,
  total_of-bump (top_level r.category) s.errors_by_category,
)

occurrences-same :
    (s t : LintState) (suppressions : Suppressions) (c : Text) (rs : List Report)
    → SameSettings s t
    → occurrences t suppressions c rs ≡ occurrences s suppressions c rs
unfolding occurrences is_printed should_print_error
occurrences-same s t suppressions c [] m = refl
occurrences-same s t suppressions c (r ∷ rs) m =
    rw (m.same_level, m.same_filters, m.same_counting, occurrences-same s t suppressions c rs m)

-- A successful run, taken apart.
run_errors-cons :
    (s : LintState) (suppressions : Suppressions) (r : Report) (rs : List Report) (t : LintState)
    (outs : List Output)
    → run_errors s suppressions (r ∷ rs) ≡ some (t, outs)
    → (u : LintState) × (out : List Output) × (rest : List Output) × (error s suppressions r
        ≡ some (u, out))
      × (run_errors u suppressions rs ≡ some (t, rest))
unfolding run_errors
run_errors-cons s suppressions r rs t outs h = elim (Option-cases (error s suppressions r)) [
  | inl e ↦ absurd (let x = rw (run_errors, e) at h in cc x)
  | inr ((u, out), e) ↦ elim (Option-cases (run_errors u suppressions rs)) [
    | inl f ↦ absurd (let x = rw (run_errors, e, f) at h in cc x)
    | inr ((v, rest), f) ↦ (u, out, rest, e, ground arith)
  ]
]

-- After a run of Error the count of a category has grown by the number of reports that were printed
-- and that the counting style counts for it.
pub run_errors-count_of :
    (s : LintState) (suppressions : Suppressions) (rs : List Report) (t : LintState)
    (outs : List Output) (c : Text)
    → run_errors s suppressions rs ≡ some (t, outs)
    → count_of c t.errors_by_category
      ≡ occurrences s suppressions c rs + count_of c s.errors_by_category
unfolding occurrences run_errors
run_errors-count_of s suppressions [] t outs c h = ground arith
run_errors-count_of s suppressions (r ∷ rs) t outs c h =
    let (u, out, rest, e, f) = run_errors-cons s suppressions r rs t outs h in
    omega (
      arith,
      run_errors-count_of u suppressions rs t rest c f,
      error-count_of s suppressions r u out c e,
      occurrences-same s u suppressions c rs (error-SameSettings s suppressions r u out e),
    )

-- Where the errors are counted by category at all, the counts add up to the total: a run of Error
-- adds as much to their sum as to the total.
pub run_errors-total_of :
    (s : LintState) (suppressions : Suppressions) (rs : List Report) (t : LintState)
    (outs : List Output)
    → s.counting ≢ total
    → run_errors s suppressions rs ≡ some (t, outs)
    → total_of t.errors_by_category + s.error_count ≡ total_of s.errors_by_category + t.error_count
unfolding run_errors
run_errors-total_of s suppressions [] t outs n h = ground arith
run_errors-total_of s suppressions (r ∷ rs) t outs n h =
    let (u, out, rest, e, f) = run_errors-cons s suppressions r rs t outs h in
    let same = error-SameSettings s suppressions r u out e in
    omega (
      arith,
      run_errors-total_of u suppressions rs t rest (λ x. n (sym same.same_counting ∙ x)) f,
      error-total_of s suppressions r u out n e,
    )
