-- ===== src/Process/Silent.antt =====
-- On a line with a NOLINT comment for all categories.
use c_plus_server.Base.{
  ℕ, ◌<◌, true, false, ◌≡◌, ◌≢◌, refl, sym, ap, ◌∙◌, none, some, List, ◌++◌, ==-refl, arith, length,
  get_elem?,
}
use c_plus_server.Text.{Text}
use c_plus_server.Regex.{group_of}
use c_plus_server.LintState.{Output}
use c_plus_server.Suppressions.{
  nolint_groups, suppressed_line, suppress, apply_groups, parse_nolint_suppressions,
  is_error_suppressed_by_nolint, listed, same_category,
}
use c_plus_server.Reporting.{Sink, report_all, parse_nolint}
use c_plus_server.Cleanse.{CleansedLines}
use c_plus_server.FileNames.Search.{Shortens, TopIsPlain}
use c_plus_server.IncludeLine.Classify.{Setting}
use c_plus_server.Process.{process_line}
use c_plus_server.Process.State.{Checks, FileState}
use c_plus_server.Process.Returns.{process_line-Ends}
use c_plus_server.Process.Steps.{Signed, Lets, AllOn, Reached-refl}

-- The comment has neither NEXTLINE nor a category.
abbrev pub Blanket : Text → Type 0
Blanket raw_line =
    (groups : List (ℕ × Text)) × (nolint_groups raw_line ≡ some groups)
    × (group_of 1 groups ≡ none)
    × (group_of 2 groups ≡ none)

silenced : ℕ → Sink → Sink
silenced n s = record s { suppressions = suppress none n s.suppressions }

parse_nolint-Blanket :
    (raw_line : Text) (n : ℕ) (s : Sink)
    → Blanket raw_line
    → parse_nolint raw_line n s ≡ some (silenced n s)
unfolding parse_nolint report_all parse_nolint_suppressions apply_groups suppressed_line silenced
parse_nolint-Blanket raw_line n s (groups, e, f, g) =
    rw (parse_nolint, parse_nolint_suppressions, e)
      (rw (apply_groups, g) (rw (suppressed_line, f) refl))

silenced_line :
    (n : ℕ) (s : Sink) (category : Text)
    → is_error_suppressed_by_nolint (silenced n s).suppressions category n ≡ true
unfolding silenced suppress is_error_suppressed_by_nolint listed same_category
silenced_line n s category = ground (arith, ==-refl n)

silenced-Lets : (n : ℕ) (s : Sink) → Lets (λ m. m ≢ n) (silenced n s)
silenced-Lets n s category m e = λ (q : m ≡ n). true_false (
    sym (silenced_line n s category)
    ∙ ap (λ k. is_error_suppressed_by_nolint (silenced n s).suppressions category k) (sym q)
    ∙ e)
  where
    true_false : true ≡ false → ⊥
    true_false r = cc

-- If the raw line `n` has a NOLINT comment without a category, os.path shortens paths, no directory
-- without a parent is the top of an SVN checkout, and the filters have signs, then ProcessLine returns
-- on line `n` and no error that it prints is on that line, whatever the checks that are not modelled
-- report there.
pub process_line-Blanket :
    (st : Setting) (checks : Checks) (c : CleansedLines) (n : ℕ) (s : FileState) (raw_line : Text)
    → Shortens st.os
    → TopIsPlain st.os
    → get_elem? c.raw_lines n ≡ some raw_line
    → n < length c.lines
    → n < length c.elided
    → Signed s.sink
    → Blanket raw_line
    → (t : FileState) × (process_line st checks c n s ≡ some t)
      × (extra : List Output) × (t.sink.outputs ≡ s.sink.outputs ++ extra)
      × AllOn (λ m. m ≢ n) extra
unfolding silenced
process_line-Blanket st checks c n s raw_line short top e h h' g k =
    let start = Reached-refl (λ m. m ≢ n) (silenced n s.sink) g (silenced-Lets n s.sink) in
    let (t, f, r) =
      process_line-Ends st checks c (λ m. m ≢ n) n (silenced n s.sink) s short top h raw_line
        (silenced n s.sink) e h' (parse_nolint-Blanket raw_line n s.sink k) start in
    (t, f, r.goes.extra, r.goes.written, r.goes.on)
