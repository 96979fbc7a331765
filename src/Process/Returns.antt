-- ===== src/Process/Returns.antt =====
-- The checks of one line return: on a line of the file ProcessLine raises no error.
use c_plus_server.Base.{
  ℕ, ◌<◌, ◌-◌, Bool-cases, Option-cases, ◌≡◌, refl, inl, inr, Option, none, some, List, [], ◌∷◌,
  ◌++◌, length, get_elem?, get_or, lt-length_of_get_elem?, if◌then◌else◌,
}
use c_plus_server.Text.{Text}
use c_plus_server.Regex.{search_re}
use c_plus_server.Report.{Report}
use c_plus_server.Reporting.{Sink, report_all, parse_nolint, ◌>>=◌}
use c_plus_server.Cleanse.{CleansedLines}
use c_plus_server.Cleanse.Patterns.{re_pattern_include}
use c_plus_server.FileNames.Search.{Shortens, TopIsPlain}
use c_plus_server.Includes.{IncludeState}
use c_plus_server.IncludeLine.Classify.{Setting}
use c_plus_server.IncludeLine.Total.{Returns, check_include_line-Returns}
use c_plus_server.FunctionSize.{FunctionState}
use c_plus_server.FunctionLength.{check_for_function_lengths}
use c_plus_server.FunctionLength.Total.{check_for_function_lengths-some}
use c_plus_server.FileChecks.{check_for_multiline_comments_and_strings}
use c_plus_server.LineChecks.Features.{check_printf}
use c_plus_server.LineChecks.Virtual.{check_redundant_virtual}
use c_plus_server.LineChecks.Inside.{check_redundant_virtual-some}
use c_plus_server.Nesting.State.{NestingState, in_asm_block}
use c_plus_server.Nesting.Update.Total.{update-some}
use c_plus_server.Process.{process_code, process_line}
use c_plus_server.Process.State.{
  Checks, FileState, check_for_namespace_indentation, reset_at, language_line, check_language,
  run_checks, line_checks, last_checks,
}
use c_plus_server.Process.Steps.{Reached, report_all-Reached}

-- The checks return, and what they lead to is reached from `s`.
abbrev pub Ends : (ℕ → Type 0) → Sink → Option FileState → Type 0
Ends P s o = (t : FileState) × (o ≡ some t) × Reached P s t.sink

bind-report :
    (P : ℕ → Type 0) (s t : Sink) (rs : List Report) (f : Sink → Option FileState)
    → Reached P s t
    → ((u : Sink) → Reached P s u → Ends P s (f u))
    → Ends P s (report_all rs t >>= f)
bind-report P s t rs f r k =
    let (u, e, q) = report_all-Reached P s t rs r in let (v, g, p) = k u q in (v, rw e g, p)

run_checks-Reached :
    (P : ℕ → Type 0) (s t : Sink) (fs : List (CleansedLines → ℕ → NestingState → List Report))
    (c : CleansedLines) (line : ℕ) (nesting : NestingState)
    → Reached P s t
    → (u : Sink) × (run_checks fs c line nesting t ≡ some u) × Reached P s u
unfolding run_checks
run_checks-Reached P s t [] c line nesting r = (t, refl, r)
run_checks-Reached P s t (f ∷ fs) c line nesting r =
    let (u, e, q) = report_all-Reached P s t (f c line nesting) r in
    let (v, g, p) = run_checks-Reached P s u fs c line nesting q in (v, rw e g, p)

returned : {A : Type 0} (o : Option A) → Returns o → (a : A) × (o ≡ some a)
returned none h = absurd h
returned (some a) h = (a, refl)

language_line-some :
    (st : Setting) (checks : Checks) (c : CleansedLines) (n : ℕ) (nesting : NestingState)
    (line : Text) (i : IncludeState)
    → Shortens st.os
    → TopIsPlain st.os
    → (r : IncludeState × List Report) × (language_line st checks c n nesting line i ≡ some r)
unfolding language_line
language_line-some st checks c n nesting line i short top =
    elim (Option-cases (search_re re_pattern_include line)) [
      | inl e ↦ (
        (
          reset_at line i,
          checks.casts c n ++ check_printf c.elided n ++ checks.language c n nesting,
        ),
        rw (language_line, e) refl,
      )
      | inr (m, e) ↦
          let (r, f) = returned _ (
            check_include_line-Returns st short top (get_or c.lines n [])
              (get_or c.elided (n - 1) []) n i) in
          (r, rw (language_line, e) f)
    ]

check_language-some :
    (st : Setting) (checks : Checks) (c : CleansedLines) (n : ℕ) (nesting : NestingState)
    (i : IncludeState)
    → Shortens st.os
    → TopIsPlain st.os
    → (r : IncludeState × List Report) × (check_language st checks c n nesting i ≡ some r)
unfolding check_language
check_language-some st checks c n nesting i short top = go (get_or c.elided n []) refl
  where
    go :
        (line : Text)
        → get_or c.elided n [] ≡ line
        → (r : IncludeState × List Report) × (check_language st checks c n nesting i ≡ some r)
    go [] e = ((i, []), rw (check_language, e) refl)
    go (d ∷ line) e =
        let (r, f) = language_line-some st checks c n nesting (d ∷ line) i short top in
        (r, rw (check_language, e) f)

-- From CheckLanguage on.
module _ (st : Setting) (checks : Checks) (c : CleansedLines) (P : ℕ → Type 0) (n : ℕ) (s0 : Sink)
    (s : FileState) (short : Shortens st.os) (top : TopIsPlain st.os) where
  last-Ends :
      (i : IncludeState) (fs : FunctionState) (t : Sink)
      → Reached P s0 t
      → Ends P s0 (
          run_checks (last_checks checks) c n s.nesting_state t
          >>= (λ sink. some (record s { include_state = i; function_state = fs; sink = sink })))
  last-Ends i fs t r =
      let (u, h, q) = run_checks-Reached P s0 t (last_checks checks) c n s.nesting_state r in
      (record s { include_state = i; function_state = fs; sink = u }, rw h refl, q)

  checked-Ends :
      (i : IncludeState) (fs : FunctionState) (t : Sink)
      → Reached P s0 t
      → Ends P s0 (
          run_checks (line_checks checks) c n s.nesting_state t >>= (λ checked.
            check_redundant_virtual c.elided n >>= (λ virtual.
              report_all virtual checked >>= (λ told.
                run_checks (last_checks checks) c n s.nesting_state told >>= (λ sink.
                  some (record s { include_state = i; function_state = fs; sink = sink }))))))
  checked-Ends i fs t r =
      let (u, h, q) = run_checks-Reached P s0 t (line_checks checks) c n s.nesting_state r in
      let (virtual, e) = check_redundant_virtual-some c.elided n in
      rw (h, e) (bind-report P s0 u virtual _ q (last-Ends i fs))

  language-Ends :
      (fs : FunctionState) (t : Sink)
      → Reached P s0 t
      → Ends P s0 (
          check_language st checks c n s.nesting_state s.include_state >>= (λ (i, language).
            report_all language t >>= (λ spoken.
              run_checks (line_checks checks) c n s.nesting_state spoken >>= (λ checked.
                check_redundant_virtual c.elided n >>= (λ virtual.
                  report_all virtual checked >>= (λ told.
                    run_checks (last_checks checks) c n s.nesting_state told >>= (λ sink.
                      some (record s { include_state = i; function_state = fs; sink = sink }))))))))
  language-Ends fs t r =
      let ((i, language), f) =
        check_language-some st checks c n s.nesting_state s.include_state short top in
      rw f (bind-report P s0 t language _ r (checked-Ends i fs))

  process_code-Ends :
      (fs : FunctionState) (lengths : List Report)
      → check_for_function_lengths c.lines s.sink.lint.verbose_level n s.function_state
        ≡ some (fs, lengths)
      → Reached P s0 s.sink
      → Ends P s0 (process_code st checks c n s)
  unfolding process_code
  process_code-Ends fs lengths e r =
      rw (process_code, e)
        (bind-report P s0 s.sink lengths _ r (λ a ra.
          bind-report P s0 a (check_for_multiline_comments_and_strings n (get_or c.elided n [])) _
            ra
            (λ b rb.
              bind-report P s0 b (checks.style c n s.nesting_state) _ rb (language-Ends fs))))

module _ (st : Setting) (checks : Checks) (c : CleansedLines) (P : ℕ → Type 0) (n : ℕ) (s0 : Sink)
    (s : FileState) (short : Shortens st.os) (top : TopIsPlain st.os)
    (there : n < length c.lines) where
  after_namespaces :
      (nesting : NestingState) (t : Sink)
      → Reached P s0 t
      → Ends P s0 (
          if in_asm_block nesting
          then some (record s { nesting_state = nesting; sink = t })
          else process_code st checks c n (record s { nesting_state = nesting; sink = t }))
  after_namespaces nesting t r =
      let ((fs, lengths), e) =
        check_for_function_lengths-some c.lines t.lint.verbose_level n s.function_state there in
      elim (Bool-cases (in_asm_block nesting)) [
        | inl a ↦ rw a (record s { nesting_state = nesting; sink = t }, refl, r)
        | inr a ↦ rw a (
            process_code-Ends st checks c P n s0 (record s { nesting_state = nesting; sink = t })
              short top fs lengths e r)
      ]

  -- Where the suppressions of the line lead to a state from which the checks can go on.
  pub process_line-Ends :
      (raw_line : Text) (t : Sink)
      → get_elem? c.raw_lines n ≡ some raw_line
      → n < length c.elided
      → parse_nolint raw_line n s.sink ≡ some t
      → Reached P s0 t
      → Ends P s0 (process_line st checks c n s)
  unfolding process_line
  process_line-Ends raw_line t e h k r =
      let ((nesting, blocks), u) =
        update-some c n s.nesting_state h (lt-length_of_get_elem? c.raw_lines n e) in
      rw (process_line, e, k, u)
        (bind-report P s0 t blocks _ r (λ a ra.
          bind-report P s0 a (check_for_namespace_indentation checks nesting c n) _ ra
            (after_namespaces nesting)))
