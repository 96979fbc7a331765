-- ===== src/Nesting/Braces/Run.antt =====
-- The last loop of NestingState.Update as one pass over the characters.
use mathlib.Core.List.{append_assoc}
use c_plus_server.Base.{
  ℕ, zero, suc, ◌<◌, ◌≡◌, refl, sym, ap, ◌∙◌, Bool-cases, true, not, inl, inr, Option-cases, none,
  some, List, [], ◌∷◌, ◌++◌, length, arith, ◌==◌, if◌then◌else◌,
}
use c_plus_server.Text.{Text}
use c_plus_server.Report.{Report}
use c_plus_server.Regex.{one_of}
use c_plus_server.Nesting.Blocks.{BlockInfo}
use c_plus_server.Nesting.Braces.{brace_chars, at_brace, brace_reports, brace_loop, consume_braces}
use c_plus_server.Nesting.Braces.Split.{first_brace, is_line, brace_split-first_brace, both_true}

module _ (elided : List Text) (raw_line : Text) (linenum : ℕ) where
  -- The first token, with the line from behind the last one, then the others.
  abbrev pub then_reports :
      ℕ → List BlockInfo → List BlockInfo × List Report → List BlockInfo × List Report
  then_reports token stack r = (r.0, brace_reports elided raw_line linenum token stack ++ r.1)

  -- `pending` is what was passed since the last token.
  unfoldable pub run_braces : Text → Text → List BlockInfo → List BlockInfo × List Report
  run_braces pending [] stack = (stack, [])
  run_braces pending (x ∷ s) stack =
      let token =
        then_reports x stack (run_braces [] s (at_brace x (pending ++ x ∷ s) linenum stack)) in
      let pass = run_braces (pending ++ x ∷ []) s stack in
      if one_of brace_chars x then token else pass

  run_braces-none :
      (pending s : Text) (stack : List BlockInfo)
      → first_brace s ≡ none
      → run_braces pending s stack ≡ (stack, [])
  unfolding run_braces first_brace
  run_braces-none pending [] stack h = refl
  run_braces-none pending (x ∷ s) stack h = elim (Bool-cases (one_of brace_chars x)) [
    | inl e ↦ absurd (let f = rw e at h in cc)
    | inr e ↦ rw e (run_braces-none (pending ++ x ∷ []) s stack (rw e at h))
  ]

  run_braces-some :
      (pending s : Text) (stack : List BlockInfo) (token : ℕ) (rest : Text)
      → first_brace s ≡ some (token, rest)
      → run_braces pending s stack
        ≡ then_reports token stack
            (run_braces [] rest (at_brace token (pending ++ s) linenum stack))
  unfolding run_braces first_brace
  run_braces-some pending [] stack token rest h = cc
  run_braces-some pending (x ∷ s) stack token rest h = elim (Bool-cases (one_of brace_chars x)) [
    | inl e ↦
        let f = rw e at h in let a : x ≡ token = cc f in let b : s ≡ rest = cc f in rw (e, a, b)
    | inr e ↦
        let same = append_assoc pending (x ∷ []) s in
        rw e (run_braces-some (pending ++ x ∷ []) s stack token rest (rw e at h) ∙ rw same)
  ]

  first_brace-rest :
      (s : Text) (token : ℕ) (rest : Text)
      → first_brace s ≡ some (token, rest)
      → is_line s ≡ true
      → (length rest < length s) × (is_line rest ≡ true)
  unfolding first_brace
  first_brace-rest [] token rest h l = cc
  first_brace-rest (x ∷ s) token rest h l = elim (Bool-cases (one_of brace_chars x)) [
    | inl e ↦
        let f = rw e at h in
        let b : s ≡ rest = cc f in
        (
          omega (arith, ap length b),
          ap is_line (sym b) ∙ (both_true (not (x == b'\n')) (is_line s) l).1,
        )
    | inr e ↦
        let (a, b) =
          first_brace-rest s token rest (rw e at h)
            (both_true (not (x == b'\n')) (is_line s) l).1 in
        (omega arith, b)
  ]

  brace_loop-run_braces :
      (f : ℕ) (line : Text) (stack : List BlockInfo)
      → length line < f
      → is_line line ≡ true
      → brace_loop f elided raw_line linenum line stack ≡ some (run_braces [] line stack)
  unfolding brace_loop
  brace_loop-run_braces zero line stack h l = absurd (omega arith)
  brace_loop-run_braces (suc f) line stack h l = elim (Option-cases (first_brace line)) [
    | inl e ↦ rw (brace_loop, brace_split-first_brace line l, e, run_braces-none [] line stack e)
    | inr ((token, rest), e) ↦
        let (a, b) = first_brace-rest line token rest e l in
        rw (
          brace_loop,
          brace_split-first_brace line l,
          e,
          run_braces-some [] line stack token rest e,
          brace_loop-run_braces f rest (at_brace token line linenum stack) (omega arith) b,
        )
  ]

  -- The loop ends on every line, with the result of the pass.
  pub consume_braces-run_braces :
      (line : Text) (stack : List BlockInfo)
      → is_line line ≡ true
      → consume_braces elided raw_line linenum line stack ≡ some (run_braces [] line stack)
  unfolding consume_braces
  consume_braces-run_braces line stack l =
      brace_loop-run_braces (suc (length line)) line stack (omega arith) l
