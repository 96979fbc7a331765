-- ===== src/FunctionLength/Whole.antt =====
-- A whole function, from the line that begins it to its closing brace.
use mathlib.Core.List.{append-nil}
use c_plus_server.Base.{
  ℕ, zero, suc, ◌+◌, ◌<◌, ◌≤◌, ◌⊎◌, inl, inr, Bool, Bool-cases, ltb, ◌∷◌, ◌≡◌, refl, ap, ◌∙◌, true,
  false, Option, none, some, List, [], ◌++◌, drop, get_elem?, arith,
}
use c_plus_server.Text.{Text, codes}
use c_plus_server.Report.{Report}
use c_plus_server.Regex.{matches}
use c_plus_server.FunctionSize.{FunctionState, begin, count_line, check, end, trigger, size_report}
use c_plus_server.FunctionSize.Level.{count_lines, count_lines-begin}
use c_plus_server.FunctionLength.{
  body, starts_function, find_body, function_name, function_end, blank_line, start_function,
  function_line, check_for_function_lengths,
}

-- CheckForFunctionLengths for `n` lines from `linenum` on.
unfoldable pub check_lines :
    List Text → ℕ → ℕ → ℕ → FunctionState → Option (FunctionState × List Report)
check_lines lines v zero linenum s = some (s, [])
check_lines lines v (suc n) linenum s = elim (check_for_function_lengths lines v linenum s) [
  | none ↦ none
  | some (s', reports) ↦ elim (check_lines lines v n (suc linenum) s') [
    | none ↦ none
    | some (s'', more) ↦ some (s'', reports ++ more)
  ]
]

-- A line of a body: it begins and ends no function.
pub record IsInside (lines : List Text) (linenum : ℕ) (b : Bool) : Type 0 where
  pub line : Text
  pub there : get_elem? lines linenum ≡ some line
  pub begins_none : starts_function line ≡ false
  pub ends_none : matches function_end line ≡ false
  pub is_blank : matches blank_line line ≡ b

-- The line that closes a function.
pub record IsClosing (lines : List Text) (linenum : ℕ) : Type 0 where
  pub line : Text
  pub there : get_elem? lines linenum ≡ some line
  pub begins_none : starts_function line ≡ false
  pub ends : matches function_end line ≡ true

-- `IsBody lines n m i`: behind `m` lines of a body from line `i` on, of which `n` are not blank, a
-- line closes the function.
pub data IsBody (lines : List Text) : ℕ → ℕ → ℕ → Type 0 where
  closing : {i : ℕ} → IsClosing lines i → IsBody lines 0 0 i
  blank : {n m i : ℕ} → IsInside lines i true → IsBody lines n m (suc i) → IsBody lines n (suc m) i
  counted :
      {n m i : ℕ}
      → IsInside lines i false
      → IsBody lines n m (suc i)
      → IsBody lines (suc n) (suc m) i

-- The line `linenum` begins a function called `name` that has a body.
pub record Begins (lines : List Text) (linenum : ℕ) (name : Text) : Type 0 where
  pub line : Text
  pub joined : Text
  pub there : get_elem? lines linenum ≡ some line
  pub starts : starts_function line ≡ true
  pub has_body : find_body [] (drop linenum lines) ≡ body joined
  pub named : function_name line joined ≡ some name

count_lines-shift :
    (n : ℕ) (s : FunctionState) → count_lines n (count_line s) ≡ count_line (count_lines n s)
unfolding count_lines
count_lines-shift zero s = refl
count_lines-shift (suc n) s = ap count_line (count_lines-shift n s)

pair_path :
    (t : FunctionState) {r r' : List Report}
    → r ≡ r'
    → ◌≡◌ {A = FunctionState × List Report} (t, r) (t, r')
pair_path t h = ap (λ x. (t, x)) h

module _ (lines : List Text) (v linenum : ℕ) (s : FunctionState) where
  last_line :
      IsClosing lines linenum
      → check_for_function_lengths lines v linenum s ≡ some (end s, check s v linenum)
  unfolding check_for_function_lengths function_line
  last_line p = rw (check_for_function_lengths, p.there, function_line, p.begins_none, p.ends)

  blank_inside :
      IsInside lines linenum true → check_for_function_lengths lines v linenum s ≡ some (s, [])
  unfolding check_for_function_lengths function_line
  blank_inside p =
      rw
        (check_for_function_lengths, p.there, function_line, p.begins_none, p.ends_none, p.is_blank)

  body_line :
      IsInside lines linenum false
      → check_for_function_lengths lines v linenum s ≡ some (count_line s, [])
  unfolding check_for_function_lengths function_line
  body_line p =
      rw
        (check_for_function_lengths, p.there, function_line, p.begins_none, p.ends_none, p.is_blank)

  first_line :
      {name : Text}
      → Begins lines linenum name
      → check_for_function_lengths lines v linenum s ≡ some (begin s name, [])
  unfolding check_for_function_lengths function_line start_function
  first_line b = rw (
    check_for_function_lengths, b.there, function_line, b.starts, start_function, b.has_body,
    b.named,
  )

check_body :
    (lines : List Text) (v : ℕ) {n m i : ℕ} (s : FunctionState)
    → IsBody lines n m i
    → check_lines lines v (suc m) i s
      ≡ some (end (count_lines n s), check (count_lines n s) v (i + m))
unfolding check_lines count_lines
check_body lines v {i} s (closing p) =
    let here : i ≡ i + zero = omega arith in
    rw (check_lines, last_line lines v i s p)
      (ap some (pair_path (end s) (append-nil (check s v i) ∙ ap (check s v) here)))
check_body lines v {m = suc m} {i} s (blank p rest) =
    let next : suc i + m ≡ i + suc m = omega arith in
    rw (check_lines, blank_inside lines v i s p, check_body lines v s rest, next)
check_body lines v {n = suc n} {m = suc m} {i} s (counted p rest) =
    let next : suc i + m ≡ i + suc m = omega arith in
    rw (
      check_lines,
      body_line lines v i s p,
      check_body lines v (count_line s) rest,
      count_lines-shift n s,
      next,
    )

-- What is reported of a function with `n` lines, at its closing brace on line `linenum`.
abbrev pub Reported : ℕ → Text → ℕ → ℕ → List Report → Type 0
Reported v name n linenum reports =
    ((n ≤ trigger name v) × (reports ≡ []))
    ⊎ ((trigger name v < n)
        × (r : Report) × (reports ≡ r ∷ [])
        × (r.linenum ≡ linenum)
        × (r.category ≡ codes "readability/fn_size"))

check-Reported :
    (v n linenum : ℕ) (name : Text) (s : FunctionState)
    → Reported v name n linenum (check (count_lines n (begin s name)) v linenum)
unfolding check size_report
check-Reported v n linenum name s = elim (Bool-cases (ltb (trigger name v) n)) [
  | inl e ↦ inr (
    ground arith,
    size_report (count_lines n (begin s name)) v linenum,
    rw (count_lines-begin n s name, e) refl,
    refl,
    refl,
  )
  | inr e ↦ inl (ground arith, rw (count_lines-begin n s name, e) refl)
]

-- A function whose beginning and body are found, and whose body has `m` lines that begin and end no
-- function, `n` of them not blank, is reported once, with the line of its closing brace, if `n`
-- exceeds the trigger of its name at the verbosity, and not at all otherwise; behind it the state is
-- in no function.
pub check_lines-trigger :
    (lines : List Text) (v n m linenum : ℕ) (name : Text) (s : FunctionState)
    → Begins lines linenum name
    → IsBody lines n m (suc linenum)
    → (s' : FunctionState) × (reports : List Report) × (check_lines lines v (suc (suc m)) linenum s
        ≡ some (s', reports))
      × (s'.in_a_function ≡ false)
      × Reported v name n (suc linenum + m) reports
unfolding check_lines end
check_lines-trigger lines v n m i name s b p =
    let t = count_lines n (begin s name) in
    (
      end t,
      check t v (suc i + m),
      rw (check_lines, first_line lines v i s b, check_body lines v (begin s name) p),
      refl,
      check-Reported v n (suc i + m) name s,
    )
