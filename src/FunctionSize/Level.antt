-- ===== src/FunctionSize/Level.antt =====
-- The confidence of a report on a function's size.
use Prim.Native.Nat.{min}
use native.Mathlib.Nat.{two-pow-succ, one-le-pow}
use c_plus_server.Base.{
  ℕ, zero, suc, ◌+◌, ◌*◌, ◌^◌, ◌≤◌, ◌<◌, Bool-cases, inl, inr, true, ◌≡◌, ◌≢◌, ◌↔◌, refl, ap, ◌∙◌,
  [], ◌∷◌, leb, arith,
}
use c_plus_server.Text.{Text}
use c_plus_server.FunctionSize.{
  FunctionState, begin, count_line, base_trigger, trigger, log2_ratio, error_level, size_report,
  check,
}

-- A doubled base is the next power.
pow-double : (b v : ℕ) → 2 * b * 2 ^ v ≡ b * 2 ^ suc v
pow-double b v = omega (arith, ap (λ (t : ℕ). b * t) (two-pow-succ v))

pow-le : (b v : ℕ) → b ≤ b * 2 ^ v
pow-le b v = let one : 1 ≤ 2 ^ v = one-le-pow v 2 (omega arith) in grind arith

-- With the fuel that is given, the logarithm is rounded down.
log2_ratio-bounds :
    (f lines base : ℕ)
    → 0 < base
    → base ≤ lines
    → lines ≤ f + base
    → (base * 2 ^ log2_ratio f lines base ≤ lines)
      × (lines < base * 2 ^ suc (log2_ratio f lines base))
unfolding log2_ratio
log2_ratio-bounds zero lines base p q r = omega (arith, two-pow-succ 0)
log2_ratio-bounds (suc f) lines base p q r = elim (Bool-cases (leb (2 * base) lines)) [
  | inl e ↦
      let h : 2 * base ≤ lines = ground arith in
      let ih = log2_ratio-bounds f lines (2 * base) (omega arith) h (omega arith) in
      rw e (
        omega (
          arith,
          ih,
          pow-double base (log2_ratio f lines (2 * base)),
          pow-double base (suc (log2_ratio f lines (2 * base))),
        ))
  | inr e ↦ let h : lines < 2 * base = ground arith in rw e (omega (arith, two-pow-succ 0))
]

log2_ratio-ge :
    (f lines base v : ℕ)
    → 0 < base
    → lines ≤ f + base
    → base * 2 ^ v ≤ lines
    → v ≤ log2_ratio f lines base
unfolding log2_ratio
log2_ratio-ge f lines base zero p q r = omega arith
log2_ratio-ge zero lines base (suc v) p q r =
    absurd (omega (arith, pow-double base v, pow-le (2 * base) v))
log2_ratio-ge (suc f) lines base (suc v) p q r =
    let small : 2 * base * 2 ^ v ≤ lines = omega (arith, pow-double base v) in
    let h : 2 * base ≤ lines = omega (arith, pow-le (2 * base) v) in
    ground (arith, log2_ratio-ge f lines (2 * base) v)

base_trigger-pos : (name : Text) → 0 < base_trigger name
unfolding base_trigger
base_trigger-pos name = ground arith

-- Check reports exactly one error for a function that is longer than the trigger, and none
-- otherwise. The confidence is at most 5, and up to 5 it is not below the verbosity, so that the
-- verbosity does not hide the report.
pub check-reports :
    (s : FunctionState) (verbose_level linenum : ℕ)
    → s.in_a_function ≡ true
    → trigger s.current_function verbose_level < s.lines_in_function
    → (check s verbose_level linenum ≡ size_report s verbose_level linenum ∷ [])
      × (min verbose_level 5 ≤ (size_report s verbose_level linenum).confidence)
      × ((size_report s verbose_level linenum).confidence ≤ 5)
unfolding check size_report error_level trigger
check-reports s v linenum h k =
    let ge =
      log2_ratio-ge s.lines_in_function s.lines_in_function (base_trigger s.current_function) v
        (base_trigger-pos s.current_function) (omega arith) (omega arith) in
    (ground arith, ground arith, ground arith)

pub check-silent :
    (s : FunctionState) (verbose_level linenum : ℕ)
    → s.lines_in_function ≤ trigger s.current_function verbose_level
    → check s verbose_level linenum ≡ []
unfolding check
check-silent s v linenum h = ground arith

-- Up to 5 the confidence is the logarithm rounded down.
pub error_level-log :
    (lines base : ℕ)
    → 0 < base
    → base ≤ lines
    → error_level lines base < 5
    → (base * 2 ^ error_level lines base ≤ lines)
      × (lines < base * 2 ^ suc (error_level lines base))
unfolding error_level
error_level-log lines base p q r =
    let b = log2_ratio-bounds lines lines base p q (omega arith) in ground arith

unfoldable pub count_lines : ℕ → FunctionState → FunctionState
count_lines zero s = s
count_lines (suc n) s = count_line (count_lines n s)

pub count_lines-begin :
    (n : ℕ) (s : FunctionState) (name : Text)
    → count_lines n (begin s name)
      ≡ record { in_a_function = true; lines_in_function = n; current_function = name }
unfolding count_lines begin
count_lines-begin zero s name = refl
count_lines-begin (suc n) s name =
    ap count_line (count_lines-begin n s name) ∙ unfold count_line in ground arith

-- A function that was begun is reported after `n` counted lines exactly when `n` exceeds the trigger
-- of its name at the verbosity.
pub check-count_lines :
    (n : ℕ) (s : FunctionState) (name : Text) (verbose_level linenum : ℕ)
    → (check (count_lines n (begin s name)) verbose_level linenum ≢ [])
      ↔ (trigger name verbose_level < n)
unfolding check
check-count_lines n s name v linenum =
    rw (count_lines-begin n s name) ((λ h. ground arith), (λ h. ground arith))
