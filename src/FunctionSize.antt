-- ===== src/FunctionSize.antt =====
-- my_socket/build_support/cpplint.py, class _FunctionState: the length of the function at hand.
pub mod Level
mod Tests
use c_plus_server.Base.{
  ℕ, zero, suc, ◌+◌, ◌*◌, ◌^◌, Bool, true, false, List, [], ◌∷◌, ◌++◌, ltb, leb, if◌then◌else◌,
}
use c_plus_server.Text.{Text, codes, decimal}
use c_plus_server.Regex.{Regex, lit, ◌⊙◌, alt, matches}
use c_plus_server.Report.{Report}

pub record FunctionState : Type 0 where
  pub in_a_function : Bool
  pub lines_in_function : ℕ
  pub current_function : Text

-- for --v=0; each level doubles it
abbrev pub normal_trigger : ℕ
normal_trigger = 250

abbrev pub test_trigger : ℕ
test_trigger = 400

abbrev pub new_function_state : FunctionState
new_function_state = record { in_a_function = false; lines_in_function = 0; current_function = [] }

-- Begin; the old state is overwritten.
unfoldable pub begin : FunctionState → Text → FunctionState
begin s function_name = record {
  in_a_function = true;
  lines_in_function = 0;
  current_function = function_name;
}

-- Count
unfoldable pub count_line : FunctionState → FunctionState
count_line s =
    if s.in_a_function then record s { lines_in_function = s.lines_in_function + 1 } else s

-- r'T(EST|est)'
abbrev test_name : Regex
test_name = lit "T" ⊙ alt (lit "EST") (lit "est")

unfoldable pub base_trigger : Text → ℕ
base_trigger name = if matches test_name name then test_trigger else normal_trigger

unfoldable pub trigger : Text → ℕ → ℕ
trigger name verbose_level = base_trigger name * 2 ^ verbose_level

-- `int(math.log(lines / base, 2))` for `base <= lines`, with the exact logarithm: how often `base`
-- can be doubled within `lines`. The fuel is `lines`.
unfoldable pub log2_ratio : ℕ → ℕ → ℕ → ℕ
log2_ratio zero lines base = 0
log2_ratio (suc f) lines base =
    let more = suc (log2_ratio f lines (2 * base)) in if leb (2 * base) lines then more else 0

unfoldable pub error_level : ℕ → ℕ → ℕ
error_level lines base =
    if ltb 5 (log2_ratio lines lines base) then 5 else log2_ratio lines lines base

unfoldable pub size_report : FunctionState → ℕ → ℕ → Report
size_report s verbose_level linenum = record {
  linenum = linenum;
  category = codes "readability/fn_size";
  confidence = error_level s.lines_in_function (base_trigger s.current_function);
  message =
      codes "Small and focused functions are preferred: "
      ++ s.current_function
      ++ codes " has "
      ++ decimal s.lines_in_function
      ++ codes " non-comment lines (error triggered by exceeding "
      ++ decimal (trigger s.current_function verbose_level)
      ++ codes " lines).";
}

-- Check
unfoldable pub check : FunctionState → ℕ → ℕ → List Report
check s verbose_level linenum =
    if s.in_a_function
    then if ltb (trigger s.current_function verbose_level) s.lines_in_function
      then size_report s verbose_level linenum ∷ []
      else []
    else []

-- End
unfoldable pub end : FunctionState → FunctionState
end s = record s { in_a_function = false }
