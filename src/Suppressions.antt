-- ===== src/Suppressions.antt =====
-- my_socket/build_support/cpplint.py, the NOLINT comments: ParseNolintSuppressions,
-- ProcessGlobalSuppresions, ResetNolintSuppressions and IsErrorSuppressedByNolint.
mod Categories
pub mod Effect
pub mod Comment
pub mod Covers
pub mod Global
mod Tests
unfoldable pub use Categories.{error_categories, legacy_error_categories}
use c_plus_server.Base.{
  ℕ, suc, ◌+◌, Bool, true, false, ◌&&◌, ◌||◌, not, Option, none, some, List, [], ◌∷◌, ◌++◌, ◌==◌,
  if◌then◌else◌, any,
}
use c_plus_server.Text.{
  Text, codes, text_eq, text_in, starts_with, ends_with, drop_first, drop_last,
}
use c_plus_server.Regex.{
  Regex, ◌⊙◌, lit, alt, eol, eps, group, opt, plus, star, set, dot, space, word_boundary, search_re,
  searches, group_of, Cursor, Found,
}
use c_plus_server.Report.{Report}

-- `_error_suppressions`, as the pairs of a category (`none` for all) and a line in its set, and the
-- categories that `_global_error_suppressions` maps to True.
pub record Suppressions : Type 0 where
  pub lines : List (Option Text × ℕ)
  pub global : List Text

-- r'\bNOLINT(NEXTLINE)?\b(\([^)]+\))?'
abbrev pub nolint_pattern : Regex
nolint_pattern =
    word_boundary
    ⊙ lit "NOLINT"
    ⊙ opt (group 1 (lit "NEXTLINE"))
    ⊙ word_boundary
    ⊙ opt (group 2 (lit "(" ⊙ plus (set (λ c. not (c == b')'))) ⊙ lit ")"))

-- The groups of a NOLINT comment on the line.
unfoldable pub nolint_groups : Text → Option (List (ℕ × Text))
nolint_groups raw_line = elim (search_re nolint_pattern raw_line) [
  | none ↦ none
  | some m ↦ some m.last.groups
]

unfoldable pub suppressed_line : List (ℕ × Text) → ℕ → ℕ
unfolding group_of
suppressed_line groups linenum = elim (group_of 1 groups) [
  | none ↦ linenum
  | some next ↦ linenum + 1
]

unfoldable pub suppress : Option Text → ℕ → Suppressions → Suppressions
suppress category linenum s = record s { lines = (category, linenum) ∷ s.lines }

unfoldable pub unknown_category : Text → ℕ → Report
unfolding codes
unknown_category category linenum = record {
  linenum = linenum;
  category = codes "readability/nolint";
  confidence = 5;
  message = codes "Unknown NOLINT error category: " ++ category;
}

-- `category[1:-1]`
unfoldable pub inside : Text → Text
unfolding drop_first drop_last
inside category = drop_last (drop_first category)

-- For the category in its parentheses.
unfoldable pub apply_category : Suppressions → Text → ℕ → ℕ → Suppressions × List Report
apply_category s category target linenum =
    if text_eq category (codes "(*)")
    then (suppress none target s, [])
    else if starts_with category (codes "(") && ends_with category (codes ")")
    then if text_in (inside category) error_categories
      then (suppress (some (inside category)) target s, [])
      else if text_in (inside category) legacy_error_categories
      then (s, [])
      else (s, unknown_category (inside category) linenum ∷ [])
    else (s, [])

unfoldable pub apply_groups : Suppressions → List (ℕ × Text) → ℕ → Suppressions × List Report
apply_groups s groups linenum = elim (group_of 2 groups) [
  | none ↦ (suppress none (suppressed_line groups linenum) s, [])
  | some category ↦ apply_category s category (suppressed_line groups linenum) linenum
]

unfoldable pub parse_nolint_suppressions : Suppressions → Text → ℕ → Suppressions × List Report
parse_nolint_suppressions s raw_line linenum = elim (nolint_groups raw_line) [
  | none ↦ (s, [])
  | some groups ↦ apply_groups s groups linenum
]

-- r'\b(?:LINT_C_FILE|vim?:\s*.*(\s*|:)filetype=c(\s*|:|$))'
abbrev search_c_file : Regex
search_c_file =
    word_boundary
    ⊙ alt (lit "LINT_C_FILE") (
        lit "vi"
        ⊙ opt (lit "m")
        ⊙ lit ":"
        ⊙ star space
        ⊙ star dot
        ⊙ alt (star space) (lit ":")
        ⊙ lit "filetype=c"
        ⊙ alt (star space) (alt (lit ":") eol))

-- r'\b(?:LINT_KERNEL_FILE)'
abbrev search_kernel_file : Regex
search_kernel_file = word_boundary ⊙ lit "LINT_KERNEL_FILE"

unfoldable pub is_c_file : Text → Bool
is_c_file line = searches search_c_file line

unfoldable pub is_kernel_file : Text → Bool
is_kernel_file line = searches search_kernel_file line

abbrev pub default_c_suppressed_categories : List Text
default_c_suppressed_categories = codes "readability/casting" ∷ []

abbrev pub default_kernel_suppressed_categories : List Text
default_kernel_suppressed_categories = codes "whitespace/tab" ∷ []

-- The two tests on one line.
unfoldable pub process_line : Suppressions → Text → Suppressions
process_line s line =
    let c = if is_c_file line then default_c_suppressed_categories else [] in
    let kernel = if is_kernel_file line then default_kernel_suppressed_categories else [] in
    record s { global = s.global ++ (c ++ kernel) }

unfoldable pub process_global_suppressions : Suppressions → List Text → Suppressions
process_global_suppressions s [] = s
process_global_suppressions s (line ∷ lines) =
    process_global_suppressions (process_line s line) lines

-- The same whatever the state was.
abbrev pub reset_nolint_suppressions : Suppressions
reset_nolint_suppressions = record { lines = []; global = [] }

unfoldable pub same_category : Option Text → Option Text → Bool
same_category none none = true
same_category none (some d) = false
same_category (some c) none = false
same_category (some c) (some d) = text_eq c d

-- `linenum in _error_suppressions.get(category, set())`
unfoldable pub listed : Option Text → ℕ → List (Option Text × ℕ) → Bool
listed category linenum [] = false
listed category linenum ((c, n) ∷ ls) =
    (same_category category c && linenum == n) || listed category linenum ls

unfoldable pub is_error_suppressed_by_nolint : Suppressions → Text → ℕ → Bool
is_error_suppressed_by_nolint s category linenum =
    text_in category s.global
    || listed (some category) linenum s.lines
    || listed none linenum s.lines
