-- ===== src/Suppressions/Covers.antt =====
-- Which errors a NOLINT comment suppresses.
use mathlib.Core.List.{reverse-append}
use c_plus_server.Base.{
  ℕ, ◌+◌, Bool, true, false, ◌&&◌, ◌||◌, ◌≡◌, refl, ap, ◌∙◌, Option, none, some, List, [], ◌∷◌,
  ◌++◌, ◌==◌, arith, if◌then◌else◌,
}
use c_plus_server.Text.{
  Text, codes, text_eq, text_in, starts_with, ends_with, drop_first, drop_last,
}
use c_plus_server.Regex.{group_of}
use c_plus_server.Report.{Report}
use c_plus_server.Suppressions.{
  apply_groups, apply_category, unknown_category, legacy_error_categories, Suppressions,
  suppressed_line, inside, parse_nolint_suppressions, is_error_suppressed_by_nolint,
  error_categories,
}
use c_plus_server.Suppressions.Effect.{comment_covers, parse_nolint_suppressions-groups}
use c_plus_server.Suppressions.Comment.{
  IsNolint, category_groups, mark_groups, nolint_groups-IsNolint,
}

-- No category and `*` stand for all categories; else the category is the one that is named, if
-- it is one of _ERROR_CATEGORIES.
unfoldable pub names : Option Text → Text → Bool
names none category = true
names (some c) category =
    text_eq c (codes "*") || (text_in c error_categories && text_eq category c)

-- The errors on line `n` in this category that a comment on line `linenum` suppresses.
unfoldable pub suppresses : Option (Bool × Option Text) → ℕ → Text → ℕ → Bool
suppresses none linenum category n = false
suppresses (some (next, c)) linenum category n =
    n == (if next then linenum + 1 else linenum) && names c category

drop_last-append : (c : Text) (x : ℕ) → drop_last (c ++ x ∷ []) ≡ c
unfolding drop_last
drop_last-append [] x = refl
drop_last-append (y ∷ []) x = refl
drop_last-append (y ∷ z ∷ c) x = ap (λ t. y ∷ t) (drop_last-append (z ∷ c) x)

abbrev in_parentheses : Text → Text
in_parentheses c = b'(' ∷ (c ++ b')' ∷ [])

inside-in_parentheses : (c : Text) → inside (in_parentheses c) ≡ c
unfolding inside drop_first
inside-in_parentheses c = drop_last-append c b')'

ends_with-in_parentheses : (c : Text) → ends_with (in_parentheses c) (codes ")") ≡ true
unfolding ends_with starts_with codes
ends_with-in_parentheses c = rw (reverse-append (b'(' ∷ c) (b')' ∷ [])) refl

starts_with-in_parentheses : (c : Text) → starts_with (in_parentheses c) (codes "(") ≡ true
unfolding starts_with codes
starts_with-in_parentheses c = refl

not_empty : (c : Text) → text_eq (c ++ b')' ∷ []) [] ≡ false
unfolding text_eq
not_empty [] = refl
not_empty (x ∷ c) = refl

star-in_parentheses : (c : Text) → text_eq (in_parentheses c) (codes "(*)") ≡ text_eq c (codes "*")
unfolding text_eq codes
star-in_parentheses [] = refl
star-in_parentheses (x ∷ []) = ground arith
star-in_parentheses (x ∷ y ∷ c) = ground (arith, not_empty c)

comment_covers-suppresses :
    (next : Bool) (category : Option Text) (linenum : ℕ) (c : Text) (n : ℕ)
    → comment_covers (category_groups category ++ mark_groups next) linenum c n
      ≡ suppresses (some (next, category)) linenum c n
unfolding comment_covers suppressed_line group_of suppresses names
comment_covers-suppresses false none linenum c n = refl
comment_covers-suppresses true none linenum c n = refl
comment_covers-suppresses false (some d) linenum c n =
    rw
      (
        star-in_parentheses d,
        starts_with-in_parentheses d,
        ends_with-in_parentheses d,
        inside-in_parentheses d,
      )
      refl
comment_covers-suppresses true (some d) linenum c n =
    rw
      (
        star-in_parentheses d,
        starts_with-in_parentheses d,
        ends_with-in_parentheses d,
        inside-in_parentheses d,
      )
      refl

-- On a line without an N no error is suppressed that was not before. On a line with a NOLINT or
-- NOLINTNEXTLINE comment, errors on that line or on the next one, respectively, are suppressed
-- as well: all of them if the comment has no category or has (*), else those of the category in
-- parentheses, if it is one of _ERROR_CATEGORIES. Before the comment there is no N, and its word
-- begins there; without a category neither a character of a word nor a parenthesis follows.
pub parse_nolint_suppressions-covers :
    (s : Suppressions) (raw_line : Text) (o : Option (Bool × Option Text)) (linenum : ℕ) (c : Text)
    (n : ℕ)
    → IsNolint raw_line o
    → is_error_suppressed_by_nolint (parse_nolint_suppressions s raw_line linenum).0 c n
      ≡ (is_error_suppressed_by_nolint s c n || suppresses o linenum c n)
unfolding suppresses
parse_nolint_suppressions-covers s raw_line none linenum c n h =
    rw (nolint_groups-IsNolint raw_line none h) at
      (parse_nolint_suppressions-groups s raw_line linenum c n)
parse_nolint_suppressions-covers s raw_line (some (next, category)) linenum c n h =
    rw (nolint_groups-IsNolint raw_line (some (next, category)) h) at
      (parse_nolint_suppressions-groups s raw_line linenum c n)
    ∙ ap (λ b. is_error_suppressed_by_nolint s c n || b)
        (comment_covers-suppresses next category linenum c n)

-- The report on a comment whose category is not known.
unfoldable pub unknown_reports : Option (Bool × Option Text) → ℕ → List Report
unknown_reports (some (next, some c)) linenum =
    if text_eq c (codes "*") || text_in c error_categories || text_in c legacy_error_categories
    then []
    else record {
      linenum = linenum;
      category = codes "readability/nolint";
      confidence = 5;
      message = codes "Unknown NOLINT error category: " ++ c;
    }
      ∷ []
unknown_reports _ linenum = []

apply_category-unknown :
    (s : Suppressions) (c : Text) (target linenum : ℕ) (next : Bool)
    → (apply_category s (in_parentheses c) target linenum).1
      ≡ unknown_reports (some (next, some c)) linenum
unfolding apply_category unknown_reports unknown_category
apply_category-unknown s c target linenum next =
    rw
      (
        apply_category,
        star-in_parentheses c,
        starts_with-in_parentheses c,
        ends_with-in_parentheses c,
        inside-in_parentheses c,
      )
      (ground arith)

apply_groups-unknown :
    (s : Suppressions) (next : Bool) (category : Option Text) (linenum : ℕ)
    → (apply_groups s (category_groups category ++ mark_groups next) linenum).1
      ≡ unknown_reports (some (next, category)) linenum
unfolding apply_groups apply_category unknown_reports unknown_category group_of
apply_groups-unknown s false none linenum = refl
apply_groups-unknown s true none linenum = refl
apply_groups-unknown s next (some c) linenum =
    apply_category-unknown s c
      (suppressed_line (category_groups (some c) ++ mark_groups next) linenum) linenum next

-- On a line without an N, or with a NOLINT or NOLINTNEXTLINE comment, ParseNolintSuppressions
-- reports an error exactly when the comment has a category in parentheses that is not * and is
-- neither in _ERROR_CATEGORIES nor in _LEGACY_ERROR_CATEGORIES. It is one error, on the line of
-- the comment, and names the category. Before the comment there is no N, and its word begins
-- there; without a category neither a character of a word nor a parenthesis follows.
pub parse_nolint_suppressions-unknown :
    (s : Suppressions) (raw_line : Text) (o : Option (Bool × Option Text)) (linenum : ℕ)
    → IsNolint raw_line o
    → (parse_nolint_suppressions s raw_line linenum).1 ≡ unknown_reports o linenum
unfolding parse_nolint_suppressions unknown_reports
parse_nolint_suppressions-unknown s raw_line none linenum h =
    rw (parse_nolint_suppressions, nolint_groups-IsNolint raw_line none h) refl
parse_nolint_suppressions-unknown s raw_line (some (next, category)) linenum h =
    rw (parse_nolint_suppressions, nolint_groups-IsNolint raw_line (some (next, category)) h)
      (apply_groups-unknown s next category linenum)
