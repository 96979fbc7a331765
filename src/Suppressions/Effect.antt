-- ===== src/Suppressions/Effect.antt =====
-- What a NOLINT comment changes.
use c_plus_server.Base.{
  ℕ, ◌+◌, Bool, true, false, ◌&&◌, ◌||◌, Option-cases, ◌≡◌, ◌≢◌, ◌∙◌, inl, inr, Option, none, some,
  List, ◌==◌, arith,
}
use c_plus_server.Text.{Text, codes, text_eq, text_in, starts_with, ends_with}
use c_plus_server.Regex.{group_of}
use c_plus_server.Suppressions.{
  Suppressions, nolint_groups, suppressed_line, suppress, inside, apply_category, apply_groups,
  parse_nolint_suppressions, same_category, listed, is_error_suppressed_by_nolint, error_categories,
}

-- The lines that a suppression of `category` on line `target` adds.
abbrev covers : Option Text → ℕ → Text → ℕ → Bool
covers none target c n = n == target
covers (some d) target c n = text_eq c d && n == target

is_suppressed-suppress :
    (d : Option Text) (target : ℕ) (s : Suppressions) (c : Text) (n : ℕ)
    → is_error_suppressed_by_nolint (suppress d target s) c n
      ≡ (is_error_suppressed_by_nolint s c n || covers d target c n)
unfolding is_error_suppressed_by_nolint suppress listed same_category
is_suppressed-suppress none target s c n = ground arith
is_suppressed-suppress (some d) target s c n = ground arith

-- What a NOLINT comment with these groups on line `linenum` covers, on line `n` in category `c`.
unfoldable pub comment_covers : List (ℕ × Text) → ℕ → Text → ℕ → Bool
comment_covers groups linenum c n =
    n == suppressed_line groups linenum && (elim (group_of 2 groups) [
      | none ↦ true
      | some category ↦
          text_eq category (codes "(*)")
          || (starts_with category (codes "(")
              && ends_with category (codes ")")
              && text_in (inside category) error_categories
              && text_eq c (inside category))
    ])

apply_category-covers :
    (s : Suppressions) (category : Text) (target linenum : ℕ) (c : Text) (n : ℕ)
    → is_error_suppressed_by_nolint (apply_category s category target linenum).0 c n ≡ (
        is_error_suppressed_by_nolint s c n
        || (n == target
            && (text_eq category (codes "(*)")
                || (starts_with category (codes "(")
                    && ends_with category (codes ")")
                    && text_in (inside category) error_categories
                    && text_eq c (inside category)))))
unfolding apply_category
apply_category-covers s category target linenum c n = ground (
  arith,
  is_suppressed-suppress none target s c n,
  is_suppressed-suppress (some (inside category)) target s c n,
)

apply_groups-covers :
    (s : Suppressions) (groups : List (ℕ × Text)) (linenum : ℕ) (c : Text) (n : ℕ)
    → is_error_suppressed_by_nolint (apply_groups s groups linenum).0 c n
      ≡ (is_error_suppressed_by_nolint s c n || comment_covers groups linenum c n)
unfolding apply_groups comment_covers
apply_groups-covers s groups linenum c n = elim (Option-cases (group_of 2 groups)) [
  | inl e ↦
      rw (e, apply_groups)
        (ground (arith, is_suppressed-suppress none (suppressed_line groups linenum) s c n))
  | inr (category, e) ↦
      rw (e, apply_groups)
        (apply_category-covers s category (suppressed_line groups linenum) linenum c n)
]

pub parse_nolint_suppressions-groups :
    (s : Suppressions) (raw_line : Text) (linenum : ℕ) (c : Text) (n : ℕ)
    → is_error_suppressed_by_nolint (parse_nolint_suppressions s raw_line linenum).0 c n ≡ (
        is_error_suppressed_by_nolint s c n || (elim (nolint_groups raw_line) [
          | none ↦ false
          | some groups ↦ comment_covers groups linenum c n
        ]))
unfolding parse_nolint_suppressions
parse_nolint_suppressions-groups s raw_line linenum c n =
    elim (Option-cases (nolint_groups raw_line)) [
      | inl e ↦ rw (e, parse_nolint_suppressions) (ground arith)
      | inr (groups, e) ↦
          rw (e, parse_nolint_suppressions) (apply_groups-covers s groups linenum c n)
    ]

comment_covers-near :
    (groups : List (ℕ × Text)) (linenum : ℕ) (c : Text) (n : ℕ)
    → n ≢ linenum
    → n ≢ linenum + 1
    → comment_covers groups linenum c n ≡ false
unfolding comment_covers suppressed_line
comment_covers-near groups linenum c n h k = ground arith

-- Parsing a line changes nothing for the errors of any line but that one and the next.
pub parse_nolint_suppressions-elsewhere :
    (s : Suppressions) (raw_line : Text) (linenum : ℕ) (c : Text) (n : ℕ)
    → n ≢ linenum
    → n ≢ linenum + 1
    → is_error_suppressed_by_nolint (parse_nolint_suppressions s raw_line linenum).0 c n
      ≡ is_error_suppressed_by_nolint s c n
parse_nolint_suppressions-elsewhere s raw_line linenum c n h k =
    elim (Option-cases (nolint_groups raw_line)) [
      | inl e ↦ rw e at (parse_nolint_suppressions-groups s raw_line linenum c n) ∙ ground arith
      | inr (groups, e) ↦
          rw (e, comment_covers-near groups linenum c n h k) at
            (parse_nolint_suppressions-groups s raw_line linenum c n)
          ∙ ground arith
    ]
