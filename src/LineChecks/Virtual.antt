-- ===== src/LineChecks/Virtual.antt =====
-- my_socket/build_support/cpplint.py, CheckRedundantVirtual.
use c_plus_server.Base.{
  ℕ, zero, suc, ◌+◌, Bool, ◌||◌, Option, none, some, List, [], ◌∷◌, ◌++◌, if◌then◌else◌, length,
  drop, get_or, get_elem?,
}
use c_plus_server.Text.{Text, codes}
use c_plus_server.Regex.{
  Regex, ◌⊙◌, bol, eol, alt, star, plus, group, lit, space, dot, set, is_word, word_boundary,
  none_of, matches, searches, match_re, search_re, group_text,
}
use c_plus_server.Report.{Report}
use c_plus_server.Expression.{Place, close_expression}
use c_plus_server.LineChecks.{line_report}
use c_plus_server.Base.{not}

-- r'^(.*)(\bvirtual\b)(.*)$'
abbrev pub virtual_line : Regex
virtual_line =
    bol
    ⊙ group 1 (star dot)
    ⊙ group 2 (word_boundary ⊙ lit "virtual" ⊙ word_boundary)
    ⊙ group 3 (star dot)
    ⊙ eol

abbrev access_specifier : Regex
access_specifier = group 1 (alt (lit "public") (alt (lit "protected") (lit "private")))

-- The `virtual` of a base class: near an access specifier, or with a single colon on the line.
unfoldable pub is_virtual_base : Text → Text → Text → Bool
is_virtual_base front back line =
    searches (word_boundary ⊙ access_specifier ⊙ plus space ⊙ eol) front
    || matches (bol ⊙ plus space ⊙ access_specifier ⊙ word_boundary) back
    || matches
        (bol ⊙ star dot ⊙ none_of (b':' ∷ []) ⊙ lit ":" ⊙ none_of (b':' ∷ []) ⊙ star dot ⊙ eol) line

-- r'^([^(]*)\('
abbrev pub parameter_list : Regex
parameter_list = bol ⊙ group 1 (star (none_of (b'(' ∷ []))) ⊙ lit "("

-- The end of the parameter list that begins on one of `n` lines; `some none` if none does, and
-- `none` is an IndexError of CloseExpression.
unfoldable pub find_parameters : ℕ → List Text → ℕ → ℕ → Option (Option Place)
find_parameters zero elided start_line start_col = some none
find_parameters (suc n) elided start_line start_col = elim (get_elem? elided start_line) [
  | none ↦ some none
  | some line ↦ elim (match_re parameter_list (drop start_col line)) [
    | none ↦ find_parameters n elided (suc start_line) zero
    | some m ↦
        elim (close_expression elided start_line (start_col + length (group_text 1 m.groups))) [
          | none ↦ none
          | some place ↦ some (some place)
        ]
  ]
]

-- r'\b(override|final)\b'
abbrev override_or_final : Regex
override_or_final = word_boundary ⊙ group 1 (alt (lit "override") (lit "final")) ⊙ word_boundary

-- r'[^\w]\s*$'
abbrev line_break : Regex
line_break = set (λ c. not (is_word c)) ⊙ star space ⊙ eol

unfoldable pub virtual_report : ℕ → Text → List Report
virtual_report linenum line = elim (search_re override_or_final line) [
  | none ↦ []
  | some m ↦
      line_report linenum (codes "readability/inheritance") 4 (
        codes "\"virtual\" is redundant since function is "
        ++ (codes "already declared as \"" ++ (group_text 1 m.last.groups ++ codes "\"")))
      ∷ []
]

-- The search behind the parameter list, on at most `n` lines.
unfoldable pub virtual_reports : ℕ → List Text → ℕ → ℕ → ℕ → List Report
unfolding virtual_report
virtual_reports zero elided linenum i end_col = []
virtual_reports (suc n) elided linenum i end_col = elim (get_elem? elided i) [
  | none ↦ []
  | some text ↦
      let line = drop end_col text in
      let more = virtual_reports n elided linenum (suc i) zero in
      virtual_report linenum line ++ (if searches line_break line then [] else more)
]

unfoldable pub behind_parameters : List Text → ℕ → Option Place → List Report
unfolding virtual_reports
behind_parameters elided linenum none = []
behind_parameters elided linenum (some place) = elim place.pos [
  | none ↦ []
  | some end_col ↦ virtual_reports 3 elided linenum place.linenum end_col
]

-- On the lines of a CleansedLines, whose number is NumLines; `none` is an IndexError.
unfoldable pub check_redundant_virtual : List Text → ℕ → Option (List Report)
unfolding is_virtual_base find_parameters behind_parameters
check_redundant_virtual elided linenum =
    let line = get_or elided linenum [] in
    elim (match_re virtual_line line) [
      | none ↦ some []
      | some virtual ↦
          if is_virtual_base (group_text 1 virtual.groups) (group_text 3 virtual.groups) line
          then some []
          else elim (find_parameters 3 elided linenum (length (group_text 2 virtual.groups))) [
            | none ↦ none
            | some place ↦ some (behind_parameters elided linenum place)
          ]
    ]
