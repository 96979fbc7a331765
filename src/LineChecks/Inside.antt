-- ===== src/LineChecks/Inside.antt =====
-- CheckRedundantVirtual raises no IndexError: the parenthesis that it looks for is on its line.
use c_plus_server.Base.{
  ℕ, zero, suc, ◌+◌, ◌<◌, Bool, Bool-cases, Option-cases, true, false, ◌≡◌, ◌≢◌, refl, ap, inl, inr,
  Option, none, some, some_of, List, [], ◌∷◌, arith, length, length-drop, drop, drop-get_elem?,
  get_or, get_elem?,
}
use c_plus_server.Text.{Text}
use c_plus_server.Regex.{Cursor, start, match_re, group_text, group_of, star, none_of}
use c_plus_server.Regex.Sound.{Matches}
use c_plus_server.Regex.Groups.{
  parenthesis-length, parenthesis-groups, match_re-Matches, length-after, capture-length,
}
use c_plus_server.Report.{Report}
use c_plus_server.Expression.{opens_at, close_from, line_and_rest, close_expression}
use c_plus_server.LineChecks.Virtual.{
  parameter_list, find_parameters, is_virtual_base, virtual_line, check_redundant_virtual,
}

parameter_list-length :
    (s : Text) (c : Cursor)
    → Matches parameter_list (start s) c
    → length (group_text 1 c.groups) < length s
unfolding group_text group_of
parameter_list-length s c (a, (_, ea), (b, mb, mc)) =
    let (w, lw, gw) = capture-length 1 (star (none_of (b'(' ∷ []))) a b tt mb in
    let gc = parenthesis-groups b c mc in
    let all : c.groups ≡ (1, w) ∷ a.groups = cc in
    rw all (omega (arith, length-after ea, parenthesis-length b c mc))

opens_at-ne-none : (line : Text) (pos : ℕ) → pos < length line → opens_at line pos ≢ none
unfolding opens_at
opens_at-ne-none line pos h = go (drop pos line) refl
  where
    go : (t : Text) → drop pos line ≡ t → opens_at line pos ≢ none
    go [] e = absurd (omega (arith, length-drop {0} pos line, ap length e))
    go (c ∷ t) e = rw (opens_at, e) (λ q. cc)

close_from-ne-none :
    (total : ℕ) (line : Text) (linenum pos : ℕ) (rest : List Text)
    → pos < length line
    → close_from total line linenum pos rest ≢ none
unfolding close_from
close_from-ne-none total line linenum pos rest h = go (opens_at line pos) refl
  where
    go : (o : Option Bool) → opens_at line pos ≡ o → close_from total line linenum pos rest ≢ none
    go none e = absurd (opens_at-ne-none line pos h e)
    go (some false) e = rw (close_from, e) (λ q. cc)
    go (some true) e = rw (close_from, e) (λ q. cc)

close_expression-ne-none :
    (elided : List Text) (linenum pos : ℕ) (line : Text)
    → get_elem? elided linenum ≡ some line
    → pos < length line
    → close_expression elided linenum pos ≢ none
unfolding close_expression line_and_rest
close_expression-ne-none elided linenum pos line e h =
    rw (close_expression, line_and_rest, drop-get_elem? linenum elided e)
      (close_from-ne-none (length elided) line linenum pos (drop (suc linenum) elided) h)

find_parameters-ne-none :
    (n : ℕ) (elided : List Text) (start_line start_col : ℕ)
    → find_parameters n elided start_line start_col ≢ none
unfolding find_parameters
find_parameters-ne-none zero elided start_line start_col = λ q. cc
find_parameters-ne-none (suc n) elided start_line start_col =
    elim (Option-cases (get_elem? elided start_line)) [
      | inl e ↦ rw (find_parameters, e) (λ q. cc)
      | inr (line, e) ↦ elim (Option-cases (match_re parameter_list (drop start_col line))) [
        | inl f ↦
            rw (find_parameters, e, f) (find_parameters-ne-none n elided (suc start_line) zero)
        | inr (m, f) ↦
            let inside =
              parameter_list-length (drop start_col line) m
                (match_re-Matches parameter_list (drop start_col line) m f) in
            let (place, g) =
              some_of
                (close_expression elided start_line (start_col + length (group_text 1 m.groups)))
                (close_expression-ne-none elided start_line
                  (start_col + length (group_text 1 m.groups)) line e
                  (omega (arith, inside, length-drop {0} start_col line))) in
            rw (find_parameters, e, f, g) (λ q. cc)
      ]
    ]

check_redundant_virtual-ne-none :
    (elided : List Text) (linenum : ℕ) → check_redundant_virtual elided linenum ≢ none
unfolding check_redundant_virtual
check_redundant_virtual-ne-none elided linenum =
    elim (Option-cases (match_re virtual_line (get_or elided linenum []))) [
      | inl e ↦ rw (check_redundant_virtual, e) (λ q. cc)
      | inr (m, e) ↦
          let (place, f) =
            some_of (find_parameters 3 elided linenum (length (group_text 2 m.groups)))
              (find_parameters-ne-none 3 elided linenum (length (group_text 2 m.groups))) in
          elim (Bool-cases (
            is_virtual_base (group_text 1 m.groups) (group_text 3 m.groups)
              (get_or elided linenum []))) [
                | inl b ↦ rw (check_redundant_virtual, e, b) (λ q. cc)
                | inr b ↦ rw (check_redundant_virtual, e, b, f) (λ q. cc)
              ]
    ]

-- On every line of every file CheckRedundantVirtual returns and raises no error.
pub check_redundant_virtual-some :
    (elided : List Text) (linenum : ℕ)
    → (rs : List Report) × (check_redundant_virtual elided linenum ≡ some rs)
check_redundant_virtual-some elided linenum =
    some_of (check_redundant_virtual elided linenum)
      (check_redundant_virtual-ne-none elided linenum)
