-- ===== src/Cleanse/Total.antt =====
-- The loops end by themselves: each round leaves a shorter line.
use c_plus_server.Base.{
  ℕ, zero, suc, ◌+◌, ◌≤◌, ◌<◌, Option-cases, ◌≡◌, ◌≢◌, refl, ap, inl, inr, Option, none, some,
  some_of, List, [], ◌∷◌, ◌++◌, length, drop, length-append, length-drop, arith,
}
use c_plus_server.Text.{Text, codes, find}
use c_plus_server.Regex.{
  match_re, group_text, group_of, Cursor, start, lazy, star, dot, lit, lit_codes,
}
use c_plus_server.Regex.Sound.{Matches}
use c_plus_server.Regex.Groups.{
  parenthesis-length, parenthesis-groups, match_re-Matches, length-after, capture-length,
  Matches-groups, Matches-min_length, min_length,
}
use c_plus_server.Cleanse.Patterns.{raw_delimiter, raw_string, raw_prefix}
use c_plus_server.Cleanse.Loops.{
  Parts, raw_start, raw_loop, raw_line, delimiter_of, empty_string, cleanse_from,
  cleanse_raw_strings,
}

raw_prefix-groups : (c d : Cursor) → Matches raw_prefix c d → d.groups ≡ c.groups
unfolding lit lit_codes codes
raw_prefix-groups c d m = Matches-groups raw_prefix c d (omega arith) m

raw_prefix-length : (c d : Cursor) → Matches raw_prefix c d → 2 + length d.after ≤ length c.after
unfolding lit lit_codes codes min_length
raw_prefix-length c d m = omega (arith, Matches-min_length raw_prefix c d m)

-- The first and the last group of a raw string take up three characters less than the line.
raw_string-length :
    (s : Text) (c : Cursor)
    → Matches raw_string (start s) c
    → length (group_text 1 c.groups) + length (group_text 3 c.groups) + 3 ≤ length s
unfolding dot group_text group_of
raw_string-length s c
      (a, (_, ea), (b, mb, (d, (_, ed), (e, me, (f, mf, (g, mg, (h, mh, (_, ec)))))))) =
    let (w, lw, gw) = capture-length 1 (lazy dot) a b tt mb in
    let (u, lu, gu) = capture-length 2 raw_delimiter e f tt mf in
    let (v, lv, gv) = capture-length 3 (star dot) g h tt mh in
    let gd : d.groups ≡ b.groups = ap (λ (x : Cursor). x.groups) ed in
    let gc : c.groups ≡ h.groups = ap (λ (x : Cursor). x.groups) ec in
    let ge = raw_prefix-groups d e me in
    let gg = parenthesis-groups f g mg in
    let all : c.groups ≡ (3, v) ∷ (2, u) ∷ (1, w) ∷ a.groups = cc in
    rw all (
      omega (
        arith,
        length-after ea,
        length-after ed,
        length-after ec,
        raw_prefix-length d e me,
        parenthesis-length f g mg,
      ))

raw_start-length :
    (line : Text) (p : Parts)
    → raw_start line ≡ some p
    → length p.head + length p.tail + 3 ≤ length line
unfolding raw_start
raw_start-length line p h = elim (Option-cases (match_re raw_string line)) [
  | inl e ↦ absurd (let x = rw (raw_start, e) at h in cc x)
  | inr (c, e) ↦
      let b = raw_string-length line c (match_re-Matches raw_string line c e) in
      let x = rw (raw_start, e) at h in ground arith
]

raw_loop-total : (f : ℕ) (line : Text) → length line < f → raw_loop f line ≢ none
unfolding raw_loop
raw_loop-total zero line h = λ e. absurd (omega arith)
raw_loop-total (suc f) line h = elim (Option-cases (raw_start line)) [
  | inl e ↦ rw (raw_loop, e) (λ x. cc)
  | inr (p, e) ↦ elim (Option-cases (find p.tail (delimiter_of p))) [
    | inl q ↦ rw (raw_loop, e, q) (λ x. cc)
    | inr (end, q) ↦
        rw (raw_loop, e, q)
          (raw_loop-total f (p.head ++ empty_string ++ drop (end + length (delimiter_of p)) p.tail)
            (omega (
              arith,
              raw_start-length line p e,
              length-append {0} (p.head ++ empty_string)
                  (drop (end + length (delimiter_of p)) p.tail),
              length-append {0} p.head empty_string,
              length-drop {0} (end + length (delimiter_of p)) p.tail,
            )))
  ]
]

raw_line-total : (delimiter : Option Text) (line : Text) → raw_line delimiter line ≢ none
unfolding raw_line
raw_line-total none line = raw_loop-total (suc (length line)) line (omega arith)
raw_line-total (some d) line = elim (Option-cases (find line d)) [
  | inl e ↦ rw (raw_line, e) (λ x. cc)
  | inr (end, e) ↦ rw (raw_line, e) (raw_loop-total _ _ (omega arith))
]

cleanse_from-length :
    (delimiter : Option Text) (lines : List Text)
    → (out : List Text) × (cleanse_from delimiter lines ≡ some out) × (length out ≡ length lines)
unfolding cleanse_from
cleanse_from-length delimiter [] = ([], refl, refl)
cleanse_from-length delimiter (line ∷ lines) =
    let ((line', delimiter'), e) =
      some_of (raw_line delimiter line) (raw_line-total delimiter line) in
    let (rest, f, g) = cleanse_from-length delimiter' lines in
    (line' ∷ rest, rw (cleanse_from, e, f), ap suc g)

-- CleanseRawStrings ends on every file, and leaves it as many lines as it had.
pub cleanse_raw_strings-length :
    (raw_lines : List Text)
    → (out : List Text) × (cleanse_raw_strings raw_lines ≡ some out)
      × (length out ≡ length raw_lines)
unfolding cleanse_raw_strings
cleanse_raw_strings-length raw_lines = cleanse_from-length none raw_lines
