-- ===== src/Cleanse/Quotes.antt =====
-- The loop of _CollapseStrings ends by itself.
use c_plus_server.Base.{
  ℕ, zero, suc, ◌+◌, ◌≤◌, ◌<◌, true, Bool-cases, Option-cases, ◌≡◌, ◌≢◌, ap, inl, inr, some, [],
  ◌∷◌, length, drop, length-drop, arith,
}
use c_plus_server.Text.{Text, codes, find, text_eq}
use c_plus_server.Regex.{
  none_of, any_of, searches, match_re, search_re, group, group_text, group_of, Cursor, start, star,
  dot, word, opt, lit, lit_codes, remove_all, ◌⊙◌,
}
use c_plus_server.Regex.Sound.{Matches}
use c_plus_server.Regex.Groups.{
  match_re-Matches, length-after, capture-length, Matches-min_length, min_length,
}
use c_plus_server.Cleanse.Patterns.{
  first_quote, number_end, number_rest, re_pattern_cleanse_line_escapes,
}
use c_plus_server.Cleanse.{collapse_strings}
use c_plus_server.Cleanse.Loops.{Parts, quote_split, literal_split, collapse_from, no_fuel}

first_quote-length :
    (s : Text) (c : Cursor)
    → Matches first_quote (start s) c
    → length (group_text 1 c.groups) + length (group_text 3 c.groups) + 1 ≤ length s
unfolding dot group_text group_of min_length
first_quote-length s c (a, (_, ea), (b, mb, (d, md, (e, me, (_, ec))))) =
    let (w, lw, gw) = capture-length 1 (star (none_of (b'\'' ∷ b'"' ∷ []))) a b tt mb in
    let (u, lu, gu) = capture-length 2 (any_of (b'\'' ∷ b'"' ∷ [])) b d tt md in
    let (v, lv, gv) = capture-length 3 (star dot) d e tt me in
    let gc : c.groups ≡ e.groups = ap (λ (x : Cursor). x.groups) ec in
    let all : c.groups ≡ (3, v) ∷ (2, u) ∷ (1, w) ∷ a.groups = cc in
    rw all (
      omega (
        arith,
        length-after ea,
        length-after ec,
        Matches-min_length (group 2 (any_of (b'\'' ∷ b'"' ∷ []))) b d md,
      ))

number_rest-length :
    (s : Text) (c : Cursor)
    → Matches number_rest (start s) c
    → length (group_text 2 c.groups) ≤ length s
unfolding dot word group_text group_of lit lit_codes codes
number_rest-length s c (a, (_, ea), (b, mb, (d, md, (_, ec)))) =
    let (w, lw, gw) = capture-length 1 (star (opt (lit "'") ⊙ word)) a b (omega arith) mb in
    let (v, lv, gv) = capture-length 2 (star dot) b d tt md in
    let gc : c.groups ≡ d.groups = ap (λ (x : Cursor). x.groups) ec in
    let all : c.groups ≡ (2, v) ∷ (1, w) ∷ a.groups = cc in
    rw all (omega (arith, length-after ea, length-after ec))

quote_split-length :
    (s : Text) (p : Parts) → quote_split s ≡ some p → length p.head + length p.tail + 1 ≤ length s
unfolding quote_split
quote_split-length s p h = elim (Option-cases (match_re first_quote s)) [
  | inl e ↦ absurd (let x = rw (quote_split, e) at h in cc x)
  | inr (c, e) ↦
      let b = first_quote-length s c (match_re-Matches first_quote s c e) in
      let x = rw (quote_split, e) at h in ground arith
]

literal_split-length :
    (s digits rest : Text) → literal_split s ≡ some (digits, rest) → length rest ≤ length s
unfolding literal_split
literal_split-length s digits rest h = elim (Option-cases (match_re number_rest s)) [
  | inl e ↦ absurd (let x = rw (literal_split, e) at h in cc x)
  | inr (c, e) ↦
      let b = number_rest-length s c (match_re-Matches number_rest s c e) in
      let x = rw (literal_split, e) at h in ground arith
]

-- A text that ends in a number is not empty.
number_end-nonempty : (s : Text) → searches number_end s ≡ true → 0 < length s
number_end-nonempty [] h = absurd (no_number h)
  where
    no_number : searches number_end [] ≡ true → ⊥
    no_number e = unfold search_re lit in cc e
number_end-nonempty (x ∷ s) h = omega arith

-- What a quote closes is left out of what remains.
tail-shorter :
    (s : Text) (p : Parts) (n f : ℕ)
    → quote_split s ≡ some p
    → length s < suc f
    → length (drop n p.tail) < f
tail-shorter s p n f e h = omega (arith, quote_split-length s p e, length-drop {0} n p.tail)

rest-shorter :
    (s : Text) (p : Parts) (f : ℕ) (digits rest : Text)
    → quote_split s ≡ some p
    → length s < suc f
    → searches number_end p.head ≡ true
    → literal_split (b'\'' ∷ p.tail) ≡ some (digits, rest)
    → length rest < f
rest-shorter s p f digits rest e h n l = omega (
  arith,
  quote_split-length s p e,
  number_end-nonempty p.head n,
  literal_split-length (b'\'' ∷ p.tail) digits rest l,
)

collapse_from-fuel :
    (f : ℕ) (collapsed elided : Text)
    → length elided < f
    → collapse_from f collapsed elided ≢ no_fuel
unfolding collapse_from
collapse_from-fuel zero collapsed elided h = λ e. absurd (omega arith)
collapse_from-fuel (suc f) collapsed elided h = elim (Option-cases (quote_split elided)) [
  | inl e ↦ rw (collapse_from, e) (λ x. cc)
  | inr (p, e) ↦ elim (Bool-cases (text_eq p.middle (b'"' ∷ []))) [
    | inl q ↦ elim (Option-cases (find p.tail (b'"' ∷ []))) [
      | inl g ↦ rw (collapse_from, e, q, g) (λ x. cc)
      | inr (n, g) ↦
          rw (collapse_from, e, q, g)
            (collapse_from-fuel f _ (drop (n + 1) p.tail) (tail-shorter elided p (n + 1) f e h))
    ]
    | inr q ↦ elim (Bool-cases (searches number_end p.head)) [
      | inl k ↦ elim (Option-cases (literal_split (b'\'' ∷ p.tail))) [
        | inl g ↦ rw (collapse_from, e, q, k, g) (λ x. cc)
        | inr ((digits, rest), g) ↦
            rw (collapse_from, e, q, k, g)
              (collapse_from-fuel f _ rest (rest-shorter elided p f digits rest e h k g))
      ]
      | inr k ↦ elim (Option-cases (find p.tail (b'\'' ∷ []))) [
        | inl g ↦ rw (collapse_from, e, q, k, g) (λ x. cc)
        | inr (n, g) ↦
            rw (collapse_from, e, q, k, g)
              (collapse_from-fuel f _ (drop (n + 1) p.tail) (tail-shorter elided p (n + 1) f e h))
      ]
    ]
  ]
]

-- The loop of _CollapseStrings ends by itself on every line.
pub collapse_strings-fuel : (line : Text) → collapse_strings line ≢ no_fuel
unfolding collapse_strings
collapse_strings-fuel line = ground (
  arith,
  collapse_from-fuel (suc (length (remove_all re_pattern_cleanse_line_escapes line))) []
      (remove_all re_pattern_cleanse_line_escapes line),
)
