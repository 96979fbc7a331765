-- ===== src/Cleanse/Returns.antt =====
-- _CollapseStrings raises no error: what is behind the quote of a number is matched.
use c_plus_server.Base.{
  ℕ, zero, suc, ◌+◌, Bool, Bool-cases, Option-cases, true, not, ◌==◌, ◌≡◌, ◌≢◌, ◌-◌, take, refl,
  sym, ap, ◌∙◌, inl, inr, none, some, some_of, List, [], ◌∷◌, all, arith, length, drop, reverse,
}
use c_plus_server.Text.{Text, find, text_eq}
use c_plus_server.Regex.{
  set, group, star, eol, searches, match_re, group_text, group_of, Cursor, start, capture, run,
  is_empty, remove_all, dot, word, opt, lit, ◌⊙◌,
}
use c_plus_server.Regex.Sound.{Matches, Iter, stop, round, Takes, takes, Takes-trans}
use c_plus_server.Regex.Groups.{match_re-Matches, captured}
use c_plus_server.Regex.Finds.{run-star, run-dots}
use c_plus_server.Cleanse.Patterns.{
  first_quote, number_end, number_rest, re_pattern_cleanse_line_escapes,
}
use c_plus_server.Cleanse.{CleansedLines, collapse_strings, elide, cleansed_lines, cleanse_comments}
use c_plus_server.Cleanse.Loops.{
  Parts, Outcome, done, attribute_error, no_fuel, quote_split, literal_split, collapse_from,
}
use c_plus_server.Cleanse.Total.{cleanse_raw_strings-length}
use c_plus_server.Cleanse.Quotes.{collapse_strings-fuel}

abbrev no_newline : ℕ → Bool
no_newline c = not (c == b'\n')

-- The rounds of a set take characters of the set.
Iter-all :
    (p : ℕ → Bool) {c d : Cursor}
    → Iter (Matches (set p)) c d
    → (w : Text) × Takes w c d × (all p w ≡ true)
Iter-all p (stop c) = ([], takes refl refl, refl)
Iter-all p (round {c} {d} (x, rest, a, px, e) ms) =
    let (w, t, h) = Iter-all p ms in
    (
      x ∷ w,
      Takes-trans (x ∷ []) w
          (takes (a ∙ ap (λ (y : Cursor). x ∷ y.after) (sym e)) (ap (λ (y : Cursor). y.before) e))
          t,
      rw px h,
    )

last_group :
    (p : ℕ → Bool) (c e d : Cursor)
    → Iter (Matches (set p)) c e
    → d ≡ capture 3 c e
    → all p (group_text 3 d.groups) ≡ true
unfolding group_text group_of
last_group p c e d m q = let (w, t, h) = Iter-all p m in rw q (go w t h)
  where
    go :
        (w : Text)
        → Takes w c e
        → all p w ≡ true
        → all p (reverse (take (length e.before - length c.before) e.before)) ≡ true
    go w (takes a b) h = rw (captured w e.before c b) h

first_quote-tail :
    (s : Text) (c : Cursor)
    → Matches first_quote (start s) c
    → all no_newline (group_text 3 c.groups) ≡ true
unfolding dot
first_quote-tail s c (a, (_, ea), (b, mb, (d, md, (e, (f, mf, q), (_, ec))))) =
    last_group no_newline d f c mf (ec ∙ q)

quote_split-tail : (s : Text) (p : Parts) → quote_split s ≡ some p → all no_newline p.tail ≡ true
unfolding quote_split
quote_split-tail s p h = elim (Option-cases (match_re first_quote s)) [
  | inl e ↦ absurd (let x = rw (quote_split, e) at h in cc x)
  | inr (c, e) ↦
      let b = first_quote-tail s c (match_re-Matches first_quote s c e) in
      let x = rw (quote_split, e) at h in ground arith
]

number_rest-matches : (s : Text) → all no_newline s ≡ true → match_re number_rest s ≢ none
unfolding match_re run dot is_empty
number_rest-matches s h =
    run-star 1 (opt (lit "'") ⊙ word) (group 2 (star dot) ⊙ eol) some (start s)
      (run-dots 2 no_newline (capture 1 (start s) (start s)) h)

literal_split-ne-none : (s : Text) → all no_newline s ≡ true → literal_split s ≢ none
unfolding literal_split
literal_split-ne-none s h =
    let (c, e) = some_of (match_re number_rest s) (number_rest-matches s h) in
    rw (literal_split, e) (λ q. cc)

collapse_from-error :
    (f : ℕ) (collapsed elided : Text) → collapse_from f collapsed elided ≢ attribute_error
unfolding collapse_from
collapse_from-error zero collapsed elided = λ e. cc
collapse_from-error (suc f) collapsed elided = elim (Option-cases (quote_split elided)) [
  | inl e ↦ rw (collapse_from, e) (λ x. cc)
  | inr (p, e) ↦ elim (Bool-cases (text_eq p.middle (b'"' ∷ []))) [
    | inl q ↦ elim (Option-cases (find p.tail (b'"' ∷ []))) [
      | inl g ↦ rw (collapse_from, e, q, g) (λ x. cc)
      | inr (n, g) ↦ rw (collapse_from, e, q, g) (collapse_from-error f _ (drop (n + 1) p.tail))
    ]
    | inr q ↦ elim (Bool-cases (searches number_end p.head)) [
      | inl k ↦
          let ((digits, rest), g) =
            some_of (literal_split (b'\'' ∷ p.tail))
              (literal_split-ne-none (b'\'' ∷ p.tail) (quote_split-tail elided p e)) in
          rw (collapse_from, e, q, k, g) (collapse_from-error f _ rest)
      | inr k ↦ elim (Option-cases (find p.tail (b'\'' ∷ []))) [
        | inl g ↦ rw (collapse_from, e, q, k, g) (λ x. cc)
        | inr (n, g) ↦
            rw (collapse_from, e, q, k, g) (collapse_from-error f _ (drop (n + 1) p.tail))
      ]
    ]
  ]
]

collapse_strings-error : (line : Text) → collapse_strings line ≢ attribute_error
unfolding collapse_strings
collapse_strings-error line = ground (
  arith,
  collapse_from-error (suc (length (remove_all re_pattern_cleanse_line_escapes line))) []
      (remove_all re_pattern_cleanse_line_escapes line),
)

-- On every line the loop of _CollapseStrings ends and raises no error: where a number stands before a
-- single quote, the search for its other digits succeeds.
pub collapse_strings-done : (line : Text) → (t : Text) × (collapse_strings line ≡ done t)
collapse_strings-done line = go (collapse_strings line) refl
  where
    go : (o : Outcome) → collapse_strings line ≡ o → (t : Text) × (collapse_strings line ≡ done t)
    go (done t) e = (t, e)
    go attribute_error e = absurd (collapse_strings-error line e)
    go no_fuel e = absurd (collapse_strings-fuel line e)

elide-some : (lines : List Text) → (out : List Text) × (elide lines ≡ some out)
unfolding elide
elide-some [] = ([], refl)
elide-some (line ∷ lines) =
    let (t, e) = collapse_strings-done line in
    let (rest, f) = elide-some lines in (cleanse_comments t ∷ rest, rw (elide, e, f) refl)

-- The copies of a file without comments and strings exist for every file.
pub cleansed_lines-some :
    (raw_lines : List Text) → (c : CleansedLines) × (cleansed_lines raw_lines ≡ some c)
unfolding cleansed_lines
cleansed_lines-some raw_lines =
    let (without, e, _) = cleanse_raw_strings-length raw_lines in
    let (elided, f) = elide-some without in
    some_of (cleansed_lines raw_lines) (rw (cleansed_lines, e, f) (λ q. cc))
