-- ===== src/Reverse/Operator.antt =====
-- What FindStartOfExpressionInLine leaves out beside a `>` or a `<` is never a round, square or
-- curly bracket.
use mathlib.Core.List.{append_assoc, reverse-append, reverse-reverse}
use c_plus_server.Base.{
  true, false, ==_iff, Bool-cases, Option-cases, ◌≡◌, ◌⊎◌, refl, sym, ap, ◌∙◌, inl, inr, some, [],
  ◌∷◌, ◌++◌, ◌==◌, reverse, subst, arith, List, ℕ,
}
use c_plus_server.Text.{Text, codes, is_space}
use c_plus_server.Regex.{
  Cursor, Found, lit, lit_codes, space, at_end, search_re, searches, match_re, matches, start,
}
use c_plus_server.Regex.Sound.{Iter, stop, round, Matches}
use c_plus_server.Regex.Progress.{search_re-Splits, search_re-Matches, Splits, splits}
use c_plus_server.Regex.Groups.{match_re-Matches}
use c_plus_server.Expression.{
  is_open, is_close, operator_end, after_operator, preceded_by, drop_angles,
}
use c_plus_server.Reverse.{
  is_operator, greater_equal, BackScan, going, pop_close, pop_greater, end_of_statement,
  step_backward,
}

-- A text that begins with no bracket.
abbrev pub Passable : Text → Type 0
Passable [] = ⊥
Passable (c ∷ s) = (is_open c ≡ false) × (is_close c ≡ false)

space-Passable : (c : ℕ) (s : Text) → is_space c ≡ true → Passable (c ∷ s)
unfolding is_space is_open is_close
space-Passable c s h = ground arith

spaces-Passable : {c d : Cursor} → Passable c.before → Iter (Matches space) c d → Passable d.before
unfolding space
spaces-Passable h (stop c) = h
spaces-Passable {c} h (round {d = d} (x, rest, a, b, e) more) =
    spaces-Passable (rw (ap (λ (y : Cursor). y.before) e) (space-Passable x c.before b)) more

lit_codes-before :
    (w : Text) (c d : Cursor) → Matches (lit_codes w) c d → d.before ≡ reverse w ++ c.before
unfolding lit_codes
lit_codes-before [] c d m = ap (λ (y : Cursor). y.before) m
lit_codes-before (x ∷ w) c d (e, (y, rest, a, b, q), m) =
    lit_codes-before w e d m
    ∙ ap (λ (v : Cursor). reverse w ++ v.before) q
    ∙ ap (λ t. reverse w ++ t ∷ c.before) ((==_iff y x).0 b)
    ∙ sym (append_assoc (reverse w) (x ∷ []) c.before)
    ∙ ap (λ t. t ++ c.before) (sym (reverse-append (x ∷ []) w))

operator-Passable : (c d : Cursor) → Matches (lit "operator") c d → Passable d.before
unfolding lit is_open is_close
operator-Passable c d m = rw (lit_codes-before (codes "operator") c d m) (refl, refl)

operator_end-Passable :
    (c d : Cursor) → Matches operator_end c d → Passable d.before × (at_end d.after ≡ true)
operator_end-Passable c d (b, _, more) =
    let (f, m, rest) = more in
    let (g, ms, last) = rest in
    let (k, l) = last in
    (
      rw (ap (λ (y : Cursor). y.before) l) (spaces-Passable (operator-Passable b f m) ms),
      ap (λ (y : Cursor). at_end y.after) l ∙ k,
    )

at_end-cases : (s : Text) → at_end s ≡ true → (s ≡ []) ⊎ (s ≡ b'\n' ∷ [])
unfolding at_end
at_end-cases [] h = inl refl
at_end-cases (c ∷ []) h = inr (ap (λ x. x ∷ []) ((==_iff c b'\n').0 h))
at_end-cases (c ∷ d ∷ s) h = cc

newline-Passable : (s : Text) → Passable (b'\n' ∷ s)
unfolding is_open is_close
newline-Passable s = (refl, refl)

end-Passable : (s t : Text) → Passable t → at_end s ≡ true → Passable (reverse s ++ t)
end-Passable s t h k = elim (at_end-cases s k) [
  | inl e ↦ rw e h
  | inr e ↦ rw e (newline-Passable t)
]

search_re-Passable :
    (before : Text) (m : Found) → search_re operator_end (reverse before) ≡ some m → Passable before
search_re-Passable before m h =
    go (search_re-Splits operator_end (reverse before) m h)
      (operator_end-Passable m.first m.last (search_re-Matches operator_end (reverse before) m h))
  where
    go :
        Splits (reverse before) m
        → Passable m.last.before × (at_end m.last.after ≡ true)
        → Passable before
    go (splits u w a b e) (p, k) =
        subst Passable
          (ap (λ t. reverse m.last.after ++ t) e
            ∙ sym (reverse-append (u ++ w) m.last.after)
            ∙ ap reverse (sym a)
            ∙ reverse-reverse before)
          (end-Passable m.last.after m.last.before p k)

after_operator-Passable : (before : Text) → after_operator before ≡ true → Passable before
unfolding after_operator
after_operator-Passable before h = elim (Option-cases (search_re operator_end (reverse before))) [
  | inl e ↦ absurd (let x = rw (searches, e) at h in cc x)
  | inr (m, e) ↦ search_re-Passable before m e
]

greater_equal-Passable :
    (p : ℕ) (before after : Text)
    → matches greater_equal (p ∷ b'>' ∷ after) ≡ true
    → Passable (p ∷ before)
unfolding space
greater_equal-Passable p before after h =
    elim (Option-cases (match_re greater_equal (p ∷ b'>' ∷ after))) [
      | inl e ↦ absurd (let x = rw (matches, e) at h in cc x)
      | inr (m, e) ↦ go m (match_re-Matches greater_equal (p ∷ b'>' ∷ after) m e)
    ]
  where
    go : (m : Cursor) → Matches greater_equal (start (p ∷ b'>' ∷ after)) m → Passable (p ∷ before)
    go m (e, (x, rest, a, b, q), _) = let same : p ≡ x = cc in rw same (space-Passable x before b)

dash-Passable : (p : ℕ) (before : Text) → (p == b'-') ≡ true → Passable (p ∷ before)
unfolding is_open is_close
dash-Passable p before h = ground arith

is_operator-Passable : (before after : Text) → is_operator before after ≡ true → Passable before
unfolding is_operator
is_operator-Passable [] after h = cc
is_operator-Passable (p ∷ before) after h = elim (Bool-cases (p == b'-')) [
  | inl e ↦ dash-Passable p before e
  | inr e ↦ elim (Bool-cases (matches greater_equal (p ∷ b'>' ∷ after))) [
    | inl k ↦ greater_equal-Passable p before after k
    | inr k ↦ after_operator-Passable (p ∷ before) (let x = rw (e, k) at h in x)
  ]
]

preceded_by-Passable : (before : Text) → preceded_by b'<' before ≡ true → Passable before
unfolding preceded_by is_open is_close
preceded_by-Passable [] h = cc
preceded_by-Passable (p ∷ before) h = ground arith

-- A code point is left out only if it is no bracket.
abbrev pub Skips : Text → BackScan → Type 0
Skips before (going true s) = Passable before
Skips _ _ = Unit

pop_close-Skips : (before : Text) (c : ℕ) (s : List ℕ) → Skips before (pop_close c s)
unfolding pop_close
pop_close-Skips before c [] = tt
pop_close-Skips before c (d ∷ []) = ground arith
pop_close-Skips before c (d ∷ e ∷ s) = ground arith

pop_greater-Skips : (before : Text) (s : List ℕ) → Skips before (pop_greater s)
unfolding pop_greater
pop_greater-Skips before [] = tt
pop_greater-Skips before (d ∷ []) = ground arith
pop_greater-Skips before (d ∷ e ∷ s) = ground arith

end_of_statement-Skips : (before : Text) (s : List ℕ) → Skips before (end_of_statement s)
unfolding end_of_statement
end_of_statement-Skips before [] = tt
end_of_statement-Skips before (c ∷ s) = tt

pub step_backward-Skips :
    (before : Text) (c : ℕ) (after : Text) (s : List ℕ)
    → Skips before (step_backward before c after s)
unfolding step_backward
step_backward-Skips before c after s = ground (
  arith,
  is_operator-Passable before after,
  preceded_by-Passable before,
  pop_greater-Skips before s,
  pop_close-Skips before c (drop_angles b'>' s),
  end_of_statement-Skips before (drop_angles b'>' s),
)
