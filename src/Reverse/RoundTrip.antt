-- ===== src/Reverse/RoundTrip.antt =====
-- On one line, the search backwards undoes the search forwards.
use mathlib.Core.List.{reverse-append}
use c_plus_server.Base.{
  ℕ, suc, ◌+◌, true, false, ◌≡◌, ◌↔◌, refl, sym, ap, ◌∙◌, [], ◌∷◌, arith, map, length, subst, take,
  drop, reverse, length-reverse, take-suc, length-take_of, some,
}
use c_plus_server.Text.{Text}
use c_plus_server.Expression.{
  is_open, is_close, LineScan, found, gave_up, unclosed, find_end_of_expression_in_line,
}
use c_plus_server.Expression.Plain.{plain_end}
use c_plus_server.Expression.Close.{position}
use c_plus_server.Expression.Meaning.{
  Encloses, open_no_angle, brackets-open, plain_end-open, plain_end-Encloses, ↔-trans,
  find_end-Encloses,
}
use c_plus_server.Reverse.{step_backward, going, find_start_from, find_start_of_expression_in_line}
use c_plus_server.Reverse.Mirror.{flip, is_open-flip}
use c_plus_server.Reverse.Refine.{BackAgrees, find_start_from-plain_end}
use c_plus_server.Reverse.Pairs.{Pair, pair, Encloses-Pair, mirrored-Pair}

step_backward-close :
    (before : Text) (c : ℕ) (after : Text)
    → is_close c ≡ true
    → step_backward before c after [] ≡ going false (c ∷ [])
unfolding step_backward
step_backward-close before c after h = rw h refl

find_start_from-close :
    (c : ℕ) (before after : Text)
    → is_close c ≡ true
    → find_start_from false (c ∷ before) after []
      ≡ find_start_from false before (c ∷ after) (c ∷ [])
unfolding find_start_from
find_start_from-close c before after h =
    rw (find_start_from, step_backward-close before c after h) refl

-- From a closing bracket on, beside the reference on the mirrored text.
find_start-BackAgrees :
    (c : ℕ) (before after : Text)
    → is_close c ≡ true
    → BackAgrees
        (1 + length before)
        (find_start_from false (c ∷ before) after [])
        (plain_end 0 (map flip (c ∷ before)) [])
find_start-BackAgrees c before after h =
    let opens : is_open (flip c) ≡ true = is_open-flip c ∙ h in
    rw (find_start_from-close c before after h, plain_end-open 0 (flip c) (map flip before) opens)
      (subst
        (λ s.
          BackAgrees (1 + length before) (find_start_from false before (c ∷ after) (c ∷ []))
            (plain_end (0 + 1) (map flip before) s))
        (brackets-open (flip c) opens)
        (find_start_from-plain_end false 1 before (c ∷ after) (c ∷ [])
          (open_no_angle (flip c) opens) (λ e. cc e)))

BackAgrees-found :
    (n : ℕ) (x y : LineScan) (p : ℕ)
    → BackAgrees n x y
    → (x ≡ found p) ↔ ((k : ℕ) × (p + k ≡ n) × (position y ≡ some k))
unfolding position
BackAgrees-found n (found r) (found k) p a =
    (λ e. (k, ground arith, refl), λ (m, b, e). ground arith)
BackAgrees-found n gave_up gave_up p a = (λ e. cc, λ (m, b, e). cc)
BackAgrees-found n (unclosed s) (unclosed t) p a = (λ e. cc, λ (m, b, e). cc)
BackAgrees-found n (found r) gave_up p a = absurd a
BackAgrees-found n (found r) (unclosed t) p a = absurd a
BackAgrees-found n gave_up (found r) p a = absurd a
BackAgrees-found n gave_up (unclosed t) p a = absurd a
BackAgrees-found n (unclosed s) (found r) p a = absurd a
BackAgrees-found n (unclosed s) gave_up p a = absurd a

reverse-take-suc :
    (q c : ℕ) (line t : Text)
    → drop q line ≡ c ∷ t
    → reverse (take (suc q) line) ≡ c ∷ reverse (take q line)
reverse-take-suc q c line t d =
    ap reverse (take-suc q line d) ∙ reverse-append (take q line) (c ∷ [])

-- FindStartOfExpressionInLine, called on the closing bracket at `q`, finds `p` exactly when the
-- bracket at `p` is the one that it closes: the two are of one kind and the text between them is
-- balanced.
pub find_start-Pair :
    (line : Text) (p q c : ℕ) (t : Text)
    → drop q line ≡ c ∷ t
    → is_close c ≡ true
    → (find_start_of_expression_in_line line (suc q) [] ≡ found p) ↔ Pair line p q
unfolding find_start_of_expression_in_line
find_start-Pair line p q c t d h = (to, from)
  where
    opens : is_open (flip c) ≡ true
    opens = is_open-flip c ∙ h

    text : Text
    text = reverse (take q line)

    front : reverse (take (suc q) line) ≡ c ∷ text
    front = reverse-take-suc q c line t d

    size : 1 + length text ≡ q + 1
    size = omega (arith, length-reverse (take q line), length-take_of q line d)

    agree : (find_start_of_expression_in_line line (suc q) [] ≡ found p) ↔ (
        (k : ℕ) × (p + k ≡ 1 + length text)
        × (position (plain_end 0 (map flip (c ∷ text)) []) ≡ some k))
    agree =
        subst
          (λ s. (find_start_from false s (drop (suc q) line) [] ≡ found p) ↔ (
            (k : ℕ) × (p + k ≡ 1 + length text)
            × (position (plain_end 0 (map flip (c ∷ text)) []) ≡ some k)))
          (sym front)
          (BackAgrees-found (1 + length text)
            (find_start_from false (c ∷ text) (drop (suc q) line) [])
            (plain_end 0 (map flip (c ∷ text)) []) p
            (find_start-BackAgrees c text (drop (suc q) line) h))

    to : find_start_of_expression_in_line line (suc q) [] ≡ found p → Pair line p q
    to e =
        let (k, n, m) = agree.0 e in
        (mirrored-Pair line p q c k t d (n ∙ size)).0 (
          subst (λ s. Encloses 0 (map flip s) k) (sym front)
            ((plain_end-Encloses 0 (flip c) (map flip text) k opens).0 m))

    from : Pair line p q → find_start_of_expression_in_line line (suc q) [] ≡ found p
    from (pair o c' u w tail a b e m n) =
        let total : p + (length w + 2) ≡ q + 1 = omega arith in
        agree.1 (
          length w + 2,
          total ∙ sym size,
          (plain_end-Encloses 0 (flip c) (map flip text) (length w + 2) opens).1 (
              subst (λ s. Encloses 0 (map flip s) (length w + 2)) front
                ((mirrored-Pair line p q c (length w + 2) t d total).1
                  (pair o c' u w tail a b e m n))),
        )

↔-sym : {A B : Type 0} → A ↔ B → B ↔ A
↔-sym e = (e.1, e.0)

-- From an opening bracket at `p` FindEndOfExpressionInLine returns the position behind the closing
-- bracket at `q` exactly when from the latter FindStartOfExpressionInLine returns `p`.
pub find_start-find_end :
    (line : Text) (p q o c : ℕ) (r t : Text)
    → drop p line ≡ o ∷ r
    → is_open o ≡ true
    → drop q line ≡ c ∷ t
    → is_close c ≡ true
    → (find_end_of_expression_in_line line p [] ≡ found (q + 1))
      ↔ (find_start_of_expression_in_line line (suc q) [] ≡ found p)
find_start-find_end line p q o c r t d h e k =
    ↔-trans (find_end-Encloses line p o r (q + 1) d h)
      (↔-trans (Encloses-Pair line p q o r d) (↔-sym (find_start-Pair line p q c t e k)))
