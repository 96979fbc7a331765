-- ===== src/Reverse/Refine.antt =====
-- From a closing round, square or curly bracket on, the search backwards agrees with the reference
-- of Expression/Plain on the mirrored text, as the search forwards does on the text.
use c_plus_server.Base.{
  ℕ, suc, ◌+◌, Bool, true, false, ◌≡◌, refl, sym, ◌∙◌, List, [], ◌∷◌, ◌==◌, arith, map, length,
  subst, ◌||◌, if◌then◌else◌,
}
use c_plus_server.Text.{Text}
use c_plus_server.Expression.{
  is_open, is_close, Scan, keep, closed, broken, drop_angles, pop_bracket, pop_angle, end_statement,
  LineScan, found, gave_up, unclosed,
}
use c_plus_server.Expression.Plain.{plain_step, plain_end, brackets, Grounded}
use c_plus_server.Expression.Refine.{
  Agrees, pop_bracket-drop_angles, pop_angle-Agrees, end_statement-Agrees, push-Agrees,
  tentative-Agrees, drop_angles_lem,
}
use c_plus_server.Reverse.{
  BackScan, going, opened, lost, pop_close, pop_greater, end_of_statement, step_backward,
  find_start_from,
}
use c_plus_server.Expression.Balanced.{plain_end-keep, plain_step-other}
use c_plus_server.Reverse.Mirror.{flip, is_open-flip, is_close-flip, flip-angle, closes-flip}
use c_plus_server.Reverse.Operator.{Skips, step_backward-Skips, Passable}

-- A step backwards as a step on the mirrored text.
unfoldable turned : BackScan → Scan
turned (going skip stack) = keep (map flip stack)
turned opened = closed
turned lost = broken

pop_close-turned :
    (char : ℕ) (s : List ℕ) → turned (pop_close char s) ≡ pop_bracket (flip char) (map flip s)
unfolding turned pop_close pop_bracket
pop_close-turned char [] = refl
pop_close-turned char (c ∷ []) = ground (arith, closes-flip char c)
pop_close-turned char (c ∷ d ∷ s) = ground (arith, closes-flip char c)

pop_greater-turned : (s : List ℕ) → turned (pop_greater s) ≡ pop_angle b'<' (map flip s)
unfolding turned pop_greater pop_angle
pop_greater-turned [] = refl
pop_greater-turned (c ∷ []) = ground (arith, flip-angle c)
pop_greater-turned (c ∷ d ∷ s) = ground (arith, flip-angle c)

drop_angles-turned : (s : List ℕ) → map flip (drop_angles b'>' s) ≡ drop_angles b'<' (map flip s)
unfolding drop_angles
drop_angles-turned [] = refl
drop_angles-turned (c ∷ s) = ground (arith, flip-angle c, drop_angles-turned s)

end_of_statement-turned : (s : List ℕ) → turned (end_of_statement s) ≡ end_statement (map flip s)
unfolding turned end_of_statement end_statement
end_of_statement-turned [] = refl
end_of_statement-turned (c ∷ s) = refl

plain_step-flip :
    (c : ℕ) (t : List ℕ)
    → plain_step (flip c) t ≡ (
        if is_close c
        then keep (flip c ∷ t)
        else if is_open c
        then pop_bracket (flip c) t
        else keep t)
unfolding plain_step
plain_step-flip c t = rw (is_open-flip c, is_close-flip c) refl

angle_no_open : (c : ℕ) → (c == b'>') || (c == b'<') ≡ true → is_open c ≡ false
unfolding is_open
angle_no_open c h = ground arith

push-turned :
    (c : ℕ) (s : List ℕ)
    → is_close c ≡ true
    → Grounded (map flip s)
    → Agrees (turned (going false (c ∷ s))) (keep (flip c ∷ brackets (map flip s)))
unfolding turned
push-turned c s h g = push-Agrees (flip c) (map flip s) (is_open-flip c ∙ h) g

tentative-turned :
    (s : List ℕ)
    → Grounded (map flip s)
    → Agrees (turned (going false (b'>' ∷ s))) (keep (brackets (map flip s)))
unfolding turned flip
tentative-turned s g = tentative-Agrees (map flip s) g

same-turned :
    (b : Bool) (s : List ℕ)
    → Grounded (map flip s)
    → Agrees (turned (going b s)) (keep (brackets (map flip s)))
unfolding turned
same-turned b s g = (g, refl)

pop_greater-Agrees :
    (s : List ℕ)
    → Grounded (map flip s)
    → Agrees (turned (pop_greater s)) (keep (brackets (map flip s)))
pop_greater-Agrees s g = rw (pop_greater-turned s) (pop_angle-Agrees (map flip s) g)

pop_close-drop_angles :
    (c : ℕ) (s : List ℕ)
    → Grounded (map flip s)
    → Agrees
        (turned (pop_close c (drop_angles b'>' s)))
        (pop_bracket (flip c) (brackets (map flip s)))
pop_close-drop_angles c s g =
    rw (pop_close-turned c (drop_angles b'>' s), drop_angles-turned s)
      (pop_bracket-drop_angles (flip c) (map flip s) g)

end_of_statement-Agrees :
    (s : List ℕ)
    → Grounded (map flip s)
    → Agrees (turned (end_of_statement (drop_angles b'>' s))) (keep (brackets (map flip s)))
end_of_statement-Agrees s g =
    let (gd, _, e) = drop_angles_lem (map flip s) g in
    rw (end_of_statement-turned (drop_angles b'>' s), drop_angles-turned s)
      (end_statement-Agrees (drop_angles b'<' (map flip s)) (brackets (map flip s)) gd e)

step_backward-Agrees :
    (before : Text) (c : ℕ) (after : Text) (s : List ℕ)
    → Grounded (map flip s)
    → Agrees (turned (step_backward before c after s)) (plain_step (flip c) (brackets (map flip s)))
unfolding step_backward
step_backward-Agrees before c after s g = rw (plain_step-flip c (brackets (map flip s))) (
    ground (
      arith,
      push-turned c s,
      angle_no_open c,
      tentative-turned s g,
      same-turned true s g,
      same-turned false s g,
      pop_greater-Agrees s g,
      pop_close-drop_angles c s g,
      end_of_statement-Agrees s g,
    ))

-- The search in a line of `n` code points beside the reference on the mirrored line: what the one
-- finds from the front, the other finds from the end.
abbrev pub BackAgrees : ℕ → LineScan → LineScan → Type 0
BackAgrees n (found p) (found k) = p + k ≡ n
BackAgrees n gave_up gave_up = Unit
BackAgrees n (unclosed s) (unclosed t) = Grounded (map flip s) × (brackets (map flip s) ≡ t)
BackAgrees n _ _ = ⊥

regroup : (i n : ℕ) (x y : LineScan) → BackAgrees (i + 1 + n) x y → BackAgrees (i + suc n) x y
regroup i n x y a = subst (λ m. BackAgrees m x y) (omega arith) a

plain_end-pass :
    (i c : ℕ) (rest : Text) (t : List ℕ)
    → Passable (c ∷ rest)
    → plain_end i (map flip (c ∷ rest)) t ≡ plain_end (i + 1) (map flip rest) t
plain_end-pass i c rest t (h, k) =
    plain_end-keep i (flip c) (map flip rest) t t
      (plain_step-other (flip c) t (is_open-flip c ∙ k) (is_close-flip c ∙ h))

pub find_start_from-plain_end :
    (skip : Bool) (i : ℕ) (text after : Text) (s : List ℕ)
    → Grounded (map flip s)
    → (skip ≡ true → Passable text)
    → BackAgrees
        (i + length text)
        (find_start_from skip text after s)
        (plain_end i (map flip text) (brackets (map flip s)))
unfolding find_start_from plain_end turned
find_start_from-plain_end skip i [] after s g h = (g, refl)
find_start_from-plain_end true i (c ∷ text) after s g h =
    rw (plain_end-pass i c text (brackets (map flip s)) (h refl)) (
      regroup i (length text) _ _
        (find_start_from-plain_end false (i + 1) text (c ∷ after) s g (λ e. cc e)))
find_start_from-plain_end false i (c ∷ text) after s g h =
    go (step_backward text c after s) (plain_step (flip c) (brackets (map flip s)))
      (step_backward-Agrees text c after s g) (step_backward-Skips text c after s)
      (λ b. find_start_from-plain_end b (i + 1) text (c ∷ after))
  where
    go :
        (x : BackScan) (y : Scan)
        → Agrees (turned x) y
        → Skips text x
        → ((b : Bool) (s' : List ℕ)
            → Grounded (map flip s')
            → (b ≡ true → Passable text)
            → BackAgrees
                (i + 1 + length text)
                (find_start_from b text (c ∷ after) s')
                (plain_end (i + 1) (map flip text) (brackets (map flip s'))))
        → BackAgrees
            (i + suc (length text))
            (elim x [
              | going b s' ↦ find_start_from b text (c ∷ after) s'
              | opened ↦ found (length text)
              | lost ↦ gave_up
            ])
            (elim y [
              | keep t ↦ plain_end (i + 1) (map flip text) t
              | closed ↦ found (i + 1)
              | broken ↦ gave_up
            ])
    go (going false s') (keep t) (g', e) k ih =
        regroup i (length text) _ _ (rw (sym e) (ih false s' g' (λ f. cc f)))
    go (going true s') (keep t) (g', e) k ih =
        regroup i (length text) _ _ (rw (sym e) (ih true s' g' (λ f. k)))
    go opened closed a k ih = omega arith
    go lost broken a k ih = tt
    go (going b s') closed a k ih = absurd a
    go (going b s') broken a k ih = absurd a
    go opened (keep t) a k ih = absurd a
    go opened broken a k ih = absurd a
    go lost (keep t) a k ih = absurd a
    go lost closed a k ih = absurd a
