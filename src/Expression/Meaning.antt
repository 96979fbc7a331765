-- ===== src/Expression/Meaning.antt =====
-- What CloseExpression means at a round, square or curly bracket.
use c_plus_server.Base.{
  length-append, length-drop, ℕ, zero, suc, ◌+◌, true, false, ◌≡◌, refl, sym, ap, ◌∙◌, List, [],
  ◌∷◌, ◌++◌, ◌==◌, none, some, arith, length, drop, subst, ◌↔◌,
}
use mathlib.Core.List.{append_assoc}
use c_plus_server.Text.{Text, codes}
use c_plus_server.Regex.{match_re, lit, lit_codes, matches}
use c_plus_server.Expression.{
  is_open, closes, LineScan, found, gave_up, unclosed, Place, find_end_from,
  find_end_of_expression_in_line, split_at, close_from, close_expression, line_and_rest, opens_at,
  keep, step_forward, shift_or_le,
}
use c_plus_server.Expression.Plain.{plain_end, brackets}
use c_plus_server.Expression.Refine.{LineAgrees, find_end_from-plain_end}
use c_plus_server.Expression.Balanced.{
  Balanced, FoundAt, found_at, last, plain_end-closed, plain_end-FoundAt, plain_end-keep,
  plain_step-open,
}
use c_plus_server.Expression.Close.{
  flatten, offset, position, close_on-plain_end, placed, placed-offset, continue, plain_end-append,
}

-- At the position `i` the text opens a bracket, and the one that closes it stands before `q`.
pub data Encloses (i : ℕ) (text : Text) (q : ℕ) : Type 0 where
  encloses :
      (o c : ℕ) (w tail : Text)
      → closes o c ≡ true
      → Balanced w
      → text ≡ o ∷ w ++ c ∷ tail
      → q ≡ i + length w + 2
      → Encloses i text q

split_at-drop : (n : ℕ) (before line : Text) → (split_at n before line).1 ≡ drop n line
unfolding split_at
split_at-drop zero before line = refl
split_at-drop (suc n) before [] = refl
split_at-drop (suc n) before (c ∷ line) = split_at-drop n (c ∷ before) line

pub open_no_angle : (o : ℕ) → is_open o ≡ true → (o == b'<') ≡ false
unfolding is_open
open_no_angle o h = ground arith

open_no_shift : (o : ℕ) (r : Text) → is_open o ≡ true → match_re shift_or_le (o ∷ r) ≡ none
unfolding match_re lit codes lit_codes
open_no_shift o r h = ground (arith, open_no_angle o h)

opens_at-open :
    (line : Text) (pos o : ℕ) (r : Text)
    → drop pos line ≡ o ∷ r
    → is_open o ≡ true
    → opens_at line pos ≡ some true
unfolding opens_at
opens_at-open line pos o r e h = rw (opens_at, e, h, matches, open_no_shift o r h)

find_end_from-keep :
    (i : ℕ) (before : Text) (c : ℕ) (rest : Text) (s t : List ℕ)
    → step_forward before c s ≡ keep t
    → find_end_from i before (c ∷ rest) s ≡ find_end_from (i + 1) (c ∷ before) rest t
unfolding find_end_from
find_end_from-keep i before c rest s t e = rw (find_end_from, e)

step_forward-open :
    (before : Text) (c : ℕ) (s : List ℕ) → is_open c ≡ true → step_forward before c s ≡ keep (c ∷ s)
unfolding step_forward
step_forward-open before c s h = rw h

pub brackets-open : (o : ℕ) → is_open o ≡ true → brackets (o ∷ []) ≡ o ∷ []
unfolding brackets
brackets-open o h = rw (open_no_angle o h)

find_end_from-open :
    (i : ℕ) (before : Text) (o : ℕ) (r : Text)
    → is_open o ≡ true
    → LineAgrees (find_end_from i before (o ∷ r) []) (plain_end i (o ∷ r) [])
find_end_from-open i before o r h =
    rw
      (
        find_end_from-keep i before o r [] (o ∷ []) (step_forward-open before o [] h),
        plain_end-keep i o r [] (o ∷ []) (plain_step-open o [] h),
      )
      (subst
        (λ s. LineAgrees (find_end_from (i + 1) (o ∷ before) r (o ∷ [])) (plain_end (i + 1) r s))
        (brackets-open o h)
        (find_end_from-plain_end (i + 1) (o ∷ before) r (o ∷ []) (open_no_angle o h)))

find_end-open :
    (line : Text) (pos o : ℕ) (r : Text)
    → drop pos line ≡ o ∷ r
    → is_open o ≡ true
    → LineAgrees (find_end_of_expression_in_line line pos []) (plain_end pos (drop pos line) [])
unfolding find_end_of_expression_in_line
find_end-open line pos o r e h =
    rw (split_at-drop pos [] line, e) (find_end_from-open pos (split_at pos [] line).0 o r h)

position-found : (k : LineScan) (q : ℕ) → position k ≡ some q → k ≡ found q
unfolding position
position-found (found p) q x = ground arith
position-found gave_up q x = cc
position-found (unclosed s) q x = cc

FoundAt-Encloses :
    (i o : ℕ) (r : Text) (q : ℕ) → FoundAt (i + 1) (o ∷ []) r q → Encloses i (o ∷ r) q
FoundAt-Encloses i o r q (found_at w tail (last _ c u k b m) n z) =
    encloses o c u tail k b
      (ap (λ t. o ∷ t) (n ∙ ap (λ t. t ++ tail) m ∙ append_assoc u (c ∷ []) tail))
      (omega (arith, length-append u (c ∷ []), ap length m))

pub plain_end-open :
    (i o : ℕ) (r : Text) → is_open o ≡ true → plain_end i (o ∷ r) [] ≡ plain_end (i + 1) r (o ∷ [])
plain_end-open i o r h = plain_end-keep i o r [] (o ∷ []) (plain_step-open o [] h)

-- What the reference finds at an opening bracket.
pub plain_end-Encloses :
    (i o : ℕ) (r : Text) (q : ℕ)
    → is_open o ≡ true
    → (position (plain_end i (o ∷ r) []) ≡ some q) ↔ Encloses i (o ∷ r) q
unfolding position
plain_end-Encloses i o r q h = (sound, complete)
  where
    sound : position (plain_end i (o ∷ r) []) ≡ some q → Encloses i (o ∷ r) q
    sound e = FoundAt-Encloses i o r q (
        plain_end-FoundAt (i + 1) r o [] (
          position-found (plain_end (i + 1) r (o ∷ [])) q
            (sym (ap position (plain_end-open i o r h)) ∙ e)))

    complete : Encloses i (o ∷ r) q → position (plain_end i (o ∷ r) []) ≡ some q
    complete (encloses p c w tail k b m z) =
        let same : o ≡ p = cc in
        let tails : r ≡ w ++ c ∷ tail = cc in
        ap position (
          plain_end-open i o r h
          ∙ ap (λ t. plain_end (i + 1) t (o ∷ [])) tails
          ∙ plain_end-closed (i + 1) o c tail b (rw same k)
          ∙ ap found (omega arith))

LineAgrees-found : (k m : LineScan) (q : ℕ) → LineAgrees k m → (k ≡ found q) ↔ (position m ≡ some q)
unfolding position
LineAgrees-found (found p) (found r) q e = (λ h. ground arith, λ h. ground arith)
LineAgrees-found gave_up gave_up q a = (λ h. cc, λ h. cc)
LineAgrees-found (unclosed s) (unclosed t) q a = (λ h. cc, λ h. cc)
LineAgrees-found (found p) gave_up q a = absurd a
LineAgrees-found (found p) (unclosed t) q a = absurd a
LineAgrees-found gave_up (found r) q a = absurd a
LineAgrees-found gave_up (unclosed t) q a = absurd a
LineAgrees-found (unclosed s) (found r) q a = absurd a
LineAgrees-found (unclosed s) gave_up q a = absurd a

pub ↔-trans : {A B C : Type 0} → A ↔ B → B ↔ C → A ↔ C
↔-trans e f = (λ a. f.0 (e.0 a), λ c. e.1 (f.1 c))

-- FindEndOfExpressionInLine, called on the bracket at `pos`, finds the position behind a bracket
-- exactly when that one closes it: the two are of one kind and the text between them is balanced.
pub find_end-Encloses :
    (line : Text) (pos o : ℕ) (r : Text) (q : ℕ)
    → drop pos line ≡ o ∷ r
    → is_open o ≡ true
    → (find_end_of_expression_in_line line pos [] ≡ found q) ↔ Encloses pos (drop pos line) q
find_end-Encloses line pos o r q e h =
    ↔-trans
      (LineAgrees-found (find_end_of_expression_in_line line pos [])
        (plain_end pos (drop pos line) []) q (find_end-open line pos o r e h))
      (rw e (plain_end-Encloses pos o r q h))

close_expression-placed :
    (elided : List Text) (linenum pos : ℕ) (line : Text) (rest : List Text) (o : ℕ) (r : Text)
    → drop linenum elided ≡ line ∷ rest
    → drop pos line ≡ o ∷ r
    → is_open o ≡ true
    → close_expression elided linenum pos
      ≡ some (placed (length elided) linenum line rest (find_end_of_expression_in_line line pos []))
unfolding close_expression line_and_rest close_from
close_expression-placed elided linenum pos line rest o r e d h =
    rw (close_expression, e, close_from, opens_at-open line pos o r d h)

-- Where CloseExpression ends, as a distance from the start of its first line, is where the reference
-- ends in the lines joined together.
placed-plain_end :
    (total linenum pos : ℕ) (line : Text) (rest : List Text) (o : ℕ) (r : Text)
    → drop pos line ≡ o ∷ r
    → is_open o ≡ true
    → offset linenum
        (line ∷ rest)
        (placed total linenum line rest (find_end_of_expression_in_line line pos []))
      ≡ position (plain_end pos (drop pos line ++ flatten rest) [])
placed-plain_end total linenum pos line rest o r d h =
    placed-offset total linenum line rest (find_end_of_expression_in_line line pos [])
      (plain_end pos (drop pos line) []) (λ s. close_on-plain_end total linenum line s rest)
      (find_end-open line pos o r d h)
    ∙ ap (λ k. position (continue k (flatten rest) (plain_end pos (drop pos line) [])))
        (omega (arith, length-drop pos line, ap length d))
    ∙ ap position (sym (plain_end-append pos (drop pos line) (flatten rest) []))

-- CloseExpression, called on the bracket at `pos` of line `linenum`, returns a place. Its distance
-- from the start of that line is `q` exactly when, in the lines joined together, the bracket before
-- `q` closes it: the two are of one kind and the text between them is balanced.
pub close_expression-Encloses :
    (elided : List Text) (linenum pos : ℕ) (line : Text) (rest : List Text) (o : ℕ) (r : Text)
    → drop linenum elided ≡ line ∷ rest
    → drop pos line ≡ o ∷ r
    → is_open o ≡ true
    → (place : Place) × (close_expression elided linenum pos ≡ some place)
      × ((q : ℕ)
          → (offset linenum (line ∷ rest) place ≡ some q)
            ↔ Encloses pos (drop pos line ++ flatten rest) q)
close_expression-Encloses elided linenum pos line rest o r e d h = (
  placed (length elided) linenum line rest (find_end_of_expression_in_line line pos []),
  close_expression-placed elided linenum pos line rest o r e d h,
  λ q.
      rw (placed-plain_end (length elided) linenum pos line rest o r d h, d)
        (plain_end-Encloses pos o (r ++ flatten rest) q h),
)
