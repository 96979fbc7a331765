-- ===== src/Expression/Bounds.antt =====
-- Where CloseExpression may end, for every opening character, `<` too.
use c_plus_server.Base.{
  ℕ, zero, suc, ◌+◌, ◌≤◌, ◌<◌, Bool, true, false, ◌≡◌, refl, sym, ap, ◌∙◌, List, [], ◌∷◌, Option,
  none, some, arith, ◌⊎◌, inl, inr, subst, length, get_elem?-drop, lt-length_of_get_elem?,
  length-drop, drop, get_elem?,
}
use c_plus_server.Text.{Text}
use c_plus_server.Expression.{
  LineScan, found, gave_up, unclosed, Place, find_end_from, find_end_of_expression_in_line,
  split_at, close_on, close_from, close_expression, line_and_rest, opens_at, Scan, keep, closed,
  broken, step_forward,
}
use c_plus_server.Expression.Close.{placed}

find_end_from-bounds :
    (i : ℕ) (before rest : Text) (s : List ℕ) (p : ℕ)
    → find_end_from i before rest s ≡ found p
    → (i < p) × (p ≤ i + length rest)
unfolding find_end_from
find_end_from-bounds i before [] s p h = cc
find_end_from-bounds i before (c ∷ rest) s p h =
    go (step_forward before c s) h (λ t. find_end_from-bounds (i + 1) (c ∷ before) rest t p)
  where
    go :
        (k : Scan)
        → ◌≡◌ {A = LineScan}
            (elim k [
              | keep t ↦ find_end_from (i + 1) (c ∷ before) rest t
              | closed ↦ found (i + 1)
              | broken ↦ gave_up
            ])
            (found p)
        → ((t : List ℕ)
            → find_end_from (i + 1) (c ∷ before) rest t ≡ found p
            → (i + 1 < p) × (p ≤ i + 1 + length rest))
        → (i < p) × (p ≤ i + suc (length rest))
    go (keep t) e ih = omega (arith, ih t e)
    go closed e ih = ground arith
    go broken e ih = cc

split_at-length :
    (n : ℕ) (before line : Text) → length (split_at n before line).1 ≡ length (drop n line)
unfolding split_at
split_at-length zero before line = refl
split_at-length (suc n) before [] = refl
split_at-length (suc n) before (c ∷ line) = split_at-length n (c ∷ before) line

find_end-bounds :
    (line : Text) (pos : ℕ) (s : List ℕ) (p : ℕ)
    → find_end_of_expression_in_line line pos s ≡ found p
    → (pos < p) × (p ≤ pos + length (drop pos line))
unfolding find_end_of_expression_in_line
find_end-bounds line pos s p h =
    let b = find_end_from-bounds pos (split_at pos [] line).0 (split_at pos [] line).1 s p h in
    rw (split_at-length pos [] line) at b

-- A place in the lines `ls`, of which the first has the number `n`.
pub data Within (n : ℕ) (ls : List Text) (place : Place) (p : ℕ) : Type 0 where
  within :
      (k : ℕ)
      → place.linenum ≡ n + k
      → get_elem? ls k ≡ some place.line
      → 0 < p
      → p ≤ length place.line
      → Within n ls place p

Within-later :
    {n p : ℕ} {ls : List Text} {place : Place} (line : Text)
    → Within (n + 1) ls place p
    → Within n (line ∷ ls) place p
Within-later line (within k e g a b) = within (suc k) (omega arith) g a b

placed-Within :
    (total n : ℕ) (line : Text) (rest : List Text) (k : LineScan) (p : ℕ)
    → ((q : ℕ) → k ≡ found q → (0 < q) × (q ≤ length line))
    → ((s : List ℕ)
        → (close_on total line n s rest).pos ≡ some p
        → Within (n + 1) rest (close_on total line n s rest) p)
    → (placed total n line rest k).pos ≡ some p
    → Within n (line ∷ rest) (placed total n line rest k) p
placed-Within total n line rest (found q) p b later e =
    let (lo, hi) = b q refl in within 0 (omega arith) refl (ground arith) (ground arith)
placed-Within total n line rest gave_up p b later e = cc
placed-Within total n line rest (unclosed s) p b later e = Within-later line (later s e)

close_on-Within :
    (total n : ℕ) (line : Text) (s : List ℕ) (rest : List Text) (p : ℕ)
    → (close_on total line n s rest).pos ≡ some p
    → Within (n + 1) rest (close_on total line n s rest) p
unfolding close_on
close_on-Within total n line [] rest p h = cc
close_on-Within total n line (x ∷ s) [] p h = cc
close_on-Within total n line (x ∷ s) (next ∷ rest) p h =
    placed-Within total (n + 1) next rest (find_end_of_expression_in_line next 0 (x ∷ s)) p
      (λ q e. omega (arith, find_end-bounds next 0 (x ∷ s) q e))
      (λ s'. close_on-Within total (n + 1) next s' rest p) h

some-eq : {a b : Place} → some a ≡ some b → a ≡ b
some-eq h = cc

close_from-Within :
    (total linenum pos : ℕ) (line : Text) (rest : List Text) (place : Place) (p : ℕ)
    → close_from total line linenum pos rest ≡ some place
    → place.pos ≡ some p
    → Within linenum (line ∷ rest) place p
unfolding close_from
close_from-Within total linenum pos line rest place p h e = go (opens_at line pos) h
  where
    scan : LineScan
    scan = find_end_of_expression_in_line line pos []

    go :
        (o : Option Bool)
        → ◌≡◌ {A = Option Place}
            (elim o [
              | none ↦ none
              | some false ↦ some (record { line = line; linenum = total; pos = none })
              | some true ↦ some (placed total linenum line rest scan)
            ])
            (some place)
        → Within linenum (line ∷ rest) place p
    go none q = cc
    go (some false) q =
        let same = ap (λ (r : Place). r.pos) (some-eq q) in absurd (none-some (same ∙ e))
      where
        none-some : ◌≡◌ {A = Option ℕ} none (some p) → ⊥
        none-some x = cc
    go (some true) q =
        let same = some-eq q in
        subst (λ r. Within linenum (line ∷ rest) r p) same
          (placed-Within total linenum line rest scan p
            (λ x f. omega (arith, find_end-bounds line pos [] x f, length-drop pos line))
            (λ s. close_on-Within total linenum line s rest p) (ap (λ (r : Place). r.pos) same ∙ e))

Within-after :
    {n p : ℕ} {ls : List Text} {place : Place} → Within (n + 1) ls place p → n < place.linenum
Within-after (within k e g a b) = omega arith

none-some : {A : Type 0} {a : A} → ◌≡◌ {A = Option A} none (some a) → ⊥
none-some h = cc

close_from-ahead :
    (total linenum pos : ℕ) (line : Text) (rest : List Text) (place : Place) (p : ℕ)
    → close_from total line linenum pos rest ≡ some place
    → place.pos ≡ some p
    → (linenum < place.linenum) ⊎ (pos < p)
unfolding close_from
close_from-ahead total linenum pos line rest place p h e = go (opens_at line pos) h
  where
    ahead :
        (k : LineScan)
        → find_end_of_expression_in_line line pos [] ≡ k
        → (placed total linenum line rest k).pos ≡ some p
        → (linenum < (placed total linenum line rest k).linenum) ⊎ (pos < p)
    ahead (found q) f g =
        inr (let same : q ≡ p = cc in omega (arith, find_end-bounds line pos [] q f))
    ahead gave_up f g = absurd (none-some g)
    ahead (unclosed s) f g = inl (Within-after (close_on-Within total linenum line s rest p g))

    go :
        (o : Option Bool)
        → ◌≡◌ {A = Option Place}
            (elim o [
              | none ↦ none
              | some false ↦ some (record { line = line; linenum = total; pos = none })
              | some true ↦
                  some (placed total linenum line rest (find_end_of_expression_in_line line pos []))
            ])
            (some place)
        → (linenum < place.linenum) ⊎ (pos < p)
    go none q = cc
    go (some false) q = absurd (none-some (ap (λ (r : Place). r.pos) (some-eq q) ∙ e))
    go (some true) q =
        let same = some-eq q in
        subst (λ (r : Place). (linenum < r.linenum) ⊎ (pos < p)) same
          (ahead (find_end_of_expression_in_line line pos []) refl
            (ap (λ (r : Place). r.pos) same ∙ e))

-- The expression that was opened at `pos` ends behind it.
pub close_expression-ahead :
    (elided : List Text) (linenum pos : ℕ) (line : Text) (rest : List Text)
    → drop linenum elided ≡ line ∷ rest
    → (place : Place) (p : ℕ) → close_expression elided linenum pos ≡ some place
    → place.pos ≡ some p
    → (linenum < place.linenum) ⊎ (pos < p)
unfolding close_expression line_and_rest
close_expression-ahead elided linenum pos line rest d place p h e =
    close_from-ahead (length elided) linenum pos line rest place p
      (rw (close_expression, line_and_rest, d) at h) e

Within-bounds :
    (elided : List Text) (linenum : ℕ) (place : Place) (p : ℕ)
    → Within linenum (drop linenum elided) place p
    → (linenum ≤ place.linenum)
      × (place.linenum < length elided)
      × (get_elem? elided place.linenum ≡ some place.line)
      × (0 < p)
      × (p ≤ length place.line)
Within-bounds elided linenum place p (within k n g lo hi) =
    let at : get_elem? elided place.linenum ≡ some place.line =
      ap (get_elem? elided) n ∙ sym (get_elem?-drop linenum elided k) ∙ g in
    (omega arith, lt-length_of_get_elem? elided place.linenum at, at, lo, hi)

pub close_expression-drop :
    (elided : List Text) (linenum pos : ℕ) (place : Place) (p : ℕ)
    → close_expression elided linenum pos ≡ some place
    → place.pos ≡ some p
    → Within linenum (drop linenum elided) place p
unfolding close_expression line_and_rest
close_expression-drop elided linenum pos place p h e = go (drop linenum elided) h
  where
    go :
        (ls : List Text)
        → ◌≡◌ {A = Option Place}
            (elim (elim ls as (λ _. Option (Text × List Text)) [
              | [] ↦ none
              | l ∷ r ↦ some (l, r)
            ]) [
              | none ↦ none
              | some (line, rest) ↦ close_from (length elided) line linenum pos rest
            ])
            (some place)
        → Within linenum ls place p
    go [] q = cc
    go (l ∷ r) q = close_from-Within (length elided) linenum pos l r place p q e

-- A place that CloseExpression returns with a position lies on a line from `linenum` on that the
-- file has, the line returned is that line, and the position is past one of its characters.
pub close_expression-Within :
    (elided : List Text) (linenum pos : ℕ) (place : Place) (p : ℕ)
    → close_expression elided linenum pos ≡ some place
    → place.pos ≡ some p
    → (linenum ≤ place.linenum)
      × (place.linenum < length elided)
      × (get_elem? elided place.linenum ≡ some place.line)
      × (0 < p)
      × (p ≤ length place.line)
close_expression-Within elided linenum pos place p h e =
    Within-bounds elided linenum place p (close_expression-drop elided linenum pos place p h e)
