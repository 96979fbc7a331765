-- ===== src/Reverse/Bounds.antt =====
-- Where ReverseCloseExpression may end.
use c_plus_server.Base.{
  ℕ, zero, suc, ◌≤◌, ◌<◌, Bool, Bool-cases, true, false, some, none, ◌≡◌, refl, ap, inl, inr, List,
  [], ◌∷◌, ◌==◌, ◌||◌, arith, length, length-append, length-reverse, take, drop, take-append-drop,
  reverse, get_elem?, get_or, get_elem?-some, lt-length_of_get_elem?,
}
use c_plus_server.Text.{Text}
use c_plus_server.Expression.{LineScan, found, gave_up, unclosed, Place, is_close}
use c_plus_server.Reverse.{
  BackScan, going, opened, lost, step_backward, find_start_from, find_start_of_expression_in_line,
  reverse_close_on, reverse_close_at, reverse_close_expression,
}

find_start_from-found :
    (skip : Bool) (text after : Text) (s : List ℕ) (p : ℕ)
    → find_start_from skip text after s ≡ found p
    → p < length text
unfolding find_start_from
find_start_from-found skip [] after s p h = cc
find_start_from-found true (c ∷ text) after s p h =
    omega (arith, find_start_from-found false text (c ∷ after) s p h)
find_start_from-found false (c ∷ text) after s p h =
    go (step_backward text c after s) h (λ b t. find_start_from-found b text (c ∷ after) t p)
  where
    go :
        (k : BackScan)
        → ◌≡◌ {A = LineScan}
            (elim k [
              | going b t ↦ find_start_from b text (c ∷ after) t
              | opened ↦ found (length text)
              | lost ↦ gave_up
            ])
            (found p)
        → ((b : Bool) (t : List ℕ)
            → find_start_from b text (c ∷ after) t ≡ found p
            → p < length text)
        → p < suc (length text)
    go (going b t) e ih = omega (arith, ih b t e)
    go opened e ih = ground arith
    go lost e ih = cc

find_start-found :
    (line : Text) (count : ℕ) (s : List ℕ) (p : ℕ)
    → find_start_of_expression_in_line line count s ≡ found p
    → p < length line
unfolding find_start_of_expression_in_line
find_start-found line count s p h = omega (
  arith,
  find_start_from-found false (reverse (take count line)) (drop count line) s p h,
  length-reverse (take count line),
  length-append (take count line) (drop count line),
  ap length (take-append-drop count line),
)

-- The place is on no later line, and its position, if there is one, is on its line, which is the
-- line of the file with its number.
abbrev pub NotBehind : List Text → ℕ → Place → Type 0
NotBehind elided linenum place =
    (place.linenum ≤ linenum)
    × ((p : ℕ)
        → place.pos ≡ some p
        → (get_elem? elided place.linenum ≡ some place.line) × (p < length place.line))

get_or-some :
    (xs : List Text) (n : ℕ) (d : Text) → n < length xs → get_elem? xs n ≡ some (get_or xs n d)
get_or-some [] n d h = absurd (omega arith)
get_or-some (x ∷ xs) zero d h = refl
get_or-some (x ∷ xs) (suc n) d h = get_or-some xs n d (omega arith)

NotBehind-none :
    (elided : List Text) (line : Text) (linenum : ℕ)
    → NotBehind elided linenum (record { line = line; linenum = 0; pos = none })
NotBehind-none elided line linenum = (omega arith, λ p e. cc)

NotBehind-some :
    (elided : List Text) (line : Text) (linenum p : ℕ)
    → get_elem? elided linenum ≡ some line
    → p < length line
    → NotBehind elided linenum (record { line = line; linenum = linenum; pos = some p })
NotBehind-some elided line linenum p e h =
    (omega arith, λ q i. (e, let same : p ≡ q = cc in omega arith))

NotBehind-suc :
    (elided : List Text) (linenum : ℕ) (place : Place)
    → NotBehind elided linenum place
    → NotBehind elided (suc linenum) place
NotBehind-suc elided linenum place (h, k) = (omega arith, k)

reverse_close_on-NotBehind :
    (elided : List Text) (line : Text) (linenum : ℕ) (s : List ℕ)
    → linenum ≤ length elided
    → NotBehind elided linenum (reverse_close_on elided line linenum s)
unfolding reverse_close_on
reverse_close_on-NotBehind elided line linenum [] h = NotBehind-none elided line linenum
reverse_close_on-NotBehind elided line zero (c ∷ s) h = NotBehind-none elided line zero
reverse_close_on-NotBehind elided line (suc n) (c ∷ s) h =
    let above = get_or elided n [] in
    let k = find_start_of_expression_in_line above (length above) (c ∷ s) in
    go k (find_start-found above (length above) (c ∷ s))
      (λ t. reverse_close_on-NotBehind elided above n t (omega arith))
  where
    go :
        (k : LineScan)
        → ((p : ℕ) → k ≡ found p → p < length (get_or elided n []))
        → ((t : List ℕ) → NotBehind elided n (reverse_close_on elided (get_or elided n []) n t))
        → NotBehind elided (suc n) (elim k [
          | found p ↦ record { line = get_or elided n []; linenum = n; pos = some p }
          | gave_up ↦ record { line = get_or elided n []; linenum = 0; pos = none }
          | unclosed t ↦ reverse_close_on elided (get_or elided n []) n t
        ])
    go (found p) f ih = NotBehind-suc elided n _ (
        NotBehind-some elided (get_or elided n []) n p (get_or-some elided n [] (omega arith))
          (f p refl))
    go gave_up f ih = NotBehind-none elided (get_or elided n []) (suc n)
    go (unclosed t) f ih = NotBehind-suc elided n _ (ih t)

reverse_close_at-NotBehind :
    (elided : List Text) (line : Text) (linenum pos : ℕ)
    → get_elem? elided linenum ≡ some line
    → NotBehind elided linenum (reverse_close_at elided line linenum pos)
unfolding reverse_close_at
reverse_close_at-NotBehind elided line linenum pos e =
    go (find_start_of_expression_in_line line (suc pos) []) (find_start-found line (suc pos) [])
  where
    go :
        (k : LineScan)
        → ((p : ℕ) → k ≡ found p → p < length line)
        → NotBehind elided linenum (elim k [
          | found p ↦ record { line = line; linenum = linenum; pos = some p }
          | gave_up ↦ record { line = line; linenum = 0; pos = none }
          | unclosed t ↦ reverse_close_on elided line linenum t
        ])
    go (found p) f = NotBehind-some elided line linenum p e (f p refl)
    go gave_up f = NotBehind-none elided line linenum
    go (unclosed t) f =
        reverse_close_on-NotBehind elided line linenum t
          (omega (arith, lt-length_of_get_elem? elided linenum e))

-- ReverseCloseExpression, called at a character of the file, returns a place on no later line; the
-- position there, if it is one, is within its line, which is the line of the file with its number.
pub reverse_close_expression-NotBehind :
    (elided : List Text) (linenum pos : ℕ) (line : Text)
    → get_elem? elided linenum ≡ some line
    → pos < length line
    → (place : Place) × (reverse_close_expression elided linenum pos ≡ some place)
      × NotBehind elided linenum place
unfolding reverse_close_expression
reverse_close_expression-NotBehind elided linenum pos line e h =
    let (c, k) = get_elem?-some pos line h in
    elim (Bool-cases (is_close c || c == b'>')) [
      | inl b ↦ (
        reverse_close_at elided line linenum pos,
        rw (reverse_close_expression, e, k, b) refl,
        reverse_close_at-NotBehind elided line linenum pos e,
      )
      | inr b ↦ (
        record { line = line; linenum = 0; pos = none },
        rw (reverse_close_expression, e, k, b) refl,
        NotBehind-none elided line linenum,
      )
    ]
