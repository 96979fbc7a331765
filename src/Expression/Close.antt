-- ===== src/Expression/Close.antt =====
-- CloseExpression over the lines of a file, beside the reference on their concatenation.
use mathlib.Core.Option
use c_plus_server.Base.{
  ℕ, suc, ◌+◌, ◌<◌, Option-cases, ◌≡◌, refl, sym, ap, ◌∙◌, inl, inr, List, [], ◌∷◌, ◌++◌, ◌==◌,
  ==-refl, if◌then◌else◌, Option, none, some, arith, length,
}
use mathlib.Core.Path.{ap₂}
use c_plus_server.Text.{Text}
use c_plus_server.Expression.{
  LineScan, found, gave_up, unclosed, Place, find_end_from, find_end_of_expression_in_line,
  close_on, Scan, keep, closed, broken,
}
use c_plus_server.Expression.Plain.{plain_step, plain_end, brackets, Grounded}
use c_plus_server.Expression.Refine.{LineAgrees, find_end_from-plain_end}

unfoldable pub flatten : List Text → Text
flatten [] = []
flatten (line ∷ rest) = line ++ flatten rest

-- A place as a distance from the start of the line with number `n`, the first of the given lines.
unfoldable pub offset : ℕ → List Text → Place → Option ℕ
offset n [] place = none
offset n (line ∷ rest) place =
    let later = offset (n + 1) rest place in
    elim place.pos [
      | none ↦ none
      | some p ↦ if place.linenum == n then some p else Option.map (λ q. length line + q) later
    ]

-- The position that a scan found.
unfoldable pub position : LineScan → Option ℕ
position (found p) = some p
position gave_up = none
position (unclosed s) = none

pub continue : ℕ → Text → LineScan → LineScan
continue i text (found p) = found p
continue i text gave_up = gave_up
continue i text (unclosed s) = plain_end i text s

pub plain_end-append :
    (i : ℕ) (a b : Text) (s : List ℕ)
    → plain_end i (a ++ b) s ≡ continue (i + length a) b (plain_end i a s)
unfolding plain_end continue
plain_end-append i [] b s = ap (λ n. plain_end n b s) (omega arith)
plain_end-append i (c ∷ a) b s = go (plain_step c s) (plain_end-append (i + 1) a b)
  where
    go :
        (k : Scan)
        → ((t : List ℕ)
            → plain_end (i + 1) (a ++ b) t ≡ continue (i + 1 + length a) b (plain_end (i + 1) a t))
        → ◌≡◌ {A = LineScan}
            (elim k [
              | keep t ↦ plain_end (i + 1) (a ++ b) t
              | closed ↦ found (i + 1)
              | broken ↦ gave_up
            ])
            (continue (i + suc (length a)) b (elim k [
              | keep t ↦ plain_end (i + 1) a t
              | closed ↦ found (i + 1)
              | broken ↦ gave_up
            ]))
    go (keep t) ih = ih t ∙ ap (λ n. continue n b (plain_end (i + 1) a t)) (omega arith)
    go closed ih = refl
    go broken ih = refl

position-shift :
    (i j : ℕ) (a : Text) (s : List ℕ)
    → position (plain_end (i + j) a s) ≡ Option.map (λ q. i + q) (position (plain_end j a s))
unfolding plain_end position
position-shift i j [] s = refl
position-shift i j (c ∷ a) s = go (plain_step c s) (position-shift i (j + 1) a)
  where
    go :
        (k : Scan)
        → ((t : List ℕ)
            → position (plain_end (i + (j + 1)) a t)
              ≡ Option.map (λ q. i + q) (position (plain_end (j + 1) a t)))
        → position (elim k [
          | keep t ↦ plain_end (i + j + 1) a t
          | closed ↦ found (i + j + 1)
          | broken ↦ gave_up
        ])
          ≡ Option.map
              (λ q. i + q)
              (position (elim k [
                | keep t ↦ plain_end (j + 1) a t
                | closed ↦ found (j + 1)
                | broken ↦ gave_up
              ]))
    go (keep t) ih = ap (λ n. position (plain_end n a t)) (omega arith) ∙ ih t
    go closed ih = ap some (omega arith)
    go broken ih = refl

-- A place found behind line `n` is not on line `n`.
close_on-later :
    (total n p : ℕ) (line : Text) (s : List ℕ) (rest : List Text)
    → (close_on total line n s rest).pos ≡ some p
    → n < (close_on total line n s rest).linenum
unfolding close_on
close_on-later total n p line [] rest h = cc
close_on-later total n p line (x ∷ s) [] h = cc
close_on-later total n p line (x ∷ s) (next ∷ rest) h =
    go (find_end_of_expression_in_line next 0 (x ∷ s)) h
      (λ s'. close_on-later total (n + 1) p next s' rest)
  where
    after : LineScan → Place
    after k = elim k [
      | found q ↦ record { line = next; linenum = n + 1; pos = some q }
      | gave_up ↦ record { line = next; linenum = total; pos = none }
      | unclosed s' ↦ close_on total next (n + 1) s' rest
    ]

    go :
        (k : LineScan)
        → (after k).pos ≡ some p
        → ((s' : List ℕ)
            → (close_on total next (n + 1) s' rest).pos ≡ some p
            → n + 1 < (close_on total next (n + 1) s' rest).linenum)
        → n < (after k).linenum
    go (found q) e ih = omega arith
    go gave_up e ih = cc
    go (unclosed s') e ih = omega (arith, ih s' e)

offset-none : (n : ℕ) (ls : List Text) (place : Place) → place.pos ≡ none → offset n ls place ≡ none
unfolding offset
offset-none n [] place e = refl
offset-none n (line ∷ rest) place e = ground arith

-- A place that is not on the first line lies behind that line's length.
offset-later :
    (n : ℕ) (line : Text) (rest : List Text) (place : Place)
    → ((p : ℕ) → place.pos ≡ some p → n < place.linenum)
    → offset n (line ∷ rest) place ≡ Option.map (λ q. length line + q) (offset (n + 1) rest place)
offset-later n line rest place h = elim (Option-cases place.pos) [
  | inl e ↦ rw (offset-none n (line ∷ rest) place e, offset-none (n + 1) rest place e)
  | inr (p, e) ↦ unfold offset in let lt = h p e in ground arith
]

offset-here :
    (n p : ℕ) (line : Text) (rest : List Text) (l : Text)
    → offset n (line ∷ rest) (record { line = l; linenum = n; pos = some p }) ≡ some p
unfolding offset
offset-here n p line rest l = rw (==-refl n)

-- The place for what was found on line `n`; an unclosed expression goes on behind it.
abbrev pub placed : ℕ → ℕ → Text → List Text → LineScan → Place
placed total n line rest k = elim k [
  | found q ↦ record { line = line; linenum = n; pos = some q }
  | gave_up ↦ record { line = line; linenum = total; pos = none }
  | unclosed s ↦ close_on total line n s rest
]

pub placed-offset :
    (total n : ℕ) (line : Text) (rest : List Text) (k m : LineScan)
    → ((s : List ℕ)
        → Grounded s
        → offset (n + 1) rest (close_on total line n s rest)
          ≡ position (plain_end 0 (flatten rest) (brackets s)))
    → LineAgrees k m
    → offset n (line ∷ rest) (placed total n line rest k)
      ≡ position (continue (length line) (flatten rest) m)
unfolding position continue
placed-offset total n line rest (found q) (found r) ih e =
    offset-here n q line rest line ∙ ap some e
placed-offset total n line rest (found q) gave_up ih a = absurd a
placed-offset total n line rest (found q) (unclosed t) ih a = absurd a
placed-offset total n line rest gave_up (found r) ih a = absurd a
placed-offset total n line rest gave_up gave_up ih a =
    offset-none n (line ∷ rest) (placed total n line rest gave_up) refl
placed-offset total n line rest gave_up (unclosed t) ih a = absurd a
placed-offset total n line rest (unclosed s) (found r) ih a = absurd a
placed-offset total n line rest (unclosed s) gave_up ih a = absurd a
placed-offset total n line rest (unclosed s) (unclosed t) ih (g, e) =
    offset-later n line rest (close_on total line n s rest)
      (λ p. close_on-later total n p line s rest)
    ∙ ap (Option.map (λ q. length line + q)) (ih s g)
    ∙ sym (position-shift (length line) 0 (flatten rest) (brackets s))
    ∙ ap₂ (λ m u. position (plain_end m (flatten rest) u)) (omega arith) e

-- Behind line `n`, the search finds what the reference finds in the concatenated lines.
pub close_on-plain_end :
    (total n : ℕ) (line : Text) (s : List ℕ) (rest : List Text)
    → Grounded s
    → offset (n + 1) rest (close_on total line n s rest)
      ≡ position (plain_end 0 (flatten rest) (brackets s))
unfolding close_on flatten offset position plain_end
close_on-plain_end total n line [] rest g = absurd g
close_on-plain_end total n line (x ∷ s) [] g = refl
close_on-plain_end total n line (x ∷ s) (next ∷ rest) g =
    placed-offset total (n + 1) next rest (find_end_from 0 [] next (x ∷ s))
      (plain_end 0 next (brackets (x ∷ s))) (λ s'. close_on-plain_end total (n + 1) next s' rest)
      (find_end_from-plain_end 0 [] next (x ∷ s) g)
    ∙ ap (λ k. position (continue k (flatten rest) (plain_end 0 next (brackets (x ∷ s)))))
        (omega arith)
    ∙ ap position (sym (plain_end-append 0 next (flatten rest) (brackets (x ∷ s))))
