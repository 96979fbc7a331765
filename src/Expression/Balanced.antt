-- ===== src/Expression/Balanced.antt =====
-- What the reference of Expression/Plain finds: the bracket that closes a balanced text.
use c_plus_server.Base.{
  ℕ, ◌+◌, true, false, Bool-cases, ◌≡◌, refl, ap, ◌∙◌, inl, inr, List, [], ◌∷◌, ◌++◌, arith, length,
  length-append,
}
use mathlib.Core.List.{append_assoc}
use c_plus_server.Text.{Text}
use c_plus_server.Expression.{
  is_open, is_close, closes, Scan, keep, closed, broken, pop_bracket, LineScan, found, gave_up,
}
use c_plus_server.Expression.Plain.{plain_step, plain_end}

-- Texts whose round, square and curly brackets nest; all other code points are free.
pub data Balanced : Text → Type 0 where
  nil : Balanced []
  other :
      (c : ℕ) {w : Text} → is_open c ≡ false → is_close c ≡ false → Balanced w → Balanced (c ∷ w)
  nest :
      (o c : ℕ) {u w : Text}
      → is_open o ≡ true
      → closes o c ≡ true
      → Balanced u
      → Balanced w
      → Balanced (o ∷ u ++ c ∷ w)

pub closes-is_close : (o c : ℕ) → closes o c ≡ true → (is_close c ≡ true) × (is_open c ≡ false)
unfolding closes is_close is_open
closes-is_close o c h = ground arith

plain_step-pop :
    (o c x : ℕ) (s : List ℕ) → closes o c ≡ true → plain_step c (o ∷ x ∷ s) ≡ keep (x ∷ s)
unfolding plain_step pop_bracket
plain_step-pop o c x s h = ground (arith, closes-is_close o c h)

plain_step-last : (o c : ℕ) → closes o c ≡ true → plain_step c (o ∷ []) ≡ closed
unfolding plain_step pop_bracket
plain_step-last o c h = ground (arith, closes-is_close o c h)

pub plain_step-other :
    (c : ℕ) (s : List ℕ) → is_open c ≡ false → is_close c ≡ false → plain_step c s ≡ keep s
unfolding plain_step
plain_step-other c s h k = rw (h, k)

pub plain_step-open : (c : ℕ) (s : List ℕ) → is_open c ≡ true → plain_step c s ≡ keep (c ∷ s)
unfolding plain_step
plain_step-open c s h = rw h

pub plain_end-keep :
    (i c : ℕ) (rest : Text) (s t : List ℕ)
    → plain_step c s ≡ keep t
    → plain_end i (c ∷ rest) s ≡ plain_end (i + 1) rest t
unfolding plain_end
plain_end-keep i c rest s t e = rw (plain_end, e)

-- A balanced text is passed over, on every non-empty stack.
pub plain_end-Balanced :
    {w : Text} (i : ℕ) (rest : Text) (x : ℕ) (s : List ℕ)
    → Balanced w
    → plain_end i (w ++ rest) (x ∷ s) ≡ plain_end (i + length w) rest (x ∷ s)
plain_end-Balanced i rest x s nil = ap (λ n. plain_end n rest (x ∷ s)) (omega arith)
plain_end-Balanced i rest x s (other c {w = v} h k b) =
    plain_end-keep i c (v ++ rest) (x ∷ s) (x ∷ s) (plain_step-other c (x ∷ s) h k)
    ∙ plain_end-Balanced (i + 1) rest x s b
    ∙ ap (λ n. plain_end n rest (x ∷ s)) (omega arith)
plain_end-Balanced i rest x s (nest o c {u} {w = v} h k bu bv) = rw (append_assoc u (c ∷ v) rest) (
    plain_end-keep i o (u ++ (c ∷ v ++ rest)) (x ∷ s) (o ∷ x ∷ s) (plain_step-open o (x ∷ s) h)
    ∙ plain_end-Balanced (i + 1) (c ∷ v ++ rest) o (x ∷ s) bu
    ∙ plain_end-keep (i + 1 + length u) c (v ++ rest) (o ∷ x ∷ s) (x ∷ s) (plain_step-pop o c x s k)
    ∙ plain_end-Balanced (i + 1 + length u + 1) rest x s bv
    ∙ ap (λ n. plain_end n rest (x ∷ s)) (omega (arith, length-append u (c ∷ v))))

plain_end-last :
    (i o c : ℕ) (rest : Text) → closes o c ≡ true → plain_end i (c ∷ rest) (o ∷ []) ≡ found (i + 1)
unfolding plain_end
plain_end-last i o c rest h = rw (plain_end, plain_step-last o c h)

-- The end of a bracketed text is the bracket behind its balanced inside.
pub plain_end-closed :
    {w : Text} (i o c : ℕ) (rest : Text)
    → Balanced w
    → closes o c ≡ true
    → plain_end i (w ++ c ∷ rest) (o ∷ []) ≡ found (i + length w + 1)
plain_end-closed {w} i o c rest b h =
    plain_end-Balanced i (c ∷ rest) o [] b ∙ plain_end-last (i + length w) o c rest h

-- A text that closes every bracket of a stack, the top first, and ends there.
pub data Closing : List ℕ → Text → Type 0 where
  last :
      (o c : ℕ) (u : Text) {t : Text}
      → closes o c ≡ true
      → Balanced u
      → t ≡ u ++ c ∷ []
      → Closing (o ∷ []) t
  more :
      (o c p : ℕ) (u : Text) {s : List ℕ} {v t : Text}
      → closes o c ≡ true
      → Balanced u
      → Closing (p ∷ s) v
      → t ≡ u ++ c ∷ v
      → Closing (o ∷ p ∷ s) t

Closing-other :
    (c : ℕ) {s : List ℕ} {t : Text}
    → is_open c ≡ false
    → is_close c ≡ false
    → Closing s t
    → Closing s (c ∷ t)
Closing-other c h k (last o d u e b q) = last o d (c ∷ u) e (other c h k b) (ap (λ r. c ∷ r) q)
Closing-other c h k (more o d p u e b m q) =
    more o d p (c ∷ u) e (other c h k b) m (ap (λ r. c ∷ r) q)

-- A bracket that is opened and closed in front.
Closing-nest :
    (o c : ℕ) (u : Text) {s : List ℕ} {t : Text}
    → is_open o ≡ true
    → closes o c ≡ true
    → Balanced u
    → Closing s t
    → Closing s (o ∷ u ++ c ∷ t)
Closing-nest o c u h k b (last p d v e bv q) =
    last p d (o ∷ u ++ c ∷ v) e (nest o c h k b bv) (rw (q, append_assoc u (c ∷ v) (d ∷ [])))
Closing-nest o c u h k b (more p d r v {v = t} e bv m q) =
    more p d r (o ∷ u ++ c ∷ v) e (nest o c h k b bv) m (rw (q, append_assoc u (c ∷ v) (d ∷ t)))

Closing-push :
    (c x : ℕ) {s : List ℕ} {t : Text}
    → is_open c ≡ true
    → Closing (c ∷ x ∷ s) t
    → Closing (x ∷ s) (c ∷ t)
Closing-push c x h (more o d p u e b m q) = rw q (Closing-nest o d u h e b m)

-- What is found closes the whole stack, just before the position.
pub data FoundAt (i : ℕ) (s : List ℕ) (text : Text) (p : ℕ) : Type 0 where
  found_at :
      (w rest : Text) → Closing s w → text ≡ w ++ rest → p ≡ i + length w → FoundAt i s text p

FoundAt-step :
    (c : ℕ) {i p : ℕ} {s t : List ℕ} {rest : Text}
    → ((w : Text) → Closing t w → Closing s (c ∷ w))
    → FoundAt (i + 1) t rest p
    → FoundAt i s (c ∷ rest) p
FoundAt-step c grow (found_at w r k e q) =
    found_at (c ∷ w) r (grow w k) (ap (λ v. c ∷ v) e) (omega arith)

-- What one step of the reference does, read back.
data Stepped (c x : ℕ) (s : List ℕ) : Scan → Type 0 where
  passed : is_open c ≡ false → is_close c ≡ false → Stepped c x s (keep (x ∷ s))
  pushed : is_open c ≡ true → Stepped c x s (keep (c ∷ x ∷ s))
  popped : (y : ℕ) (r : List ℕ) → s ≡ y ∷ r → closes x c ≡ true → Stepped c x s (keep (y ∷ r))
  ended : s ≡ [] → closes x c ≡ true → Stepped c x s closed
  refused : Stepped c x s broken

pop-Stepped : (c x : ℕ) (s : List ℕ) → Stepped c x s (pop_bracket c (x ∷ s))
unfolding pop_bracket
pop-Stepped c x [] = elim (Bool-cases (closes x c)) [
  | inl e ↦ rw e (ended refl e)
  | inr e ↦ rw e refused
]
pop-Stepped c x (y ∷ r) = elim (Bool-cases (closes x c)) [
  | inl e ↦ rw e (popped y r refl e)
  | inr e ↦ rw e refused
]

plain_step-Stepped : (c x : ℕ) (s : List ℕ) → Stepped c x s (plain_step c (x ∷ s))
unfolding plain_step
plain_step-Stepped c x s = elim (Bool-cases (is_open c)) [
  | inl e ↦ rw e (pushed e)
  | inr e ↦ elim (Bool-cases (is_close c)) [
    | inl k ↦ rw (e, k) (pop-Stepped c x s)
    | inr k ↦ rw (e, k) (passed e k)
  ]
]

-- A position that the reference finds closes the stack, and what stands between is balanced.
pub plain_end-FoundAt :
    (i : ℕ) (text : Text) (x : ℕ) (s : List ℕ) {p : ℕ}
    → plain_end i text (x ∷ s) ≡ found p
    → FoundAt i (x ∷ s) text p
unfolding plain_end
plain_end-FoundAt i [] x s h = cc
plain_end-FoundAt i (c ∷ rest) x s {p} h =
    go (plain_step c (x ∷ s)) (plain_step-Stepped c x s) h
      (λ y t. plain_end-FoundAt (i + 1) rest y t)
  where
    go :
        (k : Scan)
        → Stepped c x s k
        → ◌≡◌ {A = LineScan}
            (elim k [
              | keep stack' ↦ plain_end (i + 1) rest stack'
              | closed ↦ found (i + 1)
              | broken ↦ gave_up
            ])
            (found p)
        → ((y : ℕ) (t : List ℕ)
            → plain_end (i + 1) rest (y ∷ t) ≡ found p
            → FoundAt (i + 1) (y ∷ t) rest p)
        → FoundAt i (x ∷ s) (c ∷ rest) p
    go _ (passed a b) q ih = FoundAt-step c (λ w. Closing-other c a b) (ih x s q)
    go _ (pushed a) q ih = FoundAt-step c (λ w. Closing-push c x a) (ih c (x ∷ s) q)
    go _ (popped y r e a) q ih =
        FoundAt-step c (λ w k. rw e (more x c y [] a nil k refl)) (ih y r q)
    go _ (ended e a) q ih =
        found_at (c ∷ []) rest (rw e (last x c [] a nil refl)) refl (ground arith)
    go _ refused q ih = cc
