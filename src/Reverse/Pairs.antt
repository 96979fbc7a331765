-- ===== src/Reverse/Pairs.antt =====
-- Pairs of brackets on a line, seen from the opening one and, on the mirrored line, from the closing
-- one.
use mathlib.Core.List.{append_assoc}
use c_plus_server.Base.{
  ℕ, suc, ◌+◌, true, ◌≡◌, ◌↔◌, sym, ap, ◌∙◌, [], ◌∷◌, ◌++◌, arith, length, length-append, take,
  drop, take-append-drop, take-append_length, drop-append_length, take-suc, length-take_of,
}
use c_plus_server.Text.{Text}
use c_plus_server.Expression.{closes}
use c_plus_server.Expression.Balanced.{Balanced}
use c_plus_server.Expression.Meaning.{Encloses, encloses}
use c_plus_server.Reverse.Mirror.{
  flip, mirror, closes-flip, mirror-append, mirror-mirror, length-mirror, mirror-between,
  Balanced-mirror,
}

-- Two brackets with the text between them.
abbrev pub between : ℕ → Text → ℕ → Text
between o w c = o ∷ w ++ c ∷ []

-- At `p` the line has a bracket that the one at `q` closes, and the text between is balanced.
pub data Pair (line : Text) (p q : ℕ) : Type 0 where
  pair :
      (o c : ℕ) (u w tail : Text)
      → closes o c ≡ true
      → Balanced w
      → line ≡ u ++ between o w c ++ tail
      → p ≡ length u
      → q ≡ p + length w + 1
      → Pair line p q

between-append : (o c : ℕ) (w tail : Text) → between o w c ++ tail ≡ o ∷ w ++ c ∷ tail
between-append o c w tail = append_assoc (o ∷ w) (c ∷ []) tail

length-between : (o c : ℕ) (w : Text) → length (between o w c) ≡ length w + 2
length-between o c w = omega (arith, length-append w (c ∷ []))

pub Encloses-Pair :
    (line : Text) (p q o : ℕ) (r : Text)
    → drop p line ≡ o ∷ r
    → Encloses p (drop p line) (q + 1) ↔ Pair line p q
Encloses-Pair line p q o r d = (to, from)
  where
    to : Encloses p (drop p line) (q + 1) → Pair line p q
    to (encloses o c w tail k b e m) =
        pair o c (take p line) w tail k b
          (sym (take-append-drop p line)
            ∙ ap (λ t. take p line ++ t) (e ∙ sym (between-append o c w tail))
            ∙ sym (append_assoc (take p line) (between o w c) tail))
          (sym (length-take_of p line d)) (omega arith)

    from : Pair line p q → Encloses p (drop p line) (q + 1)
    from (pair o c u w tail k b e m n) =
        encloses o c w tail k b
          (ap (drop p) (e ∙ append_assoc u (between o w c) tail)
            ∙ ap (λ n. drop n (u ++ (between o w c ++ tail))) m
            ∙ drop-append_length u (between o w c ++ tail)
            ∙ between-append o c w tail)
          (omega arith)

length-take-suc :
    (q c : ℕ) (line t : Text) → drop q line ≡ c ∷ t → length (take (suc q) line) ≡ suc q
length-take-suc q c line t d =
    ap length (take-suc q line d)
    ∙ length-append (take q line) (c ∷ [])
    ∙ omega (arith, length-take_of q line d)

mirror-between_append :
    (o c : ℕ) (w tail s : Text)
    → mirror s ≡ o ∷ w ++ c ∷ tail
    → s ≡ mirror tail ++ between (flip c) (mirror w) (flip o)
mirror-between_append o c w tail s e =
    sym (mirror-mirror s)
    ∙ ap mirror (e ∙ sym (between-append o c w tail))
    ∙ mirror-append (between o w c) tail
    ∙ ap (λ t. mirror tail ++ t) (mirror-between o c w)

length-around : (o c : ℕ) (u w : Text) → length (u ++ between o w c) ≡ length u + length w + 2
length-around o c u w = omega (arith, length-append u (between o w c), length-between o c w)

mirror-around :
    (o c : ℕ) (u w : Text) → mirror (u ++ between o w c) ≡ flip c ∷ mirror w ++ flip o ∷ mirror u
mirror-around o c u w =
    mirror-append u (between o w c)
    ∙ ap (λ t. t ++ mirror u) (mirror-between o c w)
    ∙ between-append (flip c) (flip o) (mirror w) (mirror u)

take-around : (n : ℕ) (s tail : Text) → n ≡ length s → take n (s ++ tail) ≡ s
take-around n s tail e = ap (λ m. take m (s ++ tail)) e ∙ take-append_length s tail

-- The line up to the closing bracket, mirrored.
pub mirrored-Pair :
    (line : Text) (p q a k : ℕ) (t : Text)
    → drop q line ≡ a ∷ t
    → p + k ≡ q + 1
    → Encloses 0 (mirror (take (suc q) line)) k ↔ Pair line p q
mirrored-Pair line p q a k t d n = (to, from)
  where
    to : Encloses 0 (mirror (take (suc q) line)) k → Pair line p q
    to (encloses o c w tail h b e m) =
        let whole : take (suc q) line ≡ mirror tail ++ between (flip c) (mirror w) (flip o) =
          mirror-between_append o c w tail (take (suc q) line) e in
        pair (flip c) (flip o) (mirror tail) (mirror w) (drop (suc q) line) (closes-flip o c ∙ h)
          (Balanced-mirror b)
          (sym (take-append-drop (suc q) line) ∙ ap (λ s. s ++ drop (suc q) line) whole)
          (omega (
            arith,
            length-take-suc q a line t d,
            ap length whole,
            length-around (flip c) (flip o) (mirror tail) (mirror w),
            length-mirror w,
          ))
          (omega (arith, length-mirror w))

    from : Pair line p q → Encloses 0 (mirror (take (suc q) line)) k
    from (pair o c u w tail h b e m l) =
        encloses (flip c) (flip o) (mirror w) (mirror u) (closes-flip o c ∙ h) (Balanced-mirror b)
          (ap mirror (
              ap (take (suc q)) e
              ∙ take-around (suc q) (u ++ between o w c) tail
                  (omega (arith, length-around o c u w)))
            ∙ mirror-around o c u w)
          (omega (arith, length-mirror w))
