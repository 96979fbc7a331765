-- ===== src/Reverse/Mirror.antt =====
-- A text read from its end, with every bracket turned round.
use mathlib.Core.List.{map-append, append_assoc, reverse-append}
use c_plus_server.Base.{
  ℕ, ◌≡◌, refl, sym, ap, ◌∙◌, [], ◌∷◌, ◌++◌, ◌==◌, reverse, arith, map, length, if◌then◌else◌,
  length-append,
}
use c_plus_server.Text.{Text}
use c_plus_server.Expression.{is_open, is_close, closes}
use c_plus_server.Expression.Balanced.{Balanced, nil, other, nest, closes-is_close}

unfoldable pub flip : ℕ → ℕ
flip c =
    if c == b'('
    then b')'
    else if c == b')'
    then b'('
    else if c == b'['
    then b']'
    else if c == b']'
    then b'['
    else if c == b'{'
    then b'}'
    else if c == b'}'
    then b'{'
    else if c == b'<'
    then b'>'
    else if c == b'>'
    then b'<'
    else c

pub flip-flip : (c : ℕ) → flip (flip c) ≡ c
unfolding flip
flip-flip c = ground arith

pub is_open-flip : (c : ℕ) → is_open (flip c) ≡ is_close c
unfolding flip is_open is_close
is_open-flip c = ground arith

pub is_close-flip : (c : ℕ) → is_close (flip c) ≡ is_open c
unfolding flip is_open is_close
is_close-flip c = ground arith

pub flip-angle : (c : ℕ) → (flip c == b'<') ≡ (c == b'>')
unfolding flip
flip-angle c = ground arith

pub closes-flip : (o c : ℕ) → closes (flip c) (flip o) ≡ closes o c
unfolding flip closes
closes-flip o c = ground arith

abbrev pub mirror : Text → Text
mirror s = map flip (reverse s)

pub mirror-append : (s t : Text) → mirror (s ++ t) ≡ mirror t ++ mirror s
mirror-append s t = ap (map flip) (reverse-append s t) ∙ map-append flip (reverse t) (reverse s)

pub mirror-mirror : (s : Text) → mirror (mirror s) ≡ s
mirror-mirror [] = refl
mirror-mirror (c ∷ s) =
    ap mirror (mirror-append (c ∷ []) s)
    ∙ mirror-append (mirror s) (flip c ∷ [])
    ∙ ap (λ d. d ∷ mirror (mirror s)) (flip-flip c)
    ∙ ap (λ t. c ∷ t) (mirror-mirror s)

pub length-mirror : (s : Text) → length (mirror s) ≡ length s
length-mirror [] = refl
length-mirror (c ∷ s) =
    ap length (mirror-append (c ∷ []) s)
    ∙ length-append (mirror s) (flip c ∷ [])
    ∙ omega (arith, length-mirror s)

pub Balanced-append : {u v : Text} → Balanced u → Balanced v → Balanced (u ++ v)
Balanced-append nil k = k
Balanced-append (other c a b h) k = other c a b (Balanced-append h k)
Balanced-append {v} (nest o c {u} {w} a b h h') k =
    rw (append_assoc u (c ∷ w) v) (nest o c a b h (Balanced-append h' k))

-- An opening bracket, a text and a closing bracket.
pub mirror-between :
    (o c : ℕ) (u : Text) → mirror (o ∷ u ++ c ∷ []) ≡ flip c ∷ mirror u ++ flip o ∷ []
mirror-between o c u =
    mirror-append (o ∷ []) (u ++ c ∷ []) ∙ ap (λ t. t ++ flip o ∷ []) (mirror-append u (c ∷ []))

pub Balanced-mirror : {w : Text} → Balanced w → Balanced (mirror w)
Balanced-mirror nil = nil
Balanced-mirror (other c {w} a b h) = rw (mirror-append (c ∷ []) w) (
    Balanced-append (Balanced-mirror h)
      (other (flip c) (is_open-flip c ∙ b) (is_close-flip c ∙ a) nil))
Balanced-mirror (nest o c {u} {w} a b hu hw) =
    rw
      (
        ap mirror (sym (append_assoc (o ∷ u) (c ∷ []) w)),
        mirror-append (o ∷ u ++ c ∷ []) w,
        mirror-between o c u,
      )
      (Balanced-append (Balanced-mirror hw) (
        nest (flip c) (flip o) (is_open-flip c ∙ (closes-is_close o c b).0) (closes-flip o c ∙ b)
          (Balanced-mirror hu) nil))
