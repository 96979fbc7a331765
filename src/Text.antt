-- ===== src/Text.antt =====
-- Python's `str`: a list of code points, with the methods that cpplint.py calls on it.
use Prim.Native.Char.{code}
use Prim.Native.String.{String}
use c_plus_server.Base.{
  ℕ, zero, suc, ◌+◌, ◌-◌, ◌≡◌, refl, Bool, true, false, not, ◌&&◌, ◌||◌, Option, none, some, List,
  [], ◌∷◌, ◌++◌, reverse, leb, ltb, ◌/◌, ◌%◌, ◌==◌, if◌then◌else◌, length, arith, ◌↔◌,
}

abbrev pub Text : Type 0
Text = List ℕ

-- A literal.
unfoldable pub codes : String → Text
codes String.[] = []
codes (String.◌∷◌ c s) = code c ∷ codes s

-- `s == t`
unfoldable pub text_eq : Text → Text → Bool
text_eq [] [] = true
text_eq (x ∷ s) (y ∷ t) = x == y && text_eq s t
text_eq _ _ = false

-- `t in ts`, for a list or a set of strings
unfoldable pub text_in : Text → List Text → Bool
unfolding text_eq
text_in t [] = false
text_in t (x ∷ ts) = text_eq t x || text_in t ts

-- `s.startswith(p)`
unfoldable pub starts_with : Text → Text → Bool
starts_with s [] = true
starts_with [] (y ∷ p) = false
starts_with (x ∷ s) (y ∷ p) = x == y && starts_with s p

-- `s.endswith(p)`
unfoldable pub ends_with : Text → Text → Bool
unfolding starts_with
ends_with s p = starts_with (reverse s) (reverse p)

-- `s.find(p)`; `none` is Python's -1
unfoldable pub find : Text → Text → Option ℕ
unfolding starts_with
find [] p = if starts_with [] p then some 0 else none
find (x ∷ s) p =
    let rest = find s p in
    if starts_with (x ∷ s) p then some 0 else elim rest [ none ↦ none | some i ↦ some (i + 1) ]

-- The white space of `str.strip` and of `\s`, among the code points below 128.
unfoldable pub is_space : ℕ → Bool
is_space c = (leb 9 c && leb c 13) || (leb 28 c && leb c 32)

unfoldable pub lstrip : Text → Text
unfolding is_space
lstrip [] = []
lstrip (x ∷ s) = let rest = lstrip s in if is_space x then rest else x ∷ s

unfoldable pub rstrip : Text → Text
unfolding lstrip
rstrip s = reverse (lstrip (reverse s))

unfoldable pub strip : Text → Text
unfolding lstrip rstrip
strip s = rstrip (lstrip s)

-- `s.lower()`, on the code points below 128
unfoldable pub lower : Text → Text
lower [] = []
lower (x ∷ s) = (if leb b'A' x && leb x b'Z' then x + 32 else x) ∷ lower s

-- `s.replace(p, r)` for a non-empty `p`: left to right, the matches do not overlap. `skip` counts
-- the code points of a match that are still to be passed over.
unfoldable pub replace_from : ℕ → Text → Text → Text → Text
unfolding starts_with
replace_from skip p r [] = []
replace_from (suc skip) p r (x ∷ s) = replace_from skip p r s
replace_from zero p r (x ∷ s) =
    let hit = r ++ replace_from (length p - 1) p r s in
    let miss = x ∷ replace_from zero p r s in if starts_with (x ∷ s) p then hit else miss

unfoldable pub replace : Text → Text → Text → Text
unfolding replace_from
replace s p r = replace_from zero p r s

-- `s.count(p)` for a non-empty `p`
unfoldable pub count_from : ℕ → Text → Text → ℕ
unfolding starts_with
count_from skip p [] = 0
count_from (suc skip) p (x ∷ s) = count_from skip p s
count_from zero p (x ∷ s) =
    let hit = suc (count_from (length p - 1) p s) in
    let miss = count_from zero p s in if starts_with (x ∷ s) p then hit else miss

unfoldable pub count : Text → Text → ℕ
unfolding count_from
count s p = count_from zero p s

-- `s.split(c)` for one code point: never empty
unfoldable pub split : ℕ → Text → List Text
split c [] = [] ∷ []
split c (x ∷ s) =
    let rest = split c s in
    if x == c then [] ∷ rest else elim rest [ [] ↦ (x ∷ []) ∷ [] | w ∷ ws ↦ (x ∷ w) ∷ ws ]

-- `a > b`, by code points
unfoldable pub text_gt : Text → Text → Bool
text_gt [] t = false
text_gt (x ∷ s) [] = true
text_gt (x ∷ s) (y ∷ t) = (not (leb x y)) || (x == y && text_gt s t)

pub text_eq_iff : (s t : Text) → (text_eq s t ≡ true) ↔ (s ≡ t)
unfolding text_eq
text_eq_iff [] [] = (λ _. refl, λ _. refl)
text_eq_iff [] (y ∷ t) = (λ h. cc, λ h. cc)
text_eq_iff (x ∷ s) [] = (λ h. cc, λ h. cc)
text_eq_iff (x ∷ s) (y ∷ t) =
    (λ h. ground (arith, text_eq_iff s t), λ h. ground (arith, text_eq_iff s t))

pub text_eq_refl : (s : Text) → text_eq s s ≡ true
text_eq_refl s = (text_eq_iff s s).1 refl

-- `s[:-1]`
unfoldable pub drop_last : Text → Text
drop_last [] = []
drop_last (x ∷ []) = []
drop_last (x ∷ y ∷ s) = x ∷ drop_last (y ∷ s)

-- `s[1:]`
unfoldable pub drop_first : Text → Text
drop_first [] = []
drop_first (x ∷ s) = s

-- `'%d' % n`, on fuel that exceeds the number
unfoldable pub decimal_from : ℕ → ℕ → Text
decimal_from zero n = []
decimal_from (suc f) n =
    let rest = decimal_from f (n / 10) in
    if ltb n 10 then (b'0' + n) ∷ [] else rest ++ (b'0' + n % 10) ∷ []

unfoldable pub decimal : ℕ → Text
unfolding decimal_from
decimal n = decimal_from (suc n) n

-- `s.upper()`, on the code points below 128
unfoldable pub upper : Text → Text
upper [] = []
upper (x ∷ s) = (if leb b'a' x && leb x b'z' then x - 32 else x) ∷ upper s

-- `s.split()`; the word that has begun is given reversed
unfoldable pub words_from : Text → Text → List Text
unfolding is_space
words_from [] [] = []
words_from (w ∷ word) [] = reverse (w ∷ word) ∷ []
words_from [] (x ∷ s) =
    let next = words_from [] s in
    let begun = words_from (x ∷ []) s in if is_space x then next else begun
words_from (w ∷ word) (x ∷ s) =
    let next = reverse (w ∷ word) ∷ words_from [] s in
    let longer = words_from (x ∷ w ∷ word) s in if is_space x then next else longer

unfoldable pub words : Text → List Text
unfolding words_from
words s = words_from [] s

-- `p in s`, for texts
abbrev pub has : Text → Text → Bool
has s p = elim (find s p) [ none ↦ false | some i ↦ true ]
