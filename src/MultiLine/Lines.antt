-- ===== src/MultiLine/Lines.antt =====
-- Lines that are cleared, and the lines before and behind a place.
use c_plus_server.Base.{
  drop_add, ℕ, zero, suc, ◌+◌, ◌≤◌, ◌≡◌, refl, ap, ◌∙◌, subst, Bool, true, false, ◌||◌, List, [],
  ◌∷◌, length, drop, take, any, get_or, arith,
}
use c_plus_server.Text.{Text, codes}
use c_plus_server.MultiLine.{
  begins_comment, ends_comment, next_line, cleared, clear_line, clear_lines, no_end, remove_loop,
  remove_multi_line_comments, remove_multi_line_comments_from_range,
  find_next_multi_line_comment_start, find_next_multi_line_comment_end,
}

-- The lines of a file, some of which are cleared.
pub data Cleared : List Text → List Text → Type 0 where
  nil : Cleared [] []
  kept : {line : Text} {xs ys : List Text} → Cleared xs ys → Cleared (line ∷ xs) (line ∷ ys)
  gone : {line : Text} {xs ys : List Text} → Cleared xs ys → Cleared (line ∷ xs) (cleared ∷ ys)

pub all_kept : (xs : List Text) → Cleared xs xs
all_kept [] = nil
all_kept (x ∷ xs) = kept (all_kept xs)

Cleared-clear_line : (i : ℕ) {xs ys : List Text} → Cleared xs ys → Cleared xs (clear_line i ys)
unfolding clear_line
Cleared-clear_line i nil = nil
Cleared-clear_line zero (kept r) = gone r
Cleared-clear_line zero (gone r) = gone r
Cleared-clear_line (suc i) (kept r) = kept (Cleared-clear_line i r)
Cleared-clear_line (suc i) (gone r) = gone (Cleared-clear_line i r)

pub Cleared-clear_lines :
    (n i : ℕ) {xs ys : List Text} → Cleared xs ys → Cleared xs (clear_lines n i ys)
unfolding clear_lines
Cleared-clear_lines zero i r = r
Cleared-clear_lines (suc n) i r = Cleared-clear_lines n (i + 1) (Cleared-clear_line i r)

length-clear_line : (i : ℕ) (xs : List Text) → length (clear_line i xs) ≡ length xs
unfolding clear_line
length-clear_line i [] = refl
length-clear_line zero (x ∷ xs) = refl
length-clear_line (suc i) (x ∷ xs) = ap suc (length-clear_line i xs)

pub length-clear_lines : (n i : ℕ) (xs : List Text) → length (clear_lines n i xs) ≡ length xs
unfolding clear_lines
length-clear_lines zero i xs = refl
length-clear_lines (suc n) i xs =
    length-clear_lines n (i + 1) (clear_line i xs) ∙ length-clear_line i xs

cleared_begins : begins_comment cleared ≡ false
unfolding begins_comment c_plus_server.Text.starts_with codes c_plus_server.Text.strip
    c_plus_server.MultiLine.is_none c_plus_server.Text.find
cleared_begins = refl

both_false : (a b : Bool) → a || b ≡ false → (a ≡ false) × (b ≡ false)
both_false true b h = absurd cc
both_false false b h = (refl, h)

pub or_false : {a b : Bool} → a ≡ false → b ≡ false → a || b ≡ false
or_false e f = rw (e, f)

pub any-take_add :
    (p : Text → Bool) (i k : ℕ) (xs : List Text)
    → any p (take i xs) ≡ false
    → any p (take k (drop i xs)) ≡ false
    → any p (take (i + k) xs) ≡ false
any-take_add p zero k xs h g =
    let e : k ≡ zero + k = omega arith in subst (λ m. any p (take m xs) ≡ false) e g
any-take_add p (suc i) k [] h g =
    let e : suc (i + k) ≡ suc i + k = omega arith in subst (λ m. any p (take m []) ≡ false) e refl
any-take_add p (suc i) k (x ∷ xs) h g =
    let (a, b) = both_false (p x) (any p (take i xs)) h in
    let e : suc (i + k) ≡ suc i + k = omega arith in
    subst (λ m. any p (take m (x ∷ xs)) ≡ false) e (or_false a (any-take_add p i k xs b g))

pub any-take-drop :
    (p : Text → Bool) (i : ℕ) (xs : List Text)
    → any p (take i xs) ≡ false
    → any p (drop i xs) ≡ false
    → any p xs ≡ false
any-take-drop p zero xs h g = g
any-take-drop p (suc i) [] h g = refl
any-take-drop p (suc i) (x ∷ xs) h g =
    let (a, b) = both_false (p x) (any p (take i xs)) h in or_false a (any-take-drop p i xs b g)

take-clear_line :
    (i : ℕ) (xs : List Text)
    → any begins_comment (take i xs) ≡ false
    → any begins_comment (take (suc i) (clear_line i xs)) ≡ false
unfolding clear_line
take-clear_line i [] h = refl
take-clear_line zero (x ∷ xs) h = rw cleared_begins
take-clear_line (suc i) (x ∷ xs) h =
    let (a, b) = both_false (begins_comment x) (any begins_comment (take i xs)) h in
    or_false a (take-clear_line i xs b)

pub take-clear_lines :
    (n i : ℕ) (xs : List Text)
    → any begins_comment (take i xs) ≡ false
    → any begins_comment (take (i + n) (clear_lines n i xs)) ≡ false
unfolding clear_lines
take-clear_lines zero i xs h =
    let e : i ≡ i + zero = omega arith in subst (λ m. any begins_comment (take m xs) ≡ false) e h
take-clear_lines (suc n) i xs h =
    let e : (i + 1) + n ≡ i + suc n = omega arith in
    let s : suc i ≡ i + 1 = omega arith in
    let g =
      subst (λ m. any begins_comment (take m (clear_line i xs)) ≡ false) s
        (take-clear_line i xs h) in
    subst (λ m. any begins_comment (take m (clear_lines n (i + 1) (clear_line i xs))) ≡ false) e
      (take-clear_lines n (i + 1) (clear_line i xs) g)

pub any-drop_all :
    (p : Text → Bool) (i : ℕ) (xs : List Text) → length xs ≤ i → any p (drop i xs) ≡ false
any-drop_all p zero [] h = refl
any-drop_all p zero (x ∷ xs) h = absurd (omega arith)
any-drop_all p (suc i) [] h = refl
any-drop_all p (suc i) (x ∷ xs) h = any-drop_all p i xs (omega arith)

get_or-drop : (k : ℕ) (xs : List Text) → get_or (drop k xs) 0 [] ≡ get_or xs k []
get_or-drop zero [] = refl
get_or-drop zero (x ∷ xs) = refl
get_or-drop (suc k) [] = refl
get_or-drop (suc k) (x ∷ xs) = get_or-drop k xs

pub first_line :
    (i k : ℕ) (xs : List Text) → get_or (drop (i + k) xs) 0 [] ≡ get_or (drop i xs) k []
first_line i k xs = ap (λ ys. get_or ys 0 []) (drop_add i k xs) ∙ get_or-drop k (drop i xs)
