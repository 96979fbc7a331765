-- ===== src/FileChecks/Ending.antt =====
-- CheckForNewlineAtEOF on the lines that a file is split into.
use c_plus_server.Base.{
  ℕ, suc, ◌-◌, ◌≡◌, refl, sym, ap, ◌∙◌, ◌↔◌, Bool, Bool-cases, true, false, inl, inr, List, [], ◌∷◌,
  ◌++◌, ◌==◌, ltb, length, length-append, get_or, arith,
}
use c_plus_server.Text.{Text, split}
use c_plus_server.FileChecks.{check_for_newline_at_eof, last_but_one, is_empty}

-- The text is empty or its last character is a newline.
unfoldable pub ends_in_newline : Text → Bool
ends_in_newline [] = true
ends_in_newline (c ∷ []) = c == b'\n'
ends_in_newline (c ∷ d ∷ s) = ends_in_newline (d ∷ s)

-- The list that ProcessFileData hands to its checks: the lines between two markers.
abbrev pub marked : Text → Text → List Text → List Text
marked first last lines = first ∷ lines ++ last ∷ []

last_of : List Text → Text
last_of [] = []
last_of (l ∷ []) = l
last_of (l ∷ m ∷ ls) = last_of (m ∷ ls)

get_or-last_of :
    (last l : Text) (ls : List Text)
    → get_or (l ∷ ls ++ last ∷ []) (length ls) [] ≡ last_of (l ∷ ls)
unfolding last_of
get_or-last_of last l [] = refl
get_or-last_of last l (m ∷ ls) = get_or-last_of last m ls

last_but_one-marked :
    (first last l : Text) (ls : List Text)
    → last_but_one (marked first last (l ∷ ls)) ≡ last_of (l ∷ ls)
last_but_one-marked first last l ls =
    let e : length (marked first last (l ∷ ls)) - 2 ≡ suc (length ls) =
      omega (arith, length-append {0} ls (last ∷ [])) in
    ap (λ n. get_or (marked first last (l ∷ ls)) n []) e ∙ get_or-last_of last l ls

-- How the lines of a text end, by whether there is one or more.
data Lines (s : Text) : List Text → Type 0 where
  one : is_empty s ≡ ends_in_newline s → Lines s (s ∷ [])
  more :
      (l m : Text) (ls : List Text)
      → is_empty s ≡ false
      → is_empty (last_of (m ∷ ls)) ≡ ends_in_newline s
      → Lines s (l ∷ m ∷ ls)

Lines-at :
    (x : ℕ) (s : Text) {ls : List Text} → Lines s ls → (x == b'\n') ≡ true → Lines (x ∷ s) ([] ∷ ls)
unfolding ends_in_newline last_of
Lines-at x [] (one h) e = more [] [] [] refl (sym e)
Lines-at x (d ∷ s) (one h) e = more [] (d ∷ s) [] refl h
Lines-at x [] (more l m ls f h) e = absurd (cc f)
Lines-at x (d ∷ s) (more l m ls f h) e = more [] l (m ∷ ls) refl h

-- the first line with one more character
abbrev longer : ℕ → List Text → List Text
longer x ls = elim ls [ [] ↦ (x ∷ []) ∷ [] | w ∷ ws ↦ (x ∷ w) ∷ ws ]

Lines-longer :
    (x : ℕ) (s : Text) {ls : List Text}
    → Lines s ls
    → (x == b'\n') ≡ false
    → Lines (x ∷ s) (longer x ls)
unfolding ends_in_newline last_of
Lines-longer x [] (one h) e = one (sym e)
Lines-longer x (d ∷ s) (one h) e = one h
Lines-longer x [] (more l m ls f h) e = absurd (cc f)
Lines-longer x (d ∷ s) (more l m ls f h) e = more (x ∷ l) m ls refl h

split-Lines : (s : Text) → Lines s (split b'\n' s)
unfolding split ends_in_newline
split-Lines [] = one refl
split-Lines (x ∷ s) = elim (Bool-cases (x == b'\n')) [
  | inl e ↦ rw (split, e) (Lines-at x s (split-Lines s) e)
  | inr e ↦ rw (split, e) (Lines-longer x s (split-Lines s) e)
]

last_but_one-Lines :
    (first last s : Text) {ls : List Text}
    → Lines s ls
    → (is_empty (last_but_one (marked first last ls)) ≡ ends_in_newline s)
      × (ltb (length (marked first last ls)) 3 ≡ false)
unfolding last_of
last_but_one-Lines first last s (one h) = (h, refl)
last_but_one-Lines first last s (more l m ls f h) =
    let few : ltb (length (marked first last (l ∷ m ∷ ls))) 3 ≡ false = ground arith in
    (ap is_empty (last_but_one-marked first last l (m ∷ ls)) ∙ h, few)

-- For a text split at its newlines, between two markers, CheckForNewlineAtEOF reports nothing
-- exactly when the text is empty or its last character is a newline.
pub check_for_newline_at_eof-split :
    (first last s : Text)
    → (check_for_newline_at_eof (marked first last (split b'\n' s)) ≡ [])
      ↔ (ends_in_newline s ≡ true)
unfolding check_for_newline_at_eof
check_for_newline_at_eof-split first last s =
    let (e, f) = last_but_one-Lines first last s (split-Lines s) in ground arith
