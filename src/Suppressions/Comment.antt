-- ===== src/Suppressions/Comment.antt =====
-- What a NOLINT comment suppresses, read off the text of its line.
mod Category
use mathlib.Core.List.{append-nil}
use c_plus_server.Base.{
  ℕ, Bool, true, false, not, ◌≡◌, refl, sym, ap, ◌∙◌, Option, none, some, List, [], ◌∷◌, ◌++◌, ◌==◌,
  all, arith, reverse, if◌then◌else◌,
}
use c_plus_server.Text.{Text, codes}
use c_plus_server.Regex.{
  Regex, ◌⊙◌, Cursor, Found, opt, group, lit, lit_codes, run, step_set, search_from, search_re,
  word_at, is_word, at_boundary, capture, or_else, word_boundary,
}
use c_plus_server.Regex.Greedy.{cursor_of}
use c_plus_server.Regex.Groups.{captured}
use c_plus_server.Suppressions.{nolint_pattern, nolint_groups}
use c_plus_server.Suppressions.Comment.Category.{
  no_close, reverse_step, category_group, category_run, ends_comment, bare_run,
}

abbrev no_n : ℕ → Bool
no_n c = not (c == b'N')

if_none : (b : Bool) → ◌≡◌ {A = Option Cursor} (if b then none else none) none
if_none true = refl
if_none false = refl

-- The pattern begins with an N.
starts_none :
    (before : Text) (x : ℕ) (s : Text)
    → no_n x ≡ true
    → run nolint_pattern some (record { before = before; after = x ∷ s; groups = [] }) ≡ none
unfolding run step_set lit lit_codes codes
starts_none before x s h =
    let no : (x == b'N') ≡ false = ground arith in
    rw no (if_none (at_boundary (record { before = before; after = x ∷ s; groups = [] })))

search_from-step :
    (r : Regex) (before : Text) (x : ℕ) (s : Text)
    → run r some (record { before = before; after = x ∷ s; groups = [] }) ≡ none
    → search_from r before (x ∷ s) ≡ search_from r (x ∷ before) s
unfolding search_from
search_from-step r before x s e = rw (search_from, e)

search_from-skip :
    (pre before s : Text)
    → all no_n pre ≡ true
    → search_from nolint_pattern before (pre ++ s)
      ≡ search_from nolint_pattern (reverse pre ++ before) s
search_from-skip [] before s h = refl
search_from-skip (x ∷ pre) before s h =
    let (hx, hp) : (no_n x ≡ true) × (all no_n pre ≡ true) = ground arith in
    search_from-step nolint_pattern before x (pre ++ s) (starts_none before x (pre ++ s) hx)
    ∙ search_from-skip pre (x ∷ before) s hp
    ∙ ap (λ b. search_from nolint_pattern b s) (sym (reverse_step x pre before))

abbrev mark_tail : Regex
mark_tail = opt (group 1 (lit "NEXTLINE")) ⊙ word_boundary ⊙ opt category_group

abbrev behind_mark : Text → Text
behind_mark b = reverse (codes "NOLINT") ++ b

mark_step :
    (b r : Text)
    → word_at b ≡ false
    → run nolint_pattern some (cursor_of b (codes "NOLINT" ++ r) [])
      ≡ run mark_tail some (cursor_of (behind_mark b) r [])
unfolding run step_set lit lit_codes codes at_boundary word_at is_word
mark_step b r h = rw h refl

this_step :
    (b r : Text) (m : Cursor)
    → word_at r ≡ false
    → run (opt category_group) some (cursor_of (behind_mark b) r []) ≡ some m
    → run mark_tail some (cursor_of (behind_mark b) r []) ≡ some m
unfolding run step_set lit lit_codes codes at_boundary word_at is_word
this_step b [] m h e = e
this_step b (x ∷ r) m h e = let no : (x == b'N') ≡ false = ground arith in rw (no, h) e

abbrev behind_next : Text → Text
behind_next b = reverse (codes "NEXTLINE") ++ b

abbrev next_cursor : Text → Text → Cursor
next_cursor b r =
    capture 1 (cursor_of b (codes "NEXTLINE" ++ r) []) (cursor_of (behind_next b) r [])

next_step :
    (b r : Text) (m : Cursor)
    → word_at r ≡ false
    → run (opt category_group) some (next_cursor b r) ≡ some m
    → run mark_tail some (cursor_of b (codes "NEXTLINE" ++ r) []) ≡ some m
unfolding run step_set lit lit_codes codes at_boundary word_at is_word
next_step b r m h e = rw h (
    ap
      (λ o. or_else o (λ _.
        run (word_boundary ⊙ opt category_group) some (cursor_of b (codes "NEXTLINE" ++ r) [])))
      e)

abbrev mark : Bool → Text
mark next = codes "NOLINT" ++ (if next then codes "NEXTLINE" else [])

abbrev pub mark_groups : Bool → List (ℕ × Text)
mark_groups next = if next then (1, codes "NEXTLINE") ∷ [] else []

-- What is behind the mark, whatever is before it, is matched with these groups.
abbrev Ends : List (ℕ × Text) → Text → Type 0
Ends args r =
    (b : Text) (gs : List (ℕ × Text))
    → (m : Cursor) × (run (opt category_group) some (cursor_of b r gs) ≡ some m)
      × (m.groups ≡ args ++ gs)

mark-run :
    (next : Bool) (args : List (ℕ × Text)) (b r : Text)
    → word_at b ≡ false
    → word_at r ≡ false
    → Ends args r
    → (m : Cursor) × (run nolint_pattern some (cursor_of b (mark next ++ r) []) ≡ some m)
      × (m.groups ≡ args ++ mark_groups next)
unfolding codes
mark-run false args b r h k e =
    let (m, f, g) = e (behind_mark b) [] in (m, mark_step b r h ∙ this_step b r m k f, g)
mark-run true args b r h k e =
    let (m, f, g) = e (behind_next (behind_mark b)) (next_cursor (behind_mark b) r).groups in
    (
      m,
      mark_step b (codes "NEXTLINE" ++ r) h ∙ next_step (behind_mark b) r m k f,
      g
          ∙ ap (λ t. args ++ (1, t) ∷ [])
              (captured (codes "NEXTLINE") (behind_next (behind_mark b))
                (cursor_of (behind_mark b) (codes "NEXTLINE" ++ r) []) refl),
    )

-- What is before the mark: no N, and no character of a word at its end.
abbrev Before : Text → Type 0
Before pre = (all no_n pre ≡ true) × (word_at (reverse pre) ≡ false)

search_from-hit :
    (r : Regex) (before : Text) (x : ℕ) (s : Text) (m : Cursor)
    → run r some (cursor_of before (x ∷ s) []) ≡ some m
    → (f : Found) × (search_from r before (x ∷ s) ≡ some f) × (f.last.groups ≡ m.groups)
unfolding search_from
search_from-hit r before x s m e =
    (record { first = cursor_of before (x ∷ s) []; last = m }, rw (search_from, e), refl)

nolint_groups-found :
    (raw_line : Text) (f : Found)
    → search_from nolint_pattern [] raw_line ≡ some f
    → nolint_groups raw_line ≡ some f.last.groups
unfolding nolint_groups search_re
nolint_groups-found raw_line f e = rw (nolint_groups, search_re, e) refl

nolint_groups-mark :
    (next : Bool) (args : List (ℕ × Text)) (pre r : Text)
    → Before pre
    → word_at r ≡ false
    → Ends args r
    → nolint_groups (pre ++ (mark next ++ r)) ≡ some (args ++ mark_groups next)
unfolding codes
nolint_groups-mark next args pre r (h, w) k e =
    let (m, f, g) =
      mark-run next args (reverse pre ++ []) r (rw (append-nil (reverse pre)) w) k e in
    let (found, q, u) =
      search_from-hit nolint_pattern (reverse pre ++ []) b'N'
        ((codes "OLINT" ++ (if next then codes "NEXTLINE" else [])) ++ r) m f in
    nolint_groups-found (pre ++ (mark next ++ r)) found
      (search_from-skip pre [] (mark next ++ r) h ∙ q)
    ∙ ap some (u ∙ g)

empty_run :
    (b : Text) → run nolint_pattern some (record { before = b; after = []; groups = [] }) ≡ none
unfolding run step_set lit lit_codes codes
empty_run b = if_none (at_boundary (record { before = b; after = []; groups = [] }))

nothing_left : (b : Text) → search_from nolint_pattern b [] ≡ none
unfolding search_from
nothing_left b = rw (search_from, empty_run b) refl

ends_comment-word : (r : Text) → ends_comment r ≡ true → word_at r ≡ false
unfolding ends_comment word_at
ends_comment-word [] h = refl
ends_comment-word (x ∷ r) h = ground arith

parenthesis-word : (s : Text) → word_at (b'(' ∷ s) ≡ false
unfolding word_at is_word
parenthesis-word s = refl

nolint_groups-absent : (raw_line : Text) → all no_n raw_line ≡ true → nolint_groups raw_line ≡ none
unfolding nolint_groups search_re
nolint_groups-absent raw_line h =
    let e : search_from nolint_pattern [] raw_line ≡ none =
      ap (search_from nolint_pattern []) (sym (append-nil raw_line))
      ∙ search_from-skip raw_line [] [] h
      ∙ nothing_left (reverse raw_line ++ []) in
    rw (nolint_groups, search_re, e) refl

-- How a line of text has a NOLINT comment: not at all, or for that line or the next one, with a
-- category in parentheses or without.
pub data IsNolint : Text → Option (Bool × Option Text) → Type 0 where
  absent : (raw_line : Text) → all no_n raw_line ≡ true → IsNolint raw_line none
  bare :
      (next : Bool) (pre post : Text)
      → Before pre
      → ends_comment post ≡ true
      → IsNolint (pre ++ (mark next ++ post)) (some (next, none))
  named :
      (next : Bool) (pre : Text) (x : ℕ) (d post : Text)
      → Before pre
      → all no_close (x ∷ d) ≡ true
      → IsNolint (pre ++ (mark next ++ b'(' ∷ x ∷ (d ++ b')' ∷ post))) (some (next, some (x ∷ d)))

abbrev pub category_groups : Option Text → List (ℕ × Text)
category_groups none = []
category_groups (some c) = (2, b'(' ∷ (c ++ b')' ∷ [])) ∷ []

abbrev pub groups_for : Option (Bool × Option Text) → Option (List (ℕ × Text))
groups_for none = none
groups_for (some (next, category)) = some (category_groups category ++ mark_groups next)

pub nolint_groups-IsNolint :
    (raw_line : Text) (o : Option (Bool × Option Text))
    → IsNolint raw_line o
    → nolint_groups raw_line ≡ groups_for o
nolint_groups-IsNolint raw_line o (absent _ h) = nolint_groups-absent raw_line h
nolint_groups-IsNolint raw_line o (bare next pre post b h) =
    nolint_groups-mark next [] pre post b (ends_comment-word post h)
      (λ before gs. bare_run post before gs h)
nolint_groups-IsNolint raw_line o (named next pre x d post b h) =
    nolint_groups-mark next ((2, b'(' ∷ x ∷ (d ++ b')' ∷ [])) ∷ []) pre
      (b'(' ∷ x ∷ (d ++ b')' ∷ post)) b (parenthesis-word (x ∷ (d ++ b')' ∷ post)))
      (λ before gs. category_run x d before post gs h)
