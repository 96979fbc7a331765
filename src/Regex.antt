-- ===== src/Regex.antt =====
-- Python's `re`, as far as cpplint.py uses it: a backtracking matcher over a cursor. The first
-- match in the order of preference of `sre` is taken; a `*` makes no further round on an empty match.
pub mod Sound
pub mod Progress
pub mod Groups
pub mod Greedy
pub mod Finds
use Prim.Native.String.{String}
use c_plus_server.Base.{
  ℕ, zero, suc, ◌-◌, Bool, true, false, not, ◌&&◌, ◌||◌, Option, none, some, List, [], ◌∷◌, ◌++◌,
  reverse, leb, ltb, ◌==◌, if◌then◌else◌, length, take,
}
use c_plus_server.Text.{Text, codes, is_space}

pub data Regex : Type 0 where
  eps : Regex
  set : (ℕ → Bool) → Regex
  seq : Regex → Regex → Regex
  alt : Regex → Regex → Regex
  star : Regex → Regex
  lazy : Regex → Regex
  group : ℕ → Regex → Regex
  bol eol word_boundary : Regex
  ahead : Bool → Regex → Regex

-- The text on both sides of the position, the left one reversed, and the groups, newest first.
pub record Cursor : Type 0 where
  pub before : Text
  pub after : Text
  pub groups : List (ℕ × Text)

unfoldable pub is_word : ℕ → Bool
is_word c =
    (leb b'a' c && leb c b'z')
    || (leb b'A' c && leb c b'Z')
    || (leb b'0' c && leb c b'9')
    || c == b'_'

unfoldable pub word_at : Text → Bool
unfolding is_word
word_at [] = false
word_at (c ∷ s) = is_word c

-- `\b`
unfoldable pub at_boundary : Cursor → Bool
unfolding word_at
at_boundary c =
    (word_at c.before && not (word_at c.after)) || (word_at c.after && not (word_at c.before))

-- `$` without MULTILINE: at the end, or before a newline that ends the text
unfoldable pub at_end : Text → Bool
at_end [] = true
at_end (c ∷ []) = c == b'\n'
at_end (c ∷ d ∷ s) = false

unfoldable pub is_empty : Text → Bool
is_empty [] = true
is_empty (c ∷ s) = false

-- One code point of the set, then the continuation.
unfoldable pub step_set : (ℕ → Bool) → Cursor → Text → (Cursor → Option Cursor) → Option Cursor
step_set p c [] k = none
step_set p c (x ∷ rest) k =
    let go = k (record c { before = x ∷ c.before; after = rest }) in if p x then go else none

abbrev pub or_else : Option Cursor → (Unit {0} → Option Cursor) → Option Cursor
or_else none k = k tt
or_else (some c) k = some c

-- Rounds of a greedy `*`; a round has to take something.
unfoldable pub greedy :
    ℕ
    → ((Cursor → Option Cursor) → Cursor → Option Cursor)
    → (Cursor → Option Cursor)
    → Cursor
    → Option Cursor
greedy zero round k c = k c
greedy (suc n) round k c =
    or_else
      (round
        (λ d.
          let more = greedy n round k d in
          if ltb (length d.after) (length c.after) then more else none)
        c)
      (λ _. k c)

-- Rounds of a lazy `*?`.
unfoldable pub reluctant :
    ℕ
    → ((Cursor → Option Cursor) → Cursor → Option Cursor)
    → (Cursor → Option Cursor)
    → Cursor
    → Option Cursor
reluctant zero round k c = k c
reluctant (suc n) round k c = or_else (k c) (λ _.
    round
      (λ d.
        let more = reluctant n round k d in
        if ltb (length d.after) (length c.after) then more else none)
      c)

-- The groups of a cursor with one more: what lies between two positions.
abbrev pub capture : ℕ → Cursor → Cursor → Cursor
capture i c d =
    let text = reverse (take (length d.before - length c.before) d.before) in
    record d { groups = (i, text) ∷ d.groups }

unfoldable pub run : Regex → (Cursor → Option Cursor) → Cursor → Option Cursor
unfolding step_set greedy reluctant at_boundary at_end is_empty
run eps k c = k c
run (set p) k c = step_set p c c.after k
run (seq r s) k c = run r (run s k) c
run (alt r s) k c = or_else (run r k c) (λ _. run s k c)
run (star r) k c = greedy (length c.after) (run r) k c
run (lazy r) k c = reluctant (length c.after) (run r) k c
run (group i r) k c = run r (λ d. k (capture i c d)) c
run bol k c = let go = k c in if is_empty c.before then go else none
run eol k c = let go = k c in if at_end c.after then go else none
run word_boundary k c = let go = k c in if at_boundary c then go else none
run (ahead true r) k c = elim (run r some c) [
  | none ↦ none
  | some d ↦ k (record c { groups = d.groups })
]
run (ahead false r) k c = elim (run r some c) [ none ↦ k c | some d ↦ none ]

abbrev pub start : Text → Cursor
start s = record { before = []; after = s; groups = [] }

-- `re.match(r, s)`
unfoldable pub match_re : Regex → Text → Option Cursor
unfolding run
match_re r s = run r some (start s)

-- A match, and the cursor at which it starts.
pub record Found : Type 0 where
  pub first : Cursor
  pub last : Cursor

unfoldable pub search_from : Regex → Text → Text → Option Found
unfolding run
search_from r before [] =
    let c : Cursor = record { before = before; after = []; groups = [] } in
    elim (run r some c) [ none ↦ none | some d ↦ some (record { first = c; last = d }) ]
search_from r before (x ∷ s) =
    let c : Cursor = record { before = before; after = x ∷ s; groups = [] } in
    let rest = search_from r (x ∷ before) s in
    elim (run r some c) [ none ↦ rest | some d ↦ some (record { first = c; last = d }) ]

-- `re.search(r, s)`
unfoldable pub search_re : Regex → Text → Option Found
unfolding search_from
search_re r s = search_from r [] s

abbrev pub matches : Regex → Text → Bool
matches r s = elim (match_re r s) [ none ↦ false | some c ↦ true ]

abbrev pub searches : Regex → Text → Bool
searches r s = elim (search_re r s) [ none ↦ false | some c ↦ true ]

-- `r.sub('', s)`: every match is left out, from the left. `skip` counts what is left of a match.
unfoldable pub remove_from : ℕ → Regex → Text → Text → Text
unfolding run
remove_from skip r before [] = []
remove_from (suc skip) r before (x ∷ s) = remove_from skip r (x ∷ before) s
remove_from zero r before (x ∷ s) =
    let c : Cursor = record { before = before; after = x ∷ s; groups = [] } in
    let kept = x ∷ remove_from zero r (x ∷ before) s in
    elim (run r some c) [
      | none ↦ kept
      | some d ↦ elim (length (x ∷ s) - length d.after) [
        | zero ↦ kept
        | suc skip ↦ remove_from skip r (x ∷ before) s
      ]
    ]

unfoldable pub remove_all : Regex → Text → Text
unfolding remove_from
remove_all r s = remove_from zero r [] s

-- `re.sub(r, rep, s)` for a pattern that matches no empty text; `rep` has the groups of a match.
unfoldable pub substitute_from : ℕ → Regex → (List (ℕ × Text) → Text) → Text → Text → Text
unfolding run
substitute_from skip r rep before [] = []
substitute_from (suc skip) r rep before (x ∷ s) = substitute_from skip r rep (x ∷ before) s
substitute_from zero r rep before (x ∷ s) =
    let c : Cursor = record { before = before; after = x ∷ s; groups = [] } in
    let kept = x ∷ substitute_from zero r rep (x ∷ before) s in
    elim (run r some c) [
      | none ↦ kept
      | some d ↦ elim (length (x ∷ s) - length d.after) [
        | zero ↦ kept
        | suc skip ↦ rep d.groups ++ substitute_from skip r rep (x ∷ before) s
      ]
    ]

unfoldable pub substitute : Regex → (List (ℕ × Text) → Text) → Text → Text
unfolding substitute_from
substitute r rep s = substitute_from zero r rep [] s

-- `m.group(i)`: the newest capture; `none` for a group that took no part
unfoldable pub group_of : ℕ → List (ℕ × Text) → Option Text
group_of i [] = none
group_of i ((j, t) ∷ gs) = if i == j then some t else group_of i gs

-- `m.group(i)` for a group that every match sets
unfoldable pub group_text : ℕ → List (ℕ × Text) → Text
unfolding group_of
group_text i gs = elim (group_of i gs) [ none ↦ [] | some t ↦ t ]

-- Notation for patterns.
unfoldable pub lit_codes : Text → Regex
lit_codes [] = eps
lit_codes (x ∷ s) = seq (set (λ c. c == x)) (lit_codes s)

unfoldable pub lit : String → Regex
unfolding lit_codes codes
lit s = lit_codes (codes s)

infixr 66 ◌⊙◌
abbrev pub ◌⊙◌ : Regex → Regex → Regex
◌⊙◌ = seq

abbrev pub opt : Regex → Regex
opt r = alt r eps

abbrev pub plus : Regex → Regex
plus r = seq r (star r)

unfoldable pub space : Regex
unfolding is_space
space = set is_space

unfoldable pub non_space : Regex
unfolding is_space
non_space = set (λ c. not (is_space c))

unfoldable pub word : Regex
unfolding is_word
word = set is_word

-- `.`
unfoldable pub dot : Regex
dot = set (λ c. not (c == b'\n'))

abbrev pub one_of : List ℕ → ℕ → Bool
one_of [] c = false
one_of (x ∷ xs) c = x == c || one_of xs c

abbrev pub none_of : List ℕ → Regex
none_of xs = set (λ c. not (one_of xs c))

abbrev pub any_of : List ℕ → Regex
any_of xs = set (one_of xs)
