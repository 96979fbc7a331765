-- ===== src/Regex/Finds.antt =====
-- Runs that cannot fail: a repetition can stop, a run of a set can go to the end of the text, and a
-- search finds what matches at some place.
use c_plus_server.Base.{
  ℕ, Bool, zero, suc, Option-cases, true, false, ◌≡◌, ◌≢◌, refl, inl, inr, Option, none, some,
  some_of, List, [], ◌∷◌, ◌++◌, all, length, ltb, if◌then◌else◌, arith,
}
use c_plus_server.Text.{Text}
use c_plus_server.Regex.{
  Regex, seq, set, group, star, eol, Cursor, capture, run, greedy, step_set, or_else, search_from,
  at_end,
}

or_else-last : (o o' : Option Cursor) → o' ≢ none → or_else o (λ _. o') ≢ none
or_else-last none o' h = h
or_else-last (some c) o' h = λ (e : some c ≡ none). cc

-- A repetition can always stop.
greedy-stop :
    (n : ℕ) (round : (Cursor → Option Cursor) → Cursor → Option Cursor) (k : Cursor → Option Cursor)
    (c : Cursor)
    → k c ≢ none
    → greedy n round k c ≢ none
unfolding greedy
greedy-stop zero round k c h = h
greedy-stop (suc n) round k c h = or_else-last _ (k c) h

pub run-star :
    (i : ℕ) (r after_it : Regex) (k : Cursor → Option Cursor) (c : Cursor)
    → run after_it k (capture i c c) ≢ none
    → run (seq (group i (star r)) after_it) k c ≢ none
unfolding run
run-star i r after_it k c h =
    greedy-stop (length c.after) (run r) (λ d. run after_it k (capture i c d)) c h

or_else-first : (o : Option Cursor) (f : Unit {0} → Option Cursor) → o ≢ none → or_else o f ≢ none
or_else-first none f h = absurd (h refl)
or_else-first (some c) f h = h

step_set-ne-none :
    (p : ℕ → Bool) (c : Cursor) (x : ℕ) (rest : Text) (k : Cursor → Option Cursor)
    → p x ≡ true
    → k (record c { before = x ∷ c.before; after = rest }) ≢ none
    → step_set p c (x ∷ rest) k ≢ none
unfolding step_set
step_set-ne-none p c x rest k e h = rw e h

if-then : (b : Bool) (o : Option Cursor) → b ≡ true → o ≢ none → (if b then o else none) ≢ none
if-then true o e h = h
if-then false o e h = cc

greedy-end :
    (p : ℕ → Bool) (k : Cursor → Option Cursor) (before s : Text) (groups : List (ℕ × Text))
    → all p s ≡ true
    → ((b : Text) → k (record { before = b; after = []; groups = groups }) ≢ none)
    → greedy (length s) (run (set p)) k (record { before = before; after = s; groups = groups })
      ≢ none
unfolding greedy run
greedy-end p k before [] groups h end = end before
greedy-end p k before (x ∷ s) groups h end =
    let (px, h') : (p x ≡ true) × (all p s ≡ true) = ground arith in
    let c : Cursor = record { before = before; after = x ∷ s; groups = groups } in
    let more : Cursor → Option Cursor = λ d.
      if ltb (length d.after) (suc (length s)) then greedy (length s) (run (set p)) k d else none in
    or_else-first (step_set p c (x ∷ s) more) (λ _. k c)
      (step_set-ne-none p c x s more px (
        if-then (ltb (length s) (suc (length s))) _ (ground arith)
          (greedy-end p k (x ∷ before) s groups h' end)))

pub run-dots :
    (i : ℕ) (p : ℕ → Bool) (c : Cursor)
    → all p c.after ≡ true
    → run (seq (group i (star (set p))) eol) some c ≢ none
unfolding run at_end
run-dots i p c h =
    greedy-end p (λ d. run eol some (capture i c d)) c.before c.after c.groups h (λ b q. cc)

-- A search finds what matches at a place of the text.
pub search_from-ne-none :
    (r : Regex) (x : ℕ)
    → ((before s : Text)
        → run r some (record { before = before; after = x ∷ s; groups = [] }) ≢ none)
    → (u before v : Text) → search_from r before (u ++ x ∷ v) ≢ none
unfolding search_from
search_from-ne-none r x h [] before v =
    let (d, e) =
      some_of (run r some (record { before = before; after = x ∷ v; groups = [] })) (h before v) in
    rw (search_from, e) (λ q. cc)
search_from-ne-none r x h (y ∷ u) before v =
    elim (Option-cases
      (run r some (record { before = before; after = y ∷ (u ++ x ∷ v); groups = [] }))) [
        | inl e ↦ rw (search_from, e) (search_from-ne-none r x h u (y ∷ before) v)
        | inr (d, e) ↦ rw (search_from, e) (λ q. cc)
      ]
