-- ===== src/Regex/Greedy.antt =====
-- A greedy run of a set whose members the rest of the pattern cannot start with: the matcher goes
-- to the end of the run and no further back.
use c_plus_server.Base.{
  ℕ, zero, suc, ◌≤◌, ◌≡◌, refl, Bool, Bool-cases, true, inl, inr, Option, none, some, List, [], ◌∷◌,
  length, arith, ltb, if◌then◌else◌,
}
use c_plus_server.Text.{Text}
use c_plus_server.Regex.{set, star, Cursor, run, greedy, step_set, or_else}

-- The cursor behind the run of the set at it.
unfoldable pub skip_run : (ℕ → Bool) → Text → Text → List (ℕ × Text) → Cursor
skip_run p before [] gs = record { before = before; after = []; groups = gs }
skip_run p before (x ∷ s) gs =
    let on = skip_run p (x ∷ before) s gs in
    if p x then on else record { before = before; after = x ∷ s; groups = gs }

abbrev pub cursor_of : Text → Text → List (ℕ × Text) → Cursor
cursor_of before s gs = record { before = before; after = s; groups = gs }

-- The continuation fails before a member of the set.
abbrev pub Fails : (ℕ → Bool) → (Cursor → Option Cursor) → Type 0
Fails p k =
    (before : Text) (x : ℕ) (s : Text) (gs : List (ℕ × Text))
    → p x ≡ true
    → k (record { before = before; after = x ∷ s; groups = gs }) ≡ none

or_else-none : (o o' : Option Cursor) → o' ≡ none → or_else o (λ _. o') ≡ o
or_else-none none o' h = h
or_else-none (some c) o' h = refl

greedy-skip_run :
    (n : ℕ) (p : ℕ → Bool) (k : Cursor → Option Cursor) (before s : Text) (gs : List (ℕ × Text))
    → Fails p k
    → length s ≤ n
    → greedy n (run (set p)) k (record { before = before; after = s; groups = gs })
      ≡ k (skip_run p before s gs)
unfolding greedy skip_run run step_set
greedy-skip_run zero p k before [] gs f h = refl
greedy-skip_run zero p k before (x ∷ s) gs f h = absurd (omega arith)
greedy-skip_run (suc n) p k before [] gs f h = refl
greedy-skip_run (suc n) p k before (x ∷ s) gs f h = elim (Bool-cases (p x)) [
  | inl e ↦
      let shorter : ltb (length s) (suc (length s)) ≡ true = ground arith in
      rw (e, shorter, greedy-skip_run n p k (x ∷ before) s gs f (omega arith))
        (or_else-none (k (skip_run p (x ∷ before) s gs)) (k _) (f before x s gs e))
  | inr e ↦ rw e
]

pub run-skip_run :
    (p : ℕ → Bool) (k : Cursor → Option Cursor) (before s : Text) (gs : List (ℕ × Text))
    → Fails p k
    → run (star (set p)) k (record { before = before; after = s; groups = gs })
      ≡ k (skip_run p before s gs)
unfolding run
run-skip_run p k before s gs f = greedy-skip_run (length s) p k before s gs f (omega arith)
