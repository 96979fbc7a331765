-- ===== src/Suppressions/Comment/Category.antt =====
-- What the pattern of NOLINT comments matches behind its word: a category in parentheses, or none.
use mathlib.Core.List.{append_assoc, reverse-cons, reverse-append}
use c_plus_server.Base.{
  ℕ, Bool, true, false, not, ◌&&◌, ◌≡◌, refl, sym, ap, ◌∙◌, Option, none, some, List, [], ◌∷◌, ◌++◌,
  ◌==◌, all, arith, reverse,
}
use c_plus_server.Text.{Text, codes}
use c_plus_server.Regex.{
  Regex, ◌⊙◌, Cursor, set, star, plus, opt, group, lit, lit_codes, run, step_set, is_word, capture,
  or_else,
}
use c_plus_server.Regex.Greedy.{skip_run, run-skip_run, cursor_of}
use c_plus_server.Regex.Groups.{captured}

abbrev pub no_close : ℕ → Bool
no_close c = not (c == b')')

pub reverse_step : (x : ℕ) (d b : Text) → reverse (x ∷ d) ++ b ≡ reverse d ++ x ∷ b
reverse_step x d b = ap (λ t. t ++ b) (reverse-cons x d) ∙ append_assoc (reverse d) (x ∷ []) b

skip_run-to :
    (d before rest : Text) (gs : List (ℕ × Text))
    → all no_close d ≡ true
    → skip_run no_close before (d ++ b')' ∷ rest) gs
      ≡ record { before = reverse d ++ before; after = b')' ∷ rest; groups = gs }
unfolding skip_run
skip_run-to [] before rest gs h = refl
skip_run-to (x ∷ d) before rest gs h =
    let (hx, hd) : (no_close x ≡ true) × (all no_close d ≡ true) = ground arith in
    rw (hx, skip_run-to d (x ∷ before) rest gs hd)
      (ap (λ b. cursor_of b (b')' ∷ rest) gs) (sym (reverse_step x d before)))

open_step :
    (k : Cursor → Option Cursor) (b s : Text) (gs : List (ℕ × Text))
    → run (lit "(") k (cursor_of b (b'(' ∷ s) gs) ≡ k (cursor_of (b'(' ∷ b) s gs)
unfolding run step_set lit lit_codes codes
open_step k b s gs = refl

close_step :
    (k : Cursor → Option Cursor) (b s : Text) (gs : List (ℕ × Text))
    → run (lit ")") k (cursor_of b (b')' ∷ s) gs) ≡ k (cursor_of (b')' ∷ b) s gs)
unfolding run step_set lit lit_codes codes
close_step k b s gs = refl

close_fails :
    (k : Cursor → Option Cursor) (b : Text) (x : ℕ) (s : Text) (gs : List (ℕ × Text))
    → no_close x ≡ true
    → run (lit ")") k (record { before = b; after = x ∷ s; groups = gs }) ≡ none
unfolding run step_set lit lit_codes codes
close_fails k b x s gs h = let no : (x == b')') ≡ false = ground arith in rw no refl

set_step :
    (p : ℕ → Bool) (k : Cursor → Option Cursor) (b : Text) (x : ℕ) (s : Text) (gs : List (ℕ × Text))
    → p x ≡ true
    → run (set p) k (cursor_of b (x ∷ s) gs) ≡ k (cursor_of (x ∷ b) s gs)
unfolding run step_set
set_step p k b x s gs h = rw h refl

-- From behind the opening parenthesis to behind the closing one.
inside_run :
    (k : Cursor → Option Cursor) (x : ℕ) (d b rest : Text) (gs : List (ℕ × Text))
    → all no_close (x ∷ d) ≡ true
    → run (plus (set no_close) ⊙ lit ")") k (cursor_of b (x ∷ (d ++ b')' ∷ rest)) gs)
      ≡ k (cursor_of (b')' ∷ (reverse d ++ x ∷ b)) rest gs)
unfolding run
inside_run k x d b rest gs h =
    let (hx, hd) : (no_close x ≡ true) × (all no_close d ≡ true) = ground arith in
    set_step no_close (run (star (set no_close)) (run (lit ")") k)) b x (d ++ b')' ∷ rest) gs hx
    ∙ run-skip_run no_close (run (lit ")") k) (x ∷ b) (d ++ b')' ∷ rest) gs (close_fails k)
    ∙ ap (run (lit ")") k) (skip_run-to d (x ∷ b) rest gs hd)
    ∙ close_step k (reverse d ++ x ∷ b) rest gs

reversed :
    (x : ℕ) (d b : Text)
    → b')' ∷ (reverse d ++ x ∷ b'(' ∷ b) ≡ reverse (b'(' ∷ x ∷ (d ++ b')' ∷ [])) ++ b
reversed x d b = sym (
    reverse_step b'(' (x ∷ (d ++ b')' ∷ [])) b
    ∙ reverse_step x (d ++ b')' ∷ []) (b'(' ∷ b)
    ∙ ap (λ t. t ++ x ∷ b'(' ∷ b) (reverse-append d (b')' ∷ [])))

abbrev pub category_group : Regex
category_group = group 2 (lit "(" ⊙ plus (set no_close) ⊙ lit ")")

-- The category in its parentheses is the second group.
pub category_run :
    (x : ℕ) (d b rest : Text) (gs : List (ℕ × Text))
    → all no_close (x ∷ d) ≡ true
    → (m : Cursor) × (run (opt category_group) some (cursor_of b (b'(' ∷ x ∷ (d ++ b')' ∷ rest)) gs)
        ≡ some m)
      × (m.groups ≡ (2, b'(' ∷ x ∷ (d ++ b')' ∷ [])) ∷ gs)
unfolding run
category_run x d b rest gs h =
    let c : Cursor = cursor_of b (b'(' ∷ x ∷ (d ++ b')' ∷ rest)) gs in
    let behind : Cursor = cursor_of (b')' ∷ (reverse d ++ x ∷ b'(' ∷ b)) rest gs in
    let e =
      open_step (run (plus (set no_close) ⊙ lit ")") (λ m. some (capture 2 c m))) b
        (x ∷ (d ++ b')' ∷ rest)) gs
      ∙ inside_run (λ m. some (capture 2 c m)) x d (b'(' ∷ b) rest gs h in
    (
      capture 2 c behind,
      ap (λ o. or_else o (λ _. some c)) e,
      ap (λ t. (2, t) ∷ gs)
          (captured (b'(' ∷ x ∷ (d ++ b')' ∷ [])) (b')' ∷ (reverse d ++ x ∷ b'(' ∷ b)) c
            (reversed x d b)),
    )

-- What is behind a comment without a category: no character of a word and no parenthesis.
unfoldable pub ends_comment : Text → Bool
ends_comment [] = true
ends_comment (x ∷ s) = not (is_word x) && not (x == b'(')

pub bare_run :
    (r b : Text) (gs : List (ℕ × Text))
    → ends_comment r ≡ true
    → (m : Cursor) × (run (opt category_group) some (cursor_of b r gs) ≡ some m) × (m.groups ≡ gs)
unfolding run step_set lit lit_codes codes ends_comment
bare_run [] b gs h = (_, refl, refl)
bare_run (x ∷ r) b gs h =
    let no : (x == b'(') ≡ false = ground arith in (cursor_of b (x ∷ r) gs, rw no refl, refl)
