-- ===== src/HeaderGuard/Matching.antt =====
-- A line that closes a header guard matches the pattern of CheckForHeaderGuard, and the lines of the
-- guard split into their words.
use mathlib.Core.List.{append_assoc, append-nil, reverse-append}
use c_plus_server.Base.{
  ℕ, true, false, ◌≡◌, refl, sym, ap, ◌∙◌, Option, some, [], ◌∷◌, ◌++◌, ◌==◌, ==-refl, ==_iff,
  Bool-cases, inl, inr, arith, reverse, subst,
}
use c_plus_server.Text.{Text, codes, is_space}
use c_plus_server.Regex.{
  Regex, Cursor, lit, lit_codes, ◌⊙◌, star, space, opt, group, word_boundary, run, match_re,
  at_boundary, word_at, is_word,
}
use c_plus_server.Regex.Greedy.{run-skip_run, skip_run, Fails}
use c_plus_server.HeaderGuard.{endif_comment}
use c_plus_server.FileNames.Variable.{IsGuard}

at_cursor : Text → Text → Cursor
at_cursor before after = record { before = before; after = after; groups = [] }

run-lit_codes :
    (w : Text) (k : Cursor → Option Cursor) (before rest : Text)
    → run (lit_codes w) k (record { before = before; after = w ++ rest; groups = [] })
      ≡ k (record { before = reverse w ++ before; after = rest; groups = [] })
unfolding run lit_codes
run-lit_codes [] k before rest = refl
run-lit_codes (x ∷ w) k before rest = rw (==-refl x) (
    run-lit_codes w k (x ∷ before) rest
    ∙ ap (λ b. k (record { before = b; after = rest; groups = [] }))
        (sym (append_assoc (reverse w) (x ∷ []) before)
          ∙ ap (λ t. t ++ before) (sym (reverse-append (x ∷ []) w))))

space_ne : (x c : ℕ) → is_space x ≡ true → is_space c ≡ false → (x == c) ≡ false
space_ne x c h k = elim (Bool-cases (x == c)) [
  | inl e ↦ let same : x ≡ c = (==_iff x c).0 e in cc
  | inr e ↦ e
]

-- A pattern that begins with a literal fails at a space.
lit-Fails :
    (c : ℕ) (w : Text) (r : Regex) (k : Cursor → Option Cursor)
    → is_space c ≡ false
    → Fails is_space (run (lit_codes (c ∷ w) ⊙ r) k)
unfolding run lit_codes
lit-Fails c w r k h before x s gs e = rw (space_ne x c e h) refl

-- The end of the pattern, behind the variable.
tail_end :
    (before : Text)
    → word_at before ≡ true
    → run
        (opt (group 1 (lit "_")) ⊙ word_boundary)
        some
        (record { before = before; after = []; groups = [] })
      ≡ some (record { before = before; after = []; groups = [] })
unfolding run lit lit_codes codes at_boundary word_at
tail_end before h = rw h refl

pub guard-start : (v : Text) → IsGuard v → (c : ℕ) × (w : Text) × (v ≡ c ∷ w) × (is_space c ≡ false)
unfolding is_space
guard-start v ([], e, a) = (b'_', [], e, refl)
guard-start v (c ∷ w, e, a) = (c, w ++ b'_' ∷ [], e, ground arith)

-- Nothing but the white space in front of a literal is skipped.
run-space :
    (c : ℕ) (w : Text) (r : Regex) (k : Cursor → Option Cursor) (before after : Text)
    → is_space c ≡ false
    → run (star space ⊙ lit_codes (c ∷ w) ⊙ r) k (at_cursor before after)
      ≡ run (lit_codes (c ∷ w) ⊙ r) k (skip_run is_space before after [])
unfolding run space at_cursor
run-space c w r k before after h =
    run-skip_run is_space (run (lit_codes (c ∷ w) ⊙ r) k) before after [] (lit-Fails c w r k h)

run-lit :
    (w : Text) (r : Regex) (k : Cursor → Option Cursor) (before rest : Text)
    → run (lit_codes w ⊙ r) k (at_cursor before (w ++ rest))
      ≡ run r k (at_cursor (reverse w ++ before) rest)
unfolding run at_cursor
run-lit w r k before rest = run-lit_codes w (run r k) before rest

-- The line that closes a guard.
abbrev pub endif_line : Text → Text
endif_line v = codes "#endif  // " ++ v

skip-two :
    (before rest : Text)
    → skip_run is_space before (codes "  // " ++ rest) []
      ≡ at_cursor (b' ' ∷ b' ' ∷ before) (codes "//" ++ (b' ' ∷ rest))
unfolding skip_run is_space codes at_cursor
skip-two before rest = refl

skip-one :
    (before rest : Text) (c : ℕ)
    → is_space c ≡ false
    → skip_run is_space before (b' ' ∷ c ∷ rest) [] ≡ at_cursor (b' ' ∷ before) (c ∷ rest)
unfolding skip_run is_space at_cursor
skip-one before rest c h = rw h refl

word_at-guard : (v before : Text) → IsGuard v → word_at (reverse v ++ before) ≡ true
unfolding word_at is_word
word_at-guard v before (w, e, a) = rw e (rw (reverse-append w (b'_' ∷ [])) refl)

-- What the pattern leaves on the left of the end of the line.
endif_read : Text → Text
endif_read v = reverse v ++ reverse (codes "#endif  // ")

endif_run :
    (c : ℕ) (w : Text)
    → IsGuard (c ∷ w)
    → is_space c ≡ false
    → run
        (lit_codes (codes "#endif")
          ⊙ star space
          ⊙ lit_codes (codes "//")
          ⊙ star space
          ⊙ lit_codes (c ∷ w)
          ⊙ opt (group 1 (lit "_"))
          ⊙ word_boundary)
        some
        (at_cursor [] (endif_line (c ∷ w)))
      ≡ some (at_cursor (endif_read (c ∷ w)) [])
unfolding codes endif_read is_space at_cursor
endif_run c w g h =
    let tail = opt (group 1 (lit "_")) ⊙ word_boundary in
    let named = lit_codes (c ∷ w) ⊙ tail in
    let slashes = lit_codes (codes "//") ⊙ star space ⊙ named in
    let v = c ∷ w in
    let before = reverse (codes "#endif") in
    run-lit (codes "#endif") (star space ⊙ slashes) some [] (codes "  // " ++ v)
    ∙ run-space b'/' (codes "/") (star space ⊙ named) some before (codes "  // " ++ v) refl
    ∙ ap (run slashes some) (skip-two before v)
    ∙ run-lit (codes "//") (star space ⊙ named) some (b' ' ∷ b' ' ∷ before) (b' ' ∷ v)
    ∙ run-space c w tail some (reverse (codes "#endif  //")) (b' ' ∷ v) h
    ∙ ap (run named some) (skip-one (reverse (codes "#endif  //")) w c h)
    ∙ ap (λ t. run named some (at_cursor (reverse (codes "#endif  // ")) t)) (sym (append-nil v))
    ∙ run-lit v tail some (reverse (codes "#endif  // ")) []
    ∙ tail_end (reverse v ++ reverse (codes "#endif  // "))
        (word_at-guard v (reverse (codes "#endif  // ")) g)

pub match_re-endif_comment :
    (v : Text)
    → IsGuard v
    → (m : Cursor) × (match_re (endif_comment v) (endif_line v) ≡ some m) × (m.groups ≡ [])
unfolding match_re lit at_cursor
match_re-endif_comment v g =
    let (c, w, e, h) = guard-start v g in
    (at_cursor (endif_read v) [], rw e (endif_run c w (subst IsGuard e g) h), refl)
