-- ===== src/Nesting/Braces/Split.antt =====
-- The pattern of the last loop of NestingState.Update finds the first brace of a line.
use c_plus_server.Base.{
  ℕ, ◌≡◌, refl, ap, ◌∙◌, Bool, Bool-cases, true, false, not, inl, inr, Option, none, some, List, [],
  ◌∷◌, ◌++◌, reverse, ◌==◌, if◌then◌else◌, all, ◌&&◌,
}
use mathlib.Core.List.{reverse-append, append_assoc}
use c_plus_server.Text.{Text}
use c_plus_server.Regex.{
  Regex, ◌⊙◌, star, group, eol, dot, any_of, one_of, Cursor, run, match_re, group_text, group_of,
  capture, at_end,
}
use c_plus_server.Regex.Groups.{captured}
use c_plus_server.Regex.Greedy.{skip_run, run-skip_run, Fails}
use c_plus_server.Nesting.Braces.{brace_chars, brace_split}

-- The first brace and what is behind it.
unfoldable pub first_brace : Text → Option (ℕ × Text)
first_brace [] = none
first_brace (x ∷ s) = if one_of brace_chars x then some (x, s) else first_brace s

-- The text is one line.
abbrev pub is_line : Text → Bool
is_line s = all (λ c. not (c == b'\n')) s

pub both_true : (a b : Bool) → a && b ≡ true → (a ≡ true) × (b ≡ true)
both_true true b h = (refl, h)
both_true false b h = absurd cc

skip_run-all :
    (before s : Text) (gs : List (ℕ × Text))
    → is_line s ≡ true
    → skip_run (λ c. not (c == b'\n')) before s gs
      ≡ record { before = reverse s ++ before; after = []; groups = gs }
unfolding skip_run
skip_run-all before [] gs h = refl
skip_run-all before (x ∷ s) gs h =
    let (c, rest) = both_true (not (x == b'\n')) (is_line s) h in
    let e : reverse (x ∷ s) ++ before ≡ reverse s ++ x ∷ before =
      ap (λ t. t ++ before) (reverse-append (x ∷ []) s)
      ∙ append_assoc (reverse s) (x ∷ []) before in
    rw (c, e) (skip_run-all (x ∷ before) s gs rest)

rest_of_line : Regex
rest_of_line = group 2 (star dot) ⊙ eol

-- the part of the pattern from the brace on
brace_tail : Regex
unfolding rest_of_line
brace_tail = group 1 (any_of brace_chars) ⊙ rest_of_line

parts_of_match : Option Cursor → Option (ℕ × Text)
parts_of_match o = elim o [
  | none ↦ none
  | some m ↦ elim (group_text 1 m.groups) [
    | [] ↦ none
    | token ∷ more ↦ some (token, group_text 2 m.groups)
  ]
]

end-Fails : (c : Cursor) → Fails (λ x. not (x == b'\n')) (λ d. run eol some (capture 2 c d))
unfolding run at_end
end-Fails c before x [] gs h = elim (Bool-cases (x == b'\n')) [
  | inl e ↦ absurd (let f = rw e at h in cc)
  | inr e ↦ rw e
]
end-Fails c before x (y ∷ s) gs h = refl

rest_of_line-run :
    (before s : Text) (gs : List (ℕ × Text))
    → is_line s ≡ true
    → (b : Text) × (run rest_of_line some (record { before = before; after = s; groups = gs })
        ≡ some (record { before = b; after = []; groups = (2, s) ∷ gs }))
unfolding rest_of_line run dot
rest_of_line-run before s gs h =
    let c : Cursor = record { before = before; after = s; groups = gs } in
    let e = captured s (reverse s ++ before) c refl in
    (
      reverse s ++ before,
      run-skip_run (λ c. not (c == b'\n')) (λ d. run eol some (capture 2 c d)) before s gs
            (end-Fails c)
          ∙ ap (λ d. run eol some (capture 2 c d)) (skip_run-all before s gs h)
          ∙ ap
              (λ (t : Text).
                some (record { before = reverse s ++ before; after = []; groups = (2, t) ∷ gs }))
              e,
    )

brace_tail-run :
    (before : Text) (x : ℕ) (s : Text) (gs : List (ℕ × Text))
    → run brace_tail some (record { before = before; after = x ∷ s; groups = gs }) ≡ (
        if one_of brace_chars x
        then run rest_of_line some (
            capture 1
              (record { before = before; after = x ∷ s; groups = gs })
              (record { before = x ∷ before; after = s; groups = gs }))
        else none)
unfolding brace_tail run
brace_tail-run before x s gs = refl

brace_tail-nil :
    (before : Text) (gs : List (ℕ × Text))
    → run brace_tail some (record { before = before; after = []; groups = gs }) ≡ none
unfolding brace_tail run
brace_tail-nil before gs = refl

brace_tail-Fails : Fails (λ c. not (one_of brace_chars c)) (run brace_tail some)
brace_tail-Fails before x s gs h = elim (Bool-cases (one_of brace_chars x)) [
  | inl e ↦ absurd (let f = rw e at h in cc)
  | inr e ↦ brace_tail-run before x s gs ∙ rw e
]

found_token :
    (x : ℕ) (s b t : Text)
    → t ≡ x ∷ []
    → parts_of_match (some (record { before = b; after = []; groups = (2, s) ∷ (1, t) ∷ [] }))
      ≡ some (x, s)
unfolding parts_of_match group_text group_of
found_token x s b t h = rw h

tail-first_brace :
    (before s : Text)
    → is_line s ≡ true
    → parts_of_match (run brace_tail some (skip_run (λ c. not (one_of brace_chars c)) before s []))
      ≡ first_brace s
unfolding skip_run first_brace parts_of_match
tail-first_brace before [] h = ap parts_of_match (brace_tail-nil before [])
tail-first_brace before (x ∷ s) h = elim (Bool-cases (one_of brace_chars x)) [
  | inl e ↦
      let c : Cursor = record { before = before; after = x ∷ s; groups = [] } in
      let d : Cursor = capture 1 c (record { before = x ∷ before; after = s; groups = [] }) in
      let line = (both_true (not (x == b'\n')) (is_line s) h).1 in
      let (b, f) = rest_of_line-run (x ∷ before) s d.groups line in
      let g = captured (x ∷ []) (x ∷ before) c refl in
      let run_to : run brace_tail some c
          ≡ some (record { before = b; after = []; groups = (2, s) ∷ d.groups }) =
        brace_tail-run before x s [] ∙ rw e f in
      rw e (ap parts_of_match run_to ∙ found_token x s b _ g)
  | inr e ↦ rw e (tail-first_brace (x ∷ before) s (both_true (not (x == b'\n')) (is_line s) h).1)
]

pub brace_split-first_brace :
    (line : Text) → is_line line ≡ true → brace_split line ≡ first_brace line
unfolding brace_split match_re run brace_tail rest_of_line parts_of_match
brace_split-first_brace line h =
    ap parts_of_match (
      run-skip_run (λ c. not (one_of brace_chars c)) (run brace_tail some) [] line []
        brace_tail-Fails)
    ∙ tail-first_brace [] line h
