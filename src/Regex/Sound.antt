-- ===== src/Regex/Sound.antt =====
-- What a match says: the pattern, read as a relation between cursors, holds of its two ends.
use c_plus_server.Base.{
  ℕ, zero, suc, Bool, true, false, Bool-cases, Option-cases, ◌≡◌, refl, sym, ap, ◌∙◌, ◌⊎◌, inl, inr,
  Option, none, some, [], ◌∷◌, ◌++◌, reverse, if◌then◌else◌, length, ltb,
}
use mathlib.Core.List.{append_assoc, reverse-append}
use mathlib.Core.Path.{subst}
use c_plus_server.Text.{Text}
use c_plus_server.Regex.{
  Regex, eps, set, seq, alt, star, lazy, group, bol, eol, word_boundary, ahead, Cursor, step_set,
  greedy, reluctant, run, capture, or_else, is_empty, at_end, at_boundary,
}

-- Rounds of a repetition.
pub data Iter (R : Cursor → Cursor → Type 0) : Cursor → Cursor → Type 0 where
  stop : (c : Cursor) → Iter R c c
  round : {c d e : Cursor} → R c d → Iter R d e → Iter R c e

abbrev pub Matches : Regex → Cursor → Cursor → Type 0
Matches eps c d = d ≡ c
Matches (set p) c d =
    (x : ℕ) × (rest : Text) × (c.after ≡ x ∷ rest)
    × (p x ≡ true)
    × (d ≡ record c { before = x ∷ c.before; after = rest })
Matches (seq r s) c d = (e : Cursor) × Matches r c e × Matches s e d
Matches (alt r s) c d = Matches r c d ⊎ Matches s c d
Matches (star r) c d = Iter (Matches r) c d
Matches (lazy r) c d = Iter (Matches r) c d
Matches (group i r) c d = (e : Cursor) × Matches r c e × (d ≡ capture i c e)
Matches bol c d = (is_empty c.before ≡ true) × (d ≡ c)
Matches eol c d = (at_end c.after ≡ true) × (d ≡ c)
Matches word_boundary c d = (at_boundary c ≡ true) × (d ≡ c)
Matches (ahead true r) c d = (e : Cursor) × Matches r c e × (d ≡ record c { groups = e.groups })
Matches (ahead false r) c d = d ≡ c

-- What is shown of a run with a continuation: the pattern leads to a cursor from which the
-- continuation goes on.
abbrev Leads : (Cursor → Cursor → Type 0) → (Cursor → Option Cursor) → Cursor → Cursor → Type 0
Leads R k c d = (e : Cursor) × R c e × (k e ≡ some d)

or_else-cases :
    (o : Option Cursor) (f : Unit {0} → Option Cursor) (d : Cursor)
    → or_else o f ≡ some d
    → (o ≡ some d) ⊎ ((o ≡ none) × (f tt ≡ some d))
or_else-cases none f d h = inr (refl, h)
or_else-cases (some e) f d h = inl h

guarded :
    (b : Bool) (o : Option Cursor) (d : Cursor)
    → (if b then o else none) ≡ some d
    → (b ≡ true) × (o ≡ some d)
guarded true o d h = (refl, h)
guarded false o d h = cc

Leads-more :
    (R : Cursor → Cursor → Type 0) (n : ℕ) (k more : Cursor → Option Cursor) (c d : Cursor)
    → ((a : Cursor) → more a ≡ some d → Leads (Iter R) k a d)
    → Leads R
        (λ a. let rest = more a in if ltb (length a.after) (length c.after) then rest else none)
        c
        d
    → Leads (Iter R) k c d
Leads-more R n k more c d ih (a, m, g) =
    let (e, ms, i) = ih a (guarded (ltb (length a.after) (length c.after)) (more a) d g).1 in
    (e, round m ms, i)

greedy_sound :
    (R : Cursor → Cursor → Type 0) (body : (Cursor → Option Cursor) → Cursor → Option Cursor)
    → ((k : Cursor → Option Cursor) (c d : Cursor) → body k c ≡ some d → Leads R k c d)
    → (n : ℕ) (k : Cursor → Option Cursor) (c d : Cursor) → greedy n body k c ≡ some d
    → Leads (Iter R) k c d
unfolding greedy
greedy_sound R body sound zero k c d h = (c, stop c, h)
greedy_sound R body sound (suc n) k c d h = elim (or_else-cases _ _ d h) [
  | inl e ↦
      Leads-more R n k (greedy n body k) c d (λ a. greedy_sound R body sound n k a d)
        (sound _ c d e)
  | inr (_, e) ↦ (c, stop c, e)
]

reluctant_sound :
    (R : Cursor → Cursor → Type 0) (body : (Cursor → Option Cursor) → Cursor → Option Cursor)
    → ((k : Cursor → Option Cursor) (c d : Cursor) → body k c ≡ some d → Leads R k c d)
    → (n : ℕ) (k : Cursor → Option Cursor) (c d : Cursor) → reluctant n body k c ≡ some d
    → Leads (Iter R) k c d
unfolding reluctant
reluctant_sound R body sound zero k c d h = (c, stop c, h)
reluctant_sound R body sound (suc n) k c d h = elim (or_else-cases _ _ d h) [
  | inl e ↦ (c, stop c, e)
  | inr (_, e) ↦
      Leads-more R n k (reluctant n body k) c d (λ a. reluctant_sound R body sound n k a d)
        (sound _ c d e)
]

step_set_sound :
    (p : ℕ → Bool) (k : Cursor → Option Cursor) (c : Cursor) (s : Text) (d : Cursor)
    → c.after ≡ s
    → step_set p c s k ≡ some d
    → Leads (Matches (set p)) k c d
unfolding step_set
step_set_sound p k c [] d e h = cc
step_set_sound p k c (x ∷ rest) d e h = elim (Bool-cases (p x)) [
  | inl y ↦ (
    record c { before = x ∷ c.before; after = rest },
    (x, rest, e, y, refl),
    (guarded (p x) _ d h).1,
  )
  | inr y ↦ absurd (let z = rw y at h in cc z)
]

pub run_sound :
    (r : Regex) (k : Cursor → Option Cursor) (c d : Cursor)
    → run r k c ≡ some d
    → Leads (Matches r) k c d
unfolding run
run_sound eps k c d h = (c, refl, h)
run_sound (set p) k c d h = step_set_sound p k c c.after d refl h
run_sound (seq r s) k c d h =
    let (e, m, g) = run_sound r (run s k) c d h in
    let (f, n, i) = run_sound s k e d g in (f, (e, m, n), i)
run_sound (alt r s) k c d h = elim (or_else-cases _ _ d h) [
  | inl e ↦ let (a, m, g) = run_sound r k c d e in (a, inl m, g)
  | inr (_, e) ↦ let (a, m, g) = run_sound s k c d e in (a, inr m, g)
]
run_sound (star r) k c d h = greedy_sound (Matches r) (run r) (run_sound r) (length c.after) k c d h
run_sound (lazy r) k c d h =
    reluctant_sound (Matches r) (run r) (run_sound r) (length c.after) k c d h
run_sound (group i r) k c d h =
    let (e, m, g) = run_sound r _ c d h in (capture i c e, (e, m, refl), g)
run_sound bol k c d h = let (b, g) = guarded (is_empty c.before) (k c) d h in (c, (b, refl), g)
run_sound eol k c d h = let (b, g) = guarded (at_end c.after) (k c) d h in (c, (b, refl), g)
run_sound word_boundary k c d h =
    let (b, g) = guarded (at_boundary c) (k c) d h in (c, (b, refl), g)
run_sound (ahead true r) k c d h = elim (Option-cases (run r some c)) [
  | inl e ↦ absurd (let x = rw e at h in cc x)
  | inr (f, e) ↦
      let (a, m, g) = run_sound r some c f e in
      let same : a ≡ f = cc in
      (
        record c { groups = f.groups },
        (f, subst (Matches r c) same m, refl),
        let x = rw e at h in x,
      )
]
run_sound (ahead false r) k c d h = elim (Option-cases (run r some c)) [
  | inl e ↦ (c, refl, let x = rw e at h in x)
  | inr (f, e) ↦ absurd (let x = rw e at h in cc x)
]

-- From one cursor to the other the text `taken` moves from the right to the left.
pub data Takes (taken : Text) (c d : Cursor) : Type 0 where
  takes : c.after ≡ taken ++ d.after → d.before ≡ reverse taken ++ c.before → Takes taken c d

pub Takes-trans : {c d e : Cursor} (u v : Text) → Takes u c d → Takes v d e → Takes (u ++ v) c e
Takes-trans {c} {d} {e} u v (takes a b) (takes a' b') =
    takes (a ∙ ap (λ t. u ++ t) a' ∙ sym (append_assoc u v e.after)) (
      b'
      ∙ ap (λ t. reverse v ++ t) b
      ∙ sym (append_assoc (reverse v) (reverse u) c.before)
      ∙ ap (λ t. t ++ c.before) (sym (reverse-append u v)))
