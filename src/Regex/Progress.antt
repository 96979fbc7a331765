-- ===== src/Regex/Progress.antt =====
-- A match never loses or changes text: it takes a piece off the right side.
use mathlib.Core.Path.{subst}
use mathlib.Core.List.{append-nil, append_assoc, reverse-append}
use c_plus_server.Base.{
  true, false, Option-cases, ◌≡◌, refl, sym, ap, ◌∙◌, inl, inr, some, [], ◌∷◌, ◌++◌, reverse,
}
use c_plus_server.Text.{Text}
use c_plus_server.Regex.{
  Regex, eps, set, seq, alt, star, lazy, group, bol, eol, word_boundary, ahead, Cursor, run,
  capture, match_re, start, search_re, search_from, Found,
}
use c_plus_server.Regex.Sound.{Iter, stop, round, Matches, run_sound, Takes, takes, Takes-trans}

Takes-nil : (c d : Cursor) → c.before ≡ d.before → c.after ≡ d.after → Takes [] c d
Takes-nil c d b a = takes a (sym b)

Takes-same : (c d : Cursor) → d ≡ c → (w : Text) × Takes w c d
Takes-same c d e = (
  [],
  Takes-nil c d (ap (λ (x : Cursor). x.before) (sym e)) (ap (λ (x : Cursor). x.after) (sym e)),
)

Iter-Takes :
    {R : Cursor → Cursor → Type 0} {c d : Cursor}
    → ((a b : Cursor) → R a b → (w : Text) × Takes w a b)
    → Iter R c d
    → (w : Text) × Takes w c d
Iter-Takes each (stop c) = Takes-same c c refl
Iter-Takes each (round {c} {d} m ms) =
    let (u, t) = each c d m in let (v, t') = Iter-Takes each ms in (u ++ v, Takes-trans u v t t')

pub Matches-Takes : (r : Regex) (c d : Cursor) → Matches r c d → (w : Text) × Takes w c d
Matches-Takes eps c d m = Takes-same c d m
Matches-Takes (set p) c d (x, rest, a, _, e) =
    (x ∷ [], takes (a ∙ ap (λ (y : Cursor). x ∷ y.after) (sym e)) (ap (λ (y : Cursor). y.before) e))
Matches-Takes (seq r s) c d (e, m, n) =
    let (u, t) = Matches-Takes r c e m in
    let (v, t') = Matches-Takes s e d n in (u ++ v, Takes-trans u v t t')
Matches-Takes (alt r s) c d (inl m) = Matches-Takes r c d m
Matches-Takes (alt r s) c d (inr m) = Matches-Takes s c d m
Matches-Takes (star r) c d m = Iter-Takes (Matches-Takes r) m
Matches-Takes (lazy r) c d m = Iter-Takes (Matches-Takes r) m
Matches-Takes (group i r) c d (e, m, q) =
    let (w, t) = Matches-Takes r c e m in (w, subst (Takes w c) (sym q) (regroup t))
  where
    regroup : {w : Text} {f : Cursor} → Takes w c f → Takes w c (capture i c f)
    regroup (takes a b) = takes a b
Matches-Takes bol c d (_, e) = Takes-same c d e
Matches-Takes eol c d (_, e) = Takes-same c d e
Matches-Takes word_boundary c d (_, e) = Takes-same c d e
Matches-Takes (ahead true r) c d (f, m, e) = (
  [],
  Takes-nil c d (ap (λ (x : Cursor). x.before) (sym e)) (ap (λ (x : Cursor). x.after) (sym e)),
)
Matches-Takes (ahead false r) c d e = Takes-same c d e

run-Matches : (r : Regex) (c d : Cursor) → run r some c ≡ some d → Matches r c d
run-Matches r c d h =
    let (e, m, g) = run_sound r some c d h in let same : e ≡ d = cc in subst (Matches r c) same m

run-Takes : (r : Regex) (c d : Cursor) → run r some c ≡ some d → (w : Text) × Takes w c d
run-Takes r c d h = Matches-Takes r c d (run-Matches r c d h)

-- `re.match`: the text splits into what was matched and what is left.
pub match_re-Takes :
    (r : Regex) (s : Text) (c : Cursor)
    → match_re r s ≡ some c
    → (w : Text) × (s ≡ w ++ c.after) × (c.before ≡ reverse w)
unfolding match_re
match_re-Takes r s c h = let (w, t) = run-Takes r (start s) c h in go w t
  where
    go : (w : Text) → Takes w (start s) c → (w : Text) × (s ≡ w ++ c.after) × (c.before ≡ reverse w)
    go w (takes a b) = (w, a, b ∙ append-nil (reverse w))

-- `re.search`: the text splits into what comes before the match, the match, and what is left.
pub data Splits (s : Text) (m : Found) : Type 0 where
  splits :
      (u w : Text)
      → s ≡ u ++ w ++ m.last.after
      → m.first.before ≡ reverse u
      → m.last.before ≡ reverse (u ++ w)
      → Splits s m

abbrev ahead_of : Text → Text → Cursor
ahead_of before s = record { before = before; after = s; groups = [] }

Splits-here :
    (r : Regex) (u s : Text) (d : Cursor)
    → run r some (ahead_of (reverse u) s) ≡ some d
    → Splits (u ++ s) (record { first = ahead_of (reverse u) s; last = d })
Splits-here r u s d h = let (w, t) = run-Takes r (ahead_of (reverse u) s) d h in go w t
  where
    go :
        (w : Text)
        → Takes w (ahead_of (reverse u) s) d
        → Splits (u ++ s) (record { first = ahead_of (reverse u) s; last = d })
    go w (takes a b) =
        splits u w (ap (λ t. u ++ t) a ∙ sym (append_assoc u w d.after)) refl
          (b ∙ sym (reverse-append u w))

search_from-Splits :
    (r : Regex) (u s : Text) (m : Found) → search_from r (reverse u) s ≡ some m → Splits (u ++ s) m
unfolding search_from
search_from-Splits r u [] m h = elim (Option-cases (run r some (ahead_of (reverse u) []))) [
  | inl e ↦ absurd (let x = rw (search_from, e) at h in cc x)
  | inr (d, e) ↦
      let same : record { first = ahead_of (reverse u) []; last = d } ≡ m =
        (let x = rw (search_from, e) at h in cc x) in
      subst (Splits (u ++ [])) same (Splits-here r u [] d e)
]
search_from-Splits r u (x ∷ s) m h =
    elim (Option-cases (run r some (ahead_of (reverse u) (x ∷ s)))) [
      | inl e ↦
          let h' : search_from r (x ∷ reverse u) s ≡ some m =
            (let y = rw (search_from, e) at h in y) in
          subst (λ t. Splits t m) (append_assoc u (x ∷ []) s)
            (search_from-Splits r (u ++ x ∷ []) s m
              (ap (λ t. search_from r t s) (reverse-append u (x ∷ [])) ∙ h'))
      | inr (d, e) ↦
          let same : record { first = ahead_of (reverse u) (x ∷ s); last = d } ≡ m =
            (let y = rw (search_from, e) at h in cc y) in
          subst (Splits (u ++ x ∷ s)) same (Splits-here r u (x ∷ s) d e)
    ]

pub search_re-Splits : (r : Regex) (s : Text) (m : Found) → search_re r s ≡ some m → Splits s m
unfolding search_re
search_re-Splits r s m h = search_from-Splits r [] s m h

search_from-Matches :
    (r : Regex) (before s : Text) (m : Found)
    → search_from r before s ≡ some m
    → Matches r m.first m.last
unfolding search_from
search_from-Matches r before [] m h = elim (Option-cases (run r some (ahead_of before []))) [
  | inl e ↦ absurd (let x = rw (search_from, e) at h in cc x)
  | inr (d, e) ↦
      let same : record { first = ahead_of before []; last = d } ≡ m =
        (let x = rw (search_from, e) at h in cc x) in
      subst (λ (f : Found). Matches r f.first f.last) same (run-Matches r (ahead_of before []) d e)
]
search_from-Matches r before (x ∷ s) m h =
    elim (Option-cases (run r some (ahead_of before (x ∷ s)))) [
      | inl e ↦ search_from-Matches r (x ∷ before) s m (let y = rw (search_from, e) at h in y)
      | inr (d, e) ↦
          let same : record { first = ahead_of before (x ∷ s); last = d } ≡ m =
            (let y = rw (search_from, e) at h in cc y) in
          subst (λ (f : Found). Matches r f.first f.last) same
            (run-Matches r (ahead_of before (x ∷ s)) d e)
    ]

pub search_re-Matches :
    (r : Regex) (s : Text) (m : Found) → search_re r s ≡ some m → Matches r m.first m.last
unfolding search_re
search_re-Matches r s m h = search_from-Matches r [] s m h
