-- ===== src/Regex/Groups.antt =====
-- What a group captures, and how much a pattern takes at least.
use Prim.Native.Nat.{min}
use mathlib.Core.Path.{subst, ap₂}
use mathlib.Core.List.{reverse-reverse}
use c_plus_server.Base.{
  ℕ, ◌+◌, ◌-◌, ◌≤◌, true, false, some, ◌≡◌, refl, sym, ap, ◌∙◌, inl, inr, ◌∷◌, ◌++◌, reverse, arith,
  length, length-append, take, take-append_length,
}
use c_plus_server.Text.{Text, codes}
use c_plus_server.Regex.{
  Regex, eps, set, seq, alt, star, lazy, group, bol, eol, word_boundary, ahead, Cursor, capture,
  match_re, start, lit, lit_codes,
}
use c_plus_server.Regex.Sound.{run_sound, Iter, stop, round, Matches, Takes, takes}
use c_plus_server.Regex.Progress.{Matches-Takes}

-- A pattern without groups.
abbrev pub Groupless : Regex → Type 0
Groupless (seq r s) = Groupless r × Groupless s
Groupless (alt r s) = Groupless r × Groupless s
Groupless (star r) = Groupless r
Groupless (lazy r) = Groupless r
Groupless (group i r) = ⊥
Groupless (ahead b r) = Groupless r
Groupless _ = Unit

Iter-groups :
    {R : Cursor → Cursor → Type 0} {c d : Cursor}
    → ((a b : Cursor) → R a b → b.groups ≡ a.groups)
    → Iter R c d
    → d.groups ≡ c.groups
Iter-groups each (stop c) = refl
Iter-groups each (round {c} {d} m ms) = Iter-groups each ms ∙ each c d m

pub Matches-groups : (r : Regex) (c d : Cursor) → Groupless r → Matches r c d → d.groups ≡ c.groups
Matches-groups eps c d g m = ap (λ (x : Cursor). x.groups) m
Matches-groups (set p) c d g (x, rest, a, b, e) = ap (λ (y : Cursor). y.groups) e
Matches-groups (seq r s) c d (g, h) (e, m, n) = Matches-groups s e d h n ∙ Matches-groups r c e g m
Matches-groups (alt r s) c d (g, h) (inl m) = Matches-groups r c d g m
Matches-groups (alt r s) c d (g, h) (inr m) = Matches-groups s c d h m
Matches-groups (star r) c d g m = Iter-groups (λ a b. Matches-groups r a b g) m
Matches-groups (lazy r) c d g m = Iter-groups (λ a b. Matches-groups r a b g) m
Matches-groups (group i r) c d g m = absurd g
Matches-groups bol c d g (_, e) = ap (λ (x : Cursor). x.groups) e
Matches-groups eol c d g (_, e) = ap (λ (x : Cursor). x.groups) e
Matches-groups word_boundary c d g (_, e) = ap (λ (x : Cursor). x.groups) e
Matches-groups (ahead true r) c d g (f, m, e) =
    ap (λ (x : Cursor). x.groups) e ∙ Matches-groups r c f g m
Matches-groups (ahead false r) c d g e = ap (λ (x : Cursor). x.groups) e

take-append : (u v : Text) → take (length (u ++ v) - length v) (u ++ v) ≡ u
take-append u v =
    let e : length (u ++ v) - length v ≡ length u = omega (arith, length-append u v) in
    ap (λ n. take n (u ++ v)) e ∙ take-append_length u v

pub captured :
    (w before : Text) (c : Cursor)
    → before ≡ reverse w ++ c.before
    → reverse (take (length before - length c.before) before) ≡ w
captured w before c e = rw (e, take-append (reverse w) c.before) (reverse-reverse w)

-- What a group captures is what it took.
pub data Captures (i : ℕ) (c d : Cursor) : Type 0 where
  captures : (w : Text) → Takes w c d → d.groups ≡ (i, w) ∷ c.groups → Captures i c d

pub Matches-Captures :
    (i : ℕ) (r : Regex) (c d : Cursor) → Groupless r → Matches (group i r) c d → Captures i c d
Matches-Captures i r c d g (e, m, q) =
    let (w, t) = Matches-Takes r c e m in subst (Captures i c) (sym q) (go w t)
  where
    go : (w : Text) → Takes w c e → Captures i c (capture i c e)
    go w (takes a b) =
        captures w (takes a b)
          (ap₂ (λ t gs. (i, t) ∷ gs) (captured w e.before c b) (Matches-groups r c e g m))

-- What every match of the pattern takes at least.
unfoldable pub min_length : Regex → ℕ
min_length (set p) = 1
min_length (seq r s) = min_length r + min_length s
min_length (alt r s) = min (min_length r) (min_length s)
min_length (group i r) = min_length r
min_length _ = 0

pub Takes-length :
    {w : Text} {c d : Cursor} → Takes w c d → length c.after ≡ length w + length d.after
Takes-length {w} {d} (takes a b) = ap length a ∙ length-append w d.after

pub Matches-min_length :
    (r : Regex) (c d : Cursor) → Matches r c d → min_length r + length d.after ≤ length c.after
unfolding min_length
Matches-min_length (set p) c d (x, rest, a, _, e) =
    omega (arith, ap length a, ap (λ (y : Cursor). length y.after) e)
Matches-min_length (seq r s) c d (e, m, n) =
    omega (arith, Matches-min_length r c e m, Matches-min_length s e d n)
Matches-min_length (alt r s) c d (inl m) = omega (arith, Matches-min_length r c d m)
Matches-min_length (alt r s) c d (inr m) = omega (arith, Matches-min_length s c d m)
Matches-min_length (group i r) c d (e, m, q) =
    omega (arith, Matches-min_length r c e m, ap (λ (y : Cursor). length y.after) q)
Matches-min_length r c d m = let (w, t) = Matches-Takes r c d m in omega (arith, Takes-length t)

pub capture-length :
    (i : ℕ) (r : Regex) (c d : Cursor)
    → Groupless r
    → Matches (group i r) c d
    → (w : Text) × (length c.after ≡ length w + length d.after) × (d.groups ≡ (i, w) ∷ c.groups)
capture-length i r c d g m = go (Matches-Captures i r c d g m)
  where
    go :
        Captures i c d
        → (w : Text) × (length c.after ≡ length w + length d.after) × (d.groups ≡ (i, w) ∷ c.groups)
    go (captures w t e) = (w, Takes-length t, e)

pub match_re-Matches :
    (r : Regex) (s : Text) (c : Cursor) → match_re r s ≡ some c → Matches r (start s) c
unfolding match_re
match_re-Matches r s c h =
    let (e, m, g) = run_sound r some (start s) c h in
    let same : e ≡ c = cc in subst (Matches r (start s)) same m

pub length-after : {c d : Cursor} → d ≡ c → length d.after ≡ length c.after
length-after e = ap (λ (x : Cursor). length x.after) e

-- A parenthesis takes a character and sets no group.
pub parenthesis-length :
    (c d : Cursor) → Matches (lit "(") c d → 1 + length d.after ≤ length c.after
unfolding lit lit_codes codes min_length
parenthesis-length c d m = omega (arith, Matches-min_length (lit "(") c d m)

pub parenthesis-groups : (c d : Cursor) → Matches (lit "(") c d → d.groups ≡ c.groups
unfolding lit lit_codes codes
parenthesis-groups c d m = Matches-groups (lit "(") c d (omega arith) m
