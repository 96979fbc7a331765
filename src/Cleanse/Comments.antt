-- ===== src/Cleanse/Comments.antt =====
-- What CleanseComments does at a `//`, inside a string and outside.
use mathlib.Core.List.{reverse-append}
use c_plus_server.Base.{
  ℕ, zero, suc, ◌+◌, ◌%◌, Bool, Bool-cases, Option-cases, true, false, not, ◌&&◌, ◌||◌, ◌==◌,
  ==_iff, ◌≡◌, refl, sym, ap, ◌∙◌, inl, inr, none, some, reverse, [], ◌∷◌, ◌++◌, all, arith, length,
  take-append_length, if◌then◌else◌,
}
use c_plus_server.Text.{
  Text, codes, find, starts_with, count, count_from, replace, replace_from, rstrip, lstrip,
}
use c_plus_server.Regex.{
  Regex, Cursor, run, remove_from, remove_all, space, lit, lit_codes, star, plus,
}
use c_plus_server.Regex.Sound.{run_sound, Matches, Takes, takes}
use c_plus_server.Regex.Progress.{Matches-Takes}
use c_plus_server.Cleanse.Patterns.{re_pattern_c_comments, re_pattern_cleanse_line_c_comments}
use c_plus_server.Cleanse.{cleanse_comments, strip_line_comment, is_cpp_string}

-- Whether a double quote is open behind the text.
unfoldable pub in_string : Text → Bool
in_string [] = false
in_string (x ∷ s) = let rest = in_string s in if x == b'"' then not rest else rest

-- No slash, no single quote and no backslash.
abbrev pub simple_char : ℕ → Bool
simple_char c = not (c == b'/' || c == b'\'' || c == b'\\')

abbrev pub no_star : ℕ → Bool
no_star c = not (c == b'*')

all-append_right : (p : ℕ → Bool) (s t : Text) → all p (s ++ t) ≡ true → all p t ≡ true
all-append_right p [] t h = h
all-append_right p (x ∷ s) t h = all-append_right p s t (ground arith)

all-weaken :
    (p q : ℕ → Bool) (s : Text)
    → ((c : ℕ) → p c ≡ true → q c ≡ true)
    → all p s ≡ true
    → all q s ≡ true
all-weaken p q [] w h = refl
all-weaken p q (x ∷ s) w h =
    let (hx, hs) : (p x ≡ true) × (all p s ≡ true) = ground arith in
    rw (w x hx) (all-weaken p q s w hs)

find-slashes :
    (t rest : Text)
    → all simple_char t ≡ true
    → find (t ++ b'/' ∷ b'/' ∷ rest) (codes "//") ≡ some (length t)
unfolding find starts_with codes
find-slashes [] rest h = refl
find-slashes (x ∷ t) rest h =
    let (hx, ht) : ((x == b'/') ≡ false) × (all simple_char t ≡ true) = ground arith in
    rw (hx, find-slashes t rest ht) (ap some (omega arith))

module _ (c : ℕ) (p : Text) where
  abbrev other : ℕ → Bool
  other x = not (x == c)

  count-absent : (s : Text) → all other s ≡ true → count s (c ∷ p) ≡ 0
  unfolding count count_from starts_with
  count-absent [] h = refl
  count-absent (x ∷ s) h =
      let (hx, hs) : ((x == c) ≡ false) × (all other s ≡ true) = ground arith in
      rw hx (count-absent s hs)

  replace-absent : (r s : Text) → all other s ≡ true → replace s (c ∷ p) r ≡ s
  unfolding replace replace_from starts_with
  replace-absent r [] h = refl
  replace-absent r (x ∷ s) h =
      let (hx, hs) : ((x == c) ≡ false) × (all other s ≡ true) = ground arith in
      rw hx (ap (λ t. x ∷ t) (replace-absent r s hs))

odd_suc : (n : ℕ) → (suc n % 2 == 1) ≡ not (n % 2 == 1)
odd_suc n = ground arith

count-in_string : (s : Text) → (count s (codes "\"") % 2 == 1) ≡ in_string s
unfolding count count_from starts_with codes in_string
count-in_string [] = refl
count-in_string (x ∷ s) = elim (Bool-cases (x == b'"')) [
  | inl e ↦ rw e (odd_suc (count s (codes "\"")) ∙ ap not (count-in_string s))
  | inr e ↦ rw e (count-in_string s)
]

is_cpp_string-in_string : (t : Text) → all simple_char t ≡ true → is_cpp_string t ≡ in_string t
unfolding is_cpp_string codes
is_cpp_string-in_string t h =
    let back = all-weaken simple_char (λ x. not (x == b'\\')) t (λ c k. ground arith) h in
    let single = all-weaken simple_char (λ x. not (x == b'\'')) t (λ c k. ground arith) h in
    rw
      (
        is_cpp_string,
        replace-absent b'\\' (b'\\' ∷ []) (codes "XX") t back,
        count-absent b'\\' (b'"' ∷ []) t back,
        count-absent b'\'' (b'"' ∷ b'\'' ∷ []) t single,
      )
      (let sum : count t (codes "\"") + 0 + 0 ≡ count t (codes "\"") = omega arith in
        ap (λ n. n % 2 == 1) sum ∙ count-in_string t)

strip_line_comment-at :
    (t rest : Text)
    → all simple_char t ≡ true
    → strip_line_comment (t ++ b'/' ∷ b'/' ∷ rest)
      ≡ (if in_string t then t ++ b'/' ∷ b'/' ∷ rest else rstrip t)
unfolding strip_line_comment
strip_line_comment-at t rest h =
    rw
      (
        strip_line_comment,
        find-slashes t rest h,
        take-append_length t (b'/' ∷ b'/' ∷ rest),
        is_cpp_string-in_string t h,
      )
      refl

-- A C comment begins with a slash and a star.
c_comment-begins :
    (c d : Cursor)
    → Matches re_pattern_c_comments c d
    → (rest : Text) × (c.after ≡ b'/' ∷ b'*' ∷ rest)
unfolding re_pattern_c_comments lit lit_codes codes
c_comment-begins c d (e, (f, (x, u, a, h, k), (g, (y, v, a', h', k'), _)), _) =
    let e1 : x ≡ b'/' = (==_iff x b'/').0 h in
    let e2 : y ≡ b'*' = (==_iff y b'*').0 h' in
    let e3 : u ≡ y ∷ v = ap (λ (z : Cursor). z.after) (sym k) ∙ a' in
    (v, a ∙ ap (λ z. z ∷ u) e1 ∙ ap (λ t. b'/' ∷ t) (e3 ∙ ap (λ z. z ∷ v) e2))

abbrev Apart : (ℕ → Bool) → Type 0
Apart p = p b'/' && p b'*' ≡ false

module _ (p : ℕ → Bool) (apart : Apart p) where
  no_c_comment : (c d : Cursor) → all p c.after ≡ true → Matches re_pattern_c_comments c d → ⊥
  no_c_comment c d h m = let (rest, e) = c_comment-begins c d m in absurd (clash rest (rw e at h))
    where
      clash : (rest : Text) → all p (b'/' ∷ b'*' ∷ rest) ≡ true → ⊥
      clash rest k = ground arith

  no_c_comment_behind :
      (r : Regex) (c e d : Cursor)
      → all p c.after ≡ true
      → Matches r c e
      → Matches re_pattern_c_comments e d
      → ⊥
  no_c_comment_behind r c e d h m k =
      let (w, t) = Matches-Takes r c e m in no_c_comment e d (behind w t) k
    where
      behind : (w : Text) → Takes w c e → all p e.after ≡ true
      behind w (takes a b) = all-append_right p w e.after (rw a at h)

  no_pattern :
      (c d : Cursor) → all p c.after ≡ true → Matches re_pattern_cleanse_line_c_comments c d → ⊥
  unfolding re_pattern_cleanse_line_c_comments
  no_pattern c d h (e, inl (f, m, (g, k, _)), _) = no_c_comment_behind (star space) c f g h m k
  no_pattern c d h (e, inr (inl (f, k, _)), _) = no_c_comment c f h k
  no_pattern c d h (e, inr (inr (inl (f, m, (g, k, _)))), _) =
      no_c_comment_behind (plus space) c f g h m k
  no_pattern c d h (e, inr (inr (inr k)), _) = no_c_comment c e h k

  run-none :
      (before s : Text)
      → all p s ≡ true
      → run re_pattern_cleanse_line_c_comments some
          (record { before = before; after = s; groups = [] })
        ≡ none
  run-none before s h =
      let c : Cursor = record { before = before; after = s; groups = [] } in
      elim (Option-cases (run re_pattern_cleanse_line_c_comments some c)) [
        | inl e ↦ e
        | inr (d, e) ↦
            let (m, k, _) = run_sound re_pattern_cleanse_line_c_comments some c d e in
            absurd (no_pattern c m h k)
      ]

  remove_from-none :
      (before s : Text)
      → all p s ≡ true
      → remove_from zero re_pattern_cleanse_line_c_comments before s ≡ s
  unfolding remove_from
  remove_from-none before [] h = refl
  remove_from-none before (x ∷ s) h =
      rw (remove_from, run-none before (x ∷ s) h)
        (ap (λ t. x ∷ t) (remove_from-none (x ∷ before) s (ground arith)))

  remove_all-none :
      (s : Text) → all p s ≡ true → remove_all re_pattern_cleanse_line_c_comments s ≡ s
  unfolding remove_all
  remove_all-none s h = remove_from-none [] s h

abbrev no_slash : ℕ → Bool
no_slash c = not (c == b'/')

all-append : (p : ℕ → Bool) (s t : Text) → all p s ≡ true → all p t ≡ true → all p (s ++ t) ≡ true
all-append p [] t h k = k
all-append p (x ∷ s) t h k = let rest = all-append p s t (ground arith) k in ground arith

all-reverse : (p : ℕ → Bool) (s : Text) → all p s ≡ true → all p (reverse s) ≡ true
all-reverse p [] h = refl
all-reverse p (x ∷ s) h =
    rw (reverse-append (x ∷ []) s)
      (all-append p (reverse s) (x ∷ []) (all-reverse p s (ground arith)) (ground arith))

all-lstrip : (p : ℕ → Bool) (s : Text) → all p s ≡ true → all p (lstrip s) ≡ true
unfolding lstrip
all-lstrip p [] h = refl
all-lstrip p (x ∷ s) h = let k = all-lstrip p s (ground arith) in ground arith

all-rstrip : (p : ℕ → Bool) (s : Text) → all p s ≡ true → all p (rstrip s) ≡ true
unfolding rstrip
all-rstrip p s h = all-reverse p (lstrip (reverse s)) (all-lstrip p (reverse s) (all-reverse p s h))

-- On a line with a text t before a //, where t has no slash, no single quote and no backslash,
-- CleanseComments returns t without the white space at its end if the number of double quotes in
-- t is even. If it is odd, so that the // stands in a string, and the line has no star, it
-- returns the whole line.
pub cleanse_comments-slashes :
    (t rest : Text)
    → all simple_char t ≡ true
    → (in_string t ≡ true → all no_star (t ++ b'/' ∷ b'/' ∷ rest) ≡ true)
    → cleanse_comments (t ++ b'/' ∷ b'/' ∷ rest)
      ≡ (if in_string t then t ++ b'/' ∷ b'/' ∷ rest else rstrip t)
unfolding cleanse_comments
cleanse_comments-slashes t rest h k =
    let slash = all-weaken simple_char no_slash t (λ c k. ground arith) h in
    rw (cleanse_comments, strip_line_comment-at t rest h)
      (elim (Bool-cases (in_string t)) [
        | inl e ↦ rw e (remove_all-none no_star refl (t ++ b'/' ∷ b'/' ∷ rest) (k e))
        | inr e ↦ rw e (remove_all-none no_slash refl (rstrip t) (all-rstrip no_slash t slash))
      ])
