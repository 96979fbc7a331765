-- ===== src/HeaderGuard/Scan.antt =====
-- What the loop of CheckForHeaderGuard finds in a file with a guard of the right name.
use mathlib.Core.List.{append_assoc, append-nil, reverse-append}
use c_plus_server.Base.{
  ℕ, ◌+◌, Bool, Bool-cases, true, false, ◌&&◌, not, ◌≡◌, refl, sym, ap, ◌∙◌, inl, inr, List, [],
  ◌∷◌, ◌++◌, all, arith, reverse, length,
}
use c_plus_server.Text.{Text, codes, is_space, words, words_from, text_eq, starts_with}
use c_plus_server.FileNames.{is_set}
use c_plus_server.FileNames.Variable.{guard_char, IsGuard}
use c_plus_server.HeaderGuard.{
  Guard, no_guard, with_ifndef, with_define, with_words, with_endif, scan_guards,
}
use c_plus_server.HeaderGuard.Matching.{endif_line}

abbrev pub ifndef_line : Text → Text
ifndef_line v = codes "#ifndef " ++ v

abbrev pub define_line : Text → Text
define_line v = codes "#define " ++ v

-- The first word is neither #ifndef nor #define.
abbrev pub Free : List Text → Type 0
Free [] = Unit
Free (w ∷ ws) = (text_eq w (codes "#ifndef") ≡ false) × (text_eq w (codes "#define") ≡ false)

abbrev pub FreeLines : List Text → Type 0
FreeLines [] = Unit
FreeLines (line ∷ lines) = Free (words line) × FreeLines lines

-- No line begins with #endif.
abbrev pub NoEndif : List Text → Type 0
NoEndif [] = Unit
NoEndif (line ∷ lines) = (starts_with line (codes "#endif") ≡ false) × NoEndif lines

-- A guard with the name `v`, between other lines.
abbrev pub guarded : Text → List Text → List Text → List Text → List Text
guarded v pre body post = pre ++ (ifndef_line v ∷ define_line v ∷ (body ++ (endif_line v ∷ post)))

and_parts : (a b : Bool) → a && b ≡ true → (a ≡ true) × (b ≡ true)
and_parts a b h = ground arith

guard_char-space : (c : ℕ) → guard_char c ≡ true → is_space c ≡ false
unfolding is_space
guard_char-space c h = ground arith

word-plain :
    (w : ℕ) (word v : Text)
    → all guard_char v ≡ true
    → words_from (w ∷ word) v ≡ (reverse (w ∷ word) ++ v) ∷ []
unfolding words_from is_space
word-plain w word [] h = ap (λ t. t ∷ []) (sym (append-nil (reverse (w ∷ word))))
word-plain w word (c ∷ v) h =
    let (a, b) = and_parts (guard_char c) (all guard_char v) h in
    rw (guard_char-space c a) (
      word-plain c (w ∷ word) v b
      ∙ ap (λ t. t ∷ [])
          (ap (λ t. t ++ v) (reverse-append (c ∷ []) (w ∷ word))
            ∙ append_assoc (reverse (w ∷ word)) (c ∷ []) v))

pub all-guard_char-IsGuard : (v : Text) → IsGuard v → all guard_char v ≡ true
all-guard_char-IsGuard v (w, e, a) = rw e (go w a)
  where
    go : (w : Text) → all guard_char w ≡ true → all guard_char (w ++ b'_' ∷ []) ≡ true
    go [] h = refl
    go (c ∷ w) h = ground (arith, go w)

words-ifndef :
    (c : ℕ) (v : Text)
    → all guard_char (c ∷ v) ≡ true
    → words (ifndef_line (c ∷ v)) ≡ codes "#ifndef" ∷ (c ∷ v) ∷ []
unfolding words words_from is_space codes
words-ifndef c v h =
    let (a, b) = and_parts (guard_char c) (all guard_char v) h in
    rw (guard_char-space c a) (ap (λ ws. codes "#ifndef" ∷ ws) (word-plain c [] v b))

words-define :
    (c : ℕ) (v : Text)
    → all guard_char (c ∷ v) ≡ true
    → words (define_line (c ∷ v)) ≡ codes "#define" ∷ (c ∷ v) ∷ []
unfolding words words_from is_space codes
words-define c v h =
    let (a, b) = and_parts (guard_char c) (all guard_char v) h in
    rw (guard_char-space c a) (ap (λ ws. codes "#define" ∷ ws) (word-plain c [] v b))

unfoldable pub seen : Text → ℕ → Text → Text → ℕ → Guard
seen ifndef n define endif m = record {
  ifndef = ifndef;
  ifndef_linenum = n;
  define = define;
  endif = endif;
  endif_linenum = m;
}

with_words-Free : (n : ℕ) (ws : List Text) (g : Guard) → Free ws → with_words n ws g ≡ g
unfolding with_words with_ifndef with_define
with_words-Free n [] g h = refl
with_words-Free n (w ∷ []) g h = refl
with_words-Free n (w ∷ x ∷ ws) g (a, b) =
    let x : (not (is_set g.ifndef) && false) ≡ false = ground arith in
    let y : (not (is_set g.define) && false) ≡ false = ground arith in rw (a, b) (rw (x, y) refl)

with_words-set :
    (n : ℕ) (ws : List Text) (c : ℕ) (v : Text) (k : ℕ) (d : ℕ) (u e : Text) (m : ℕ)
    → with_words n ws (seen (c ∷ v) k (d ∷ u) e m) ≡ seen (c ∷ v) k (d ∷ u) e m
unfolding with_words with_ifndef with_define seen
with_words-set n [] c v k d u e m = refl
with_words-set n (w ∷ []) c v k d u e m = refl
with_words-set n (w ∷ x ∷ ws) c v k d u e m = refl

-- A line whose words change nothing; it may be an #endif.
scan_guards-step :
    (n : ℕ) (line : Text) (rest : List Text) (a : Text) (k : ℕ) (d e : Text) (m : ℕ)
    → with_words n (words line) (seen a k d e m) ≡ seen a k d e m
    → (e' : Text) × (m' : ℕ) × (scan_guards n (line ∷ rest) (seen a k d e m)
        ≡ scan_guards (n + 1) rest (seen a k d e' m'))
unfolding scan_guards with_endif seen
scan_guards-step n line rest a k d e m h = elim (Bool-cases (starts_with line (codes "#endif"))) [
  | inl b ↦ (line, n, rw (h, b) refl)
  | inr b ↦ (e, m, rw (h, b) refl)
]

-- Lines whose words change nothing.
abbrev Passes : Text → ℕ → Text → List Text → Type 0
Passes a k d [] = Unit
Passes a k d (line ∷ lines) =
    ((n : ℕ) (e : Text) (m : ℕ) → with_words n (words line) (seen a k d e m) ≡ seen a k d e m)
    × Passes a k d lines

FreeLines-Passes : (lines : List Text) → FreeLines lines → Passes [] 0 [] lines
FreeLines-Passes [] h = tt
FreeLines-Passes (line ∷ lines) (h, hs) =
    (λ n e m. with_words-Free n (words line) (seen [] 0 [] e m) h, FreeLines-Passes lines hs)

set-Passes :
    (c : ℕ) (v : Text) (k : ℕ) (d : ℕ) (u : Text) (lines : List Text)
    → Passes (c ∷ v) k (d ∷ u) lines
set-Passes c v k d u [] = tt
set-Passes c v k d u (line ∷ lines) =
    (λ n e m. with_words-set n (words line) c v k d u e m, set-Passes c v k d u lines)

scan_guards-Passes :
    (n : ℕ) (lines rest : List Text) (a : Text) (k : ℕ) (d e : Text) (m : ℕ)
    → Passes a k d lines
    → (e' : Text) × (m' : ℕ) × (scan_guards n (lines ++ rest) (seen a k d e m)
        ≡ scan_guards (n + length lines) rest (seen a k d e' m'))
scan_guards-Passes n [] rest a k d e m h =
    (e, m, ap (λ i. scan_guards i rest (seen a k d e m)) (omega arith))
scan_guards-Passes n (line ∷ lines) rest a k d e m (h, hs) =
    let (e', m', q) = scan_guards-step n line (lines ++ rest) a k d e m (h n e m) in
    let (f, i, r) = scan_guards-Passes (n + 1) lines rest a k d e' m' hs in
    (f, i, q ∙ r ∙ ap (λ j. scan_guards j rest (seen a k d f i)) (omega arith))

-- Behind the guard nothing is noted.
scan_guards-NoEndif :
    (n : ℕ) (lines : List Text) (c : ℕ) (v : Text) (k : ℕ) (d : ℕ) (u e : Text) (m : ℕ)
    → NoEndif lines
    → scan_guards n lines (seen (c ∷ v) k (d ∷ u) e m) ≡ seen (c ∷ v) k (d ∷ u) e m
unfolding scan_guards with_endif
scan_guards-NoEndif n [] c v k d u e m h = refl
scan_guards-NoEndif n (line ∷ lines) c v k d u e m (h, hs) =
    rw (with_words-set n (words line) c v k d u e m, h)
      (scan_guards-NoEndif (n + 1) lines c v k d u e m hs)

scan-ifndef :
    (n c : ℕ) (v e : Text) (m : ℕ) (rest : List Text)
    → all guard_char (c ∷ v) ≡ true
    → scan_guards n (ifndef_line (c ∷ v) ∷ rest) (seen [] 0 [] e m)
      ≡ scan_guards (n + 1) rest (seen (c ∷ v) n [] e m)
unfolding scan_guards with_endif with_words with_ifndef with_define text_eq starts_with codes seen
scan-ifndef n c v e m rest h = rw (words-ifndef c v h) refl

scan-define :
    (n c : ℕ) (v e : Text) (k m : ℕ) (rest : List Text)
    → all guard_char (c ∷ v) ≡ true
    → scan_guards n (define_line (c ∷ v) ∷ rest) (seen (c ∷ v) k [] e m)
      ≡ scan_guards (n + 1) rest (seen (c ∷ v) k (c ∷ v) e m)
unfolding scan_guards with_endif with_words with_ifndef with_define text_eq starts_with codes seen
scan-define n c v e k m rest h = rw (words-define c v h) refl

scan-endif :
    (n c : ℕ) (v e : Text) (k m : ℕ) (rest : List Text)
    → scan_guards n (endif_line (c ∷ v) ∷ rest) (seen (c ∷ v) k (c ∷ v) e m)
      ≡ scan_guards (n + 1) rest (seen (c ∷ v) k (c ∷ v) (endif_line (c ∷ v)) n)
unfolding scan_guards with_endif starts_with codes seen
scan-endif n c v e k m rest = rw (with_words-set n (words (endif_line (c ∷ v))) c v k c v e m) refl

-- Where the #endif of the guard stands.
abbrev pub endif_position : List Text → List Text → ℕ
endif_position pre body = length pre + 2 + length body

pub scan_guards-guarded :
    (c : ℕ) (v : Text) (pre body post : List Text)
    → all guard_char (c ∷ v) ≡ true
    → FreeLines pre
    → NoEndif post
    → scan_guards 0 (guarded (c ∷ v) pre body post) no_guard
      ≡ seen (c ∷ v) (length pre) (c ∷ v) (endif_line (c ∷ v)) (endif_position pre body)
unfolding seen
scan_guards-guarded c v pre body post h f g =
    let w = c ∷ v in
    let close = endif_line w ∷ post in
    let (e, m, p) =
      scan_guards-Passes 0 pre (ifndef_line w ∷ define_line w ∷ (body ++ close)) [] 0 [] [] 0
        (FreeLines-Passes pre f) in
    let (e', m', q) =
      scan_guards-Passes (length pre + 1 + 1) body close w (length pre) w e m
        (set-Passes c v (length pre) c v body) in
    let zero-length : 0 + length pre ≡ length pre = omega arith in
    let at_end : length pre + 1 + 1 + length body ≡ endif_position pre body = omega arith in
    p
    ∙ ap (λ i. scan_guards i (ifndef_line w ∷ define_line w ∷ (body ++ close)) (seen [] 0 [] e m))
        zero-length
    ∙ scan-ifndef (length pre) c v e m (define_line w ∷ (body ++ close)) h
    ∙ scan-define (length pre + 1) c v e (length pre) m (body ++ close) h
    ∙ q
    ∙ ap (λ i. scan_guards i close (seen w (length pre) w e' m')) at_end
    ∙ scan-endif (endif_position pre body) c v e' (length pre) m' post
    ∙ scan_guards-NoEndif (endif_position pre body + 1) post c v (length pre) c v (endif_line w)
        (endif_position pre body) g
