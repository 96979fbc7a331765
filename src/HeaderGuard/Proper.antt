-- ===== src/HeaderGuard/Proper.antt =====
-- CheckForHeaderGuard finds nothing wrong with a guard of the right name.
use mathlib.Core.List.{append_assoc}
use c_plus_server.Base.{
  ℕ, Bool-cases, ◌||◌, ◌≡◌, refl, sym, ap, ◌∙◌, inl, inr, Option, some, none, List, [], ◌∷◌, ◌++◌,
  any, arith, if◌then◌else◌, length, length-append, get_or, subst,
}
use c_plus_server.Text.{Text, codes, text_eq_refl}
use c_plus_server.Regex.{Cursor, searches, group_of}
use c_plus_server.Reporting.{Sink, parse_nolint, ◌>>=◌}
use c_plus_server.FileNames.{PathOptions, get_header_guard_cpp_variable}
use c_plus_server.FileNames.Loops.{OsPath}
use c_plus_server.FileNames.Variable.{IsGuard, get_header_guard_cpp_variable-form}
use c_plus_server.HeaderGuard.{
  nolint_guard, pragma_once, Guard, no_guard, scan_guards, check_style, check_guard, check_endif,
  endif_matched, check_for_header_guard,
}
use c_plus_server.HeaderGuard.Matching.{guard-start, match_re-endif_comment, endif_line}
use c_plus_server.HeaderGuard.Scan.{
  ifndef_line, define_line, guarded, FreeLines, NoEndif, endif_position, seen, scan_guards-guarded,
  all-guard_char-IsGuard,
}

get_or-append :
    (xs ys : List Text) (y d : Text) (n : ℕ) → n ≡ length xs → get_or (xs ++ (y ∷ ys)) n d ≡ y
get_or-append xs ys y d n e = ap (λ i. get_or (xs ++ (y ∷ ys)) i d) e ∙ go xs
  where
    go : (xs : List Text) → get_or (xs ++ (y ∷ ys)) (length xs) d ≡ y
    go [] = refl
    go (x ∷ xs) = go xs

get_or-guarded :
    (v : Text) (pre body post : List Text)
    → get_or (guarded v pre body post) (endif_position pre body) [] ≡ endif_line v
get_or-guarded v pre body post =
    ap (λ l. get_or l (endif_position pre body) [])
      (sym (append_assoc pre (ifndef_line v ∷ define_line v ∷ body) (endif_line v ∷ post)))
    ∙ get_or-append (pre ++ (ifndef_line v ∷ define_line v ∷ body)) post (endif_line v) []
        (endif_position pre body)
        (omega (arith, length-append pre (ifndef_line v ∷ define_line v ∷ body)))

>>=-some : {A : Type 0} (m : Option A) (f : A → Option A) → ((a : A) → f a ≡ some a) → (m >>= f) ≡ m
>>=-some none f h = refl
>>=-some (some a) f h = h a

endif_matched-none :
    (v : Text) (g : Guard) (opening closing : Text) (m : Cursor) (s : Sink)
    → m.groups ≡ []
    → endif_matched v g opening closing m s ≡ some s
unfolding endif_matched group_of
endif_matched-none v g opening closing m s h = rw (endif_matched, h)

check_endif-proper :
    (v : Text) (k n : ℕ) (raw_lines : List Text) (s : Sink)
    → IsGuard v
    → check_endif v (seen v k v (endif_line v) n) raw_lines s ≡ some s
unfolding check_endif seen
check_endif-proper v k n raw_lines s g =
    let (m, e, h) = match_re-endif_comment v g in
    rw (check_endif, e)
      (endif_matched-none v (seen v k v (endif_line v) n) (codes "// ") (codes "\"") m s h)

check_guard-proper :
    (c : ℕ) (v : Text) (k n : ℕ) (raw_lines : List Text) (s : Sink)
    → IsGuard (c ∷ v)
    → check_guard (c ∷ v) (seen (c ∷ v) k (c ∷ v) (endif_line (c ∷ v)) n) raw_lines s
      ≡ parse_nolint (get_or raw_lines n []) n s
unfolding check_guard check_style seen
check_guard-proper c v k n raw_lines s g = rw (text_eq_refl (c ∷ v)) (
    >>=-some (parse_nolint (get_or raw_lines n []) n s)
      (check_endif (c ∷ v) (seen (c ∷ v) k (c ∷ v) (endif_line (c ∷ v)) n) raw_lines)
      (λ s'. check_endif-proper (c ∷ v) k n raw_lines s' g))

guard_found :
    (v : Text) (pre body post : List Text) (s : Sink)
    → IsGuard v
    → FreeLines pre
    → NoEndif post
    → check_guard v (scan_guards 0 (guarded v pre body post) no_guard) (guarded v pre body post) s
      ≡ parse_nolint (endif_line v) (endif_position pre body) s
guard_found v pre body post s g f e =
    let (c, w, q, _) = guard-start v g in
    subst
      (λ u.
        check_guard u (scan_guards 0 (guarded u pre body post) no_guard) (guarded u pre body post) s
        ≡ parse_nolint (endif_line u) (endif_position pre body) s)
      (sym q)
      (let lines = guarded (c ∷ w) pre body post in
        let g' = subst IsGuard q g in
        ap (λ k. check_guard (c ∷ w) k lines s)
          (scan_guards-guarded c w pre body post (all-guard_char-IsGuard (c ∷ w) g') f e)
        ∙ check_guard-proper c w (length pre) (endif_position pre body) lines s g'
        ∙ ap (λ t. parse_nolint t (endif_position pre body) s)
            (get_or-guarded (c ∷ w) pre body post))

-- If GetHeaderGuardCPPVariable returns `v`, and a file has, one after the other, lines that begin
-- with neither #ifndef nor #define, the lines `#ifndef v` and `#define v`, any lines, the line
-- `#endif  // v`, and lines that do not begin with #endif, then CheckForHeaderGuard reports nothing:
-- it only reads the NOLINT comment of that #endif line, or not even that if the check is suppressed
-- in the file or the file has a `#pragma once`.
pub check_for_header_guard-proper :
    (os : OsPath) (options : PathOptions) (filename v : Text) (pre body post : List Text) (s : Sink)
    → get_header_guard_cpp_variable os options filename ≡ some v
    → FreeLines pre
    → NoEndif post
    → check_for_header_guard os options filename (guarded v pre body post) s ≡ (
        if any (searches nolint_guard) (guarded v pre body post)
          || any (searches pragma_once) (guarded v pre body post)
        then some s
        else parse_nolint (endif_line v) (endif_position pre body) s)
unfolding check_for_header_guard
check_for_header_guard-proper os options filename v pre body post s h f e =
    elim (Bool-cases (any (searches nolint_guard) (guarded v pre body post))) [
      | inl a ↦ rw a refl
      | inr a ↦ elim (Bool-cases (any (searches pragma_once) (guarded v pre body post))) [
        | inl b ↦ rw (a, b) refl
        | inr b ↦
            rw (a, b, h)
              (guard_found v pre body post s
                (get_header_guard_cpp_variable-form os options filename v h) f e)
      ]
    ]
