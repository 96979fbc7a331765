-- ===== src/MultiLine/Clearing.antt =====
-- What RemoveMultiLineComments leaves.
use c_plus_server.Base.{
  ℕ, zero, suc, ◌+◌, ◌-◌, ◌<◌, ◌≤◌, ◌≡◌, refl, sym, ap, ◌∙◌, subst, Bool, Bool-cases, true, false,
  ◌⊎◌, inl, inr, some, List, [], ◌∷◌, length, length-drop, drop, take, any, get_or, arith, ltb, leb,
}
use c_plus_server.Text.{Text}
use c_plus_server.Report.{Report}
use c_plus_server.MultiLine.{
  begins_comment, ends_comment, next_line, clear_lines, no_end, remove_loop,
  remove_multi_line_comments, remove_multi_line_comments_from_range,
  find_next_multi_line_comment_start, find_next_multi_line_comment_end,
}
use c_plus_server.MultiLine.Lines.{
  Cleared, or_false, all_kept, Cleared-clear_lines, length-clear_lines, any-take_add, any-take-drop,
  take-clear_lines, any-drop_all, first_line,
}

-- Where a search ends: behind the lines, or at the first line that passes.
data Stop (test : Text → Bool) (total i : ℕ) (rest : List Text) (n : ℕ) : Type 0 where
  at_end : n ≡ total → any test rest ≡ false → Stop test total i rest n
  at_line :
      (k : ℕ)
      → k < length rest
      → n ≡ i + k
      → any test (take k rest) ≡ false
      → test (get_or rest k []) ≡ true
      → Stop test total i rest n

Stop-later :
    {test : Text → Bool}
    → {total i n : ℕ} → {x : Text} → {rest : List Text} → test x ≡ false
    → Stop test total (i + 1) rest n
    → Stop test total i (x ∷ rest) n
Stop-later h (at_end e q) = at_end e (or_false h q)
Stop-later h (at_line k b e q t) = at_line (suc k) (omega arith) (omega arith) (or_false h q) t

next_line-Stop :
    (test : Text → Bool) (total i : ℕ) (rest : List Text)
    → Stop test total i rest (next_line test total i rest)
unfolding next_line
next_line-Stop test total i [] = at_end refl refl
next_line-Stop test total i (x ∷ rest) = elim (Bool-cases (test x)) [
  | inl e ↦ rw e (at_line 0 (omega arith) (omega arith) refl e)
  | inr e ↦ rw e (Stop-later e (next_line-Stop test total (i + 1) rest))
]

begin_Stop :
    (lines : List Text) (i : ℕ)
    → Stop begins_comment
        (length lines)
        i
        (drop i lines)
        (find_next_multi_line_comment_start lines i)
unfolding find_next_multi_line_comment_start
begin_Stop lines i = next_line-Stop begins_comment (length lines) i (drop i lines)

end_Stop :
    (lines : List Text) (i : ℕ)
    → Stop ends_comment (length lines) i (drop i lines) (find_next_multi_line_comment_end lines i)
unfolding find_next_multi_line_comment_end
end_Stop lines i = next_line-Stop ends_comment (length lines) i (drop i lines)

-- What is left of `raw`: some lines are cleared, and either no error is reported and no line begins
-- a comment that goes on, or there is one error, of a line that begins a comment, and no line from
-- that on ends one.
pub record Cleaned (raw out : List Text) (errors : List Report) : Type 0 where
  pub only_cleared : Cleared raw out
  pub left :
      ((errors ≡ []) × (any begins_comment out ≡ false))
      ⊎ ((n : ℕ) × (n < length out)
          × (errors ≡ no_end (n + 1) ∷ [])
          × (begins_comment (get_or (drop n out) 0 []) ≡ true)
          × (any ends_comment (drop n out) ≡ false))

any-take_full :
    (i : ℕ) (xs : List Text)
    → any begins_comment (take i xs) ≡ false
    → ltb i (length xs) ≡ false
    → any begins_comment xs ≡ false
any-take_full i xs q e =
    any-take-drop begins_comment i xs q (any-drop_all begins_comment i xs (ground arith))

stop-inside :
    (lines : List Text) (i k n : ℕ)
    → k < length (drop i lines)
    → n ≡ i + k
    → leb (length lines) n ≡ false
stop-inside lines i k n u g =
    let b : n < length lines = omega (arith, length-drop i lines) in ground arith

length-range :
    (lines : List Text) (m n : ℕ)
    → length (remove_multi_line_comments_from_range lines m n) ≡ length lines
unfolding remove_multi_line_comments_from_range
length-range lines m n = length-clear_lines (n - m) m lines

Cleared-range :
    (m n : ℕ) {raw lines : List Text}
    → Cleared raw lines
    → Cleared raw (remove_multi_line_comments_from_range lines m n)
unfolding remove_multi_line_comments_from_range
Cleared-range m n r = Cleared-clear_lines (n - m) m r

take-range :
    (lines : List Text) (m n : ℕ)
    → m ≤ n
    → any begins_comment (take m lines) ≡ false
    → any begins_comment (take n (remove_multi_line_comments_from_range lines m n)) ≡ false
unfolding remove_multi_line_comments_from_range
take-range lines m n h q =
    let e : m + (n - m) ≡ n = omega arith in
    subst (λ z. any begins_comment (take z (clear_lines (n - m) m lines)) ≡ false) e
      (take-clear_lines (n - m) m lines q)

all_removed :
    (raw lines : List Text)
    → Cleared raw lines
    → any begins_comment lines ≡ false
    → Cleaned raw lines []
all_removed raw lines r q = record { only_cleared = r; left = inl (refl, q) }

no_end_reported :
    (raw lines : List Text) (m : ℕ)
    → Cleared raw lines
    → m < length lines
    → begins_comment (get_or (drop m lines) 0 []) ≡ true
    → any ends_comment (drop m lines) ≡ false
    → Cleaned raw lines (no_end (m + 1) ∷ [])
no_end_reported raw lines m r b h q = record { only_cleared = r; left = inr (m, b, refl, h, q) }

remove_loop-Cleaned :
    (f : ℕ) (raw lines : List Text) (i : ℕ)
    → length lines < f + i
    → i ≤ length lines
    → Cleared raw lines
    → any begins_comment (take i lines) ≡ false
    → (out : List Text) × (errors : List Report) × (remove_loop f lines i ≡ some (out, errors))
      × Cleaned raw out errors
unfolding remove_loop
remove_loop-Cleaned zero raw lines i h b r q = absurd (omega arith)
remove_loop-Cleaned (suc f) raw lines i h b r q = elim (Bool-cases (ltb i (length lines))) [
  | inr e ↦ (lines, [], rw e, all_removed raw lines r (any-take_full i lines q e))
  | inl e ↦ elim (begin_Stop lines i) [
    | at_end g none_begins ↦
        let past : leb (length lines) (find_next_multi_line_comment_start lines i) ≡ true =
          ground arith in
        (
          lines,
          [],
          rw (e, past),
          all_removed raw lines r (any-take-drop begins_comment i lines q none_begins),
        )
    | at_line k u g none_begins begins ↦
        elim (end_Stop lines (find_next_multi_line_comment_start lines i)) [
          | at_end g' none_ends ↦
              let inside = stop-inside lines i k _ u g in
              let past : leb (length lines) (
                    find_next_multi_line_comment_end lines
                      (find_next_multi_line_comment_start lines i))
                  ≡ true =
                ground arith in
              (
                lines,
                no_end (find_next_multi_line_comment_start lines i + 1) ∷ [],
                rw (e, inside, past),
                no_end_reported raw lines (find_next_multi_line_comment_start lines i) r
                    (omega (arith, length-drop i lines))
                    (ap begins_comment
                        (ap (λ z. get_or (drop z lines) 0 []) g ∙ first_line i k lines)
                      ∙ begins)
                    none_ends,
              )
          | at_line j u' g' w1 w2 ↦
              let m = find_next_multi_line_comment_start lines i in
              let n = find_next_multi_line_comment_end lines m in
              let none_yet =
                subst (λ z. any begins_comment (take z lines) ≡ false) (sym g)
                  (any-take_add begins_comment i k lines q none_begins) in
              let same = length-range lines m (n + 1) in
              let inside = stop-inside lines i k m u g in
              let inside' = stop-inside lines m j n u' g' in
              let (out, errors, w, c) =
                remove_loop-Cleaned f raw (remove_multi_line_comments_from_range lines m (n + 1))
                  (n + 1) (omega (arith, length-drop m lines)) (omega (arith, length-drop m lines))
                  (Cleared-range m (n + 1) r) (take-range lines m (n + 1) (omega arith) none_yet) in
              (out, errors, rw (e, inside, inside') w, c)
        ]
  ]
]

-- RemoveMultiLineComments ends on every file. It changes lines only to the dummy comment; it
-- reports nothing, and then no line is left that begins a comment without ending it, or it reports
-- one error, at a line that begins a comment while no line from there on ends one.
pub remove_multi_line_comments-Cleaned :
    (lines : List Text)
    → (out : List Text) × (errors : List Report) × (remove_multi_line_comments lines
        ≡ some (out, errors))
      × Cleaned lines out errors
unfolding remove_multi_line_comments
remove_multi_line_comments-Cleaned lines =
    remove_loop-Cleaned (suc (length lines)) lines lines 0 (omega arith) (omega arith)
      (all_kept lines) refl
