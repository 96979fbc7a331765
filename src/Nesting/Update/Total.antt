-- ===== src/Nesting/Update/Total.antt =====
-- NestingState.Update always returns: its loops leave a shorter line after each round.
use c_plus_server.Base.{
  ℕ, zero, suc, ◌+◌, ◌≤◌, ◌<◌, some_of, ◌==◌, ◌||◌, ◌≢◌, ◌≡◌, ap, Option-cases, Bool-cases, none,
  some, inl, inr, List, [], ◌∷◌, ◌++◌, length, length-drop, arith, get_elem?-some,
}
use c_plus_server.Text.{Text, codes, find}
use c_plus_server.Report.{Report}
use c_plus_server.Regex.{
  star, group, dot, lit, lit_codes, opt, plus, set, space, word_boundary, any_of, none_of, is_word,
  match_re, group_text, group_of, Cursor, start,
}
use c_plus_server.Regex.Sound.{Matches}
use c_plus_server.Regex.Groups.{
  capture-length, Matches-min_length, min_length, match_re-Matches, length-after,
}
use c_plus_server.Nesting.Blocks.{BlockInfo}
use c_plus_server.Nesting.Braces.{
  brace_chars, next_brace, brace_split, brace_loop, at_brace, brace_reports, consume_braces,
}
use c_plus_server.Nesting.Template.Total.{in_template_argument_list-some}
use c_plus_server.Nesting.State.{NestingState, count_parentheses}
use c_plus_server.Nesting.Heads.{
  namespace_decl, open_namespace, consume_namespaces, consume_class, class_decl,
  outside_parentheses, check_begin_top, update_access,
}
use c_plus_server.Nesting.Update.{update_stack, update_line, update}
use c_plus_server.Preprocessor.{update_preprocessor}
use c_plus_server.Cleanse.{CleansedLines}

-- What is left behind a token is shorter than the line.
next_brace-length :
    (s : Text) (m : Cursor)
    → Matches next_brace (start s) m
    → length (group_text 2 m.groups) < length s
unfolding dot group_text group_of min_length
next_brace-length s m (a, (_, ea), (b, mb, (d, md, (e, me, (_, em))))) =
    let (u, lu, gu) = capture-length 1 (any_of brace_chars) b d tt md in
    let (v, lv, gv) = capture-length 2 (star dot) d e tt me in
    let gm : m.groups ≡ e.groups = ap (λ (x : Cursor). x.groups) em in
    let all : m.groups ≡ (2, v) ∷ d.groups = cc in
    rw all (
      omega (
        arith,
        length-after ea,
        Matches-min_length (star (none_of brace_chars)) a b mb,
        Matches-min_length (group 1 (any_of brace_chars)) b d md,
      ))

brace_split-length :
    (line : Text) (token : ℕ) (rest : Text)
    → brace_split line ≡ some (token, rest)
    → length rest < length line
unfolding brace_split
brace_split-length line token rest h = elim (Option-cases (match_re next_brace line)) [
  | inl e ↦ absurd (let x = rw (brace_split, e) at h in cc x)
  | inr (m, e) ↦
      let b = next_brace-length line m (match_re-Matches next_brace line m e) in
      let x = rw (brace_split, e) at h in ground arith
]

brace_loop-some :
    (f : ℕ) (elided : List Text) (raw_line : Text) (n : ℕ) (line : Text) (stack : List BlockInfo)
    → length line < f
    → (r : List BlockInfo × List Report) × (brace_loop f elided raw_line n line stack ≡ some r)
unfolding brace_loop
brace_loop-some zero elided raw_line n line stack h = absurd (omega arith)
brace_loop-some (suc f) elided raw_line n line stack h = elim (Option-cases (brace_split line)) [
  | inl e ↦ ((stack, []), rw (brace_loop, e))
  | inr ((token, rest), e) ↦
      let ((stack', reports), q) =
        brace_loop-some f elided raw_line n rest (at_brace token line n stack)
          (omega (arith, brace_split-length line token rest e)) in
      ((stack', brace_reports elided raw_line n token stack ++ reports), rw (brace_loop, e, q))
]

namespace_decl-length :
    (s : Text) (m : Cursor)
    → Matches namespace_decl (start s) m
    → length (group_text 2 m.groups) < length s
unfolding dot group_text group_of min_length lit lit_codes codes
namespace_decl-length s m
      (a, (_, ea), (b, mb, (d, md, (e, me, (f, mf, (g, mg, (h, mh, (_, em)))))))) =
    let (v, lv, gv) = capture-length 2 (star dot) g h tt mh in
    let gm : m.groups ≡ h.groups = ap (λ (x : Cursor). x.groups) em in
    let all : m.groups ≡ (2, v) ∷ g.groups = cc in
    rw all (
      omega (
        arith,
        length-after ea,
        Matches-min_length (star space) a b mb,
        Matches-min_length (lit "namespace") b d md,
        Matches-min_length word_boundary d e me,
        Matches-min_length (star space) e f mf,
        Matches-min_length (opt (group 1 (plus (set (λ c. c == b':' || is_word c))))) f g mg,
      ))

open_namespace-length :
    (m : Cursor) (n : ℕ) → length (open_namespace m n).1 ≤ length (group_text 2 m.groups)
unfolding open_namespace
open_namespace-length m n = elim (Option-cases (find (group_text 2 m.groups) (codes "{"))) [
  | inl e ↦ rw (open_namespace, e) (omega arith)
  | inr (i, e) ↦ rw (open_namespace, e) (omega (arith, length-drop (i + 1) (group_text 2 m.groups)))
]

consume_namespaces-some :
    (f n : ℕ) (line : Text) (stack : List BlockInfo)
    → length line < f
    → (r : Text × List BlockInfo) × (consume_namespaces f n line stack ≡ some r)
unfolding consume_namespaces
consume_namespaces-some zero n line stack h = absurd (omega arith)
consume_namespaces-some (suc f) n line stack h =
    elim (Option-cases (match_re namespace_decl line)) [
      | inl e ↦ ((line, stack), rw (consume_namespaces, e))
      | inr (m, e) ↦
          let b = namespace_decl-length line m (match_re-Matches namespace_decl line m e) in
          let (r, q) =
            consume_namespaces-some f n (open_namespace m n).1 ((open_namespace m n).0 ∷ stack)
              (omega (arith, open_namespace-length m n)) in
          (r, rw (consume_namespaces, e) q)
    ]

consume_class-ne-none :
    (c : CleansedLines) (raw_line : Text) (n : ℕ) (line : Text) (stack : List BlockInfo)
    → consume_class c raw_line n line stack ≢ none
unfolding consume_class
consume_class-ne-none c raw_line n line stack = elim (Option-cases (match_re class_decl line)) [
  | inl e ↦ rw (consume_class, e) (λ x. cc)
  | inr (m, e) ↦ elim (Bool-cases (outside_parentheses stack)) [
    | inr o ↦ rw (consume_class, e, o) (λ x. cc)
    | inl o ↦
        let (b, f) = in_template_argument_list-some c.elided n (length (group_text 1 m.groups)) in
        elim (Bool-cases b) [
          | inl t ↦ rw (consume_class, e, o, f, t) (λ x. cc)
          | inr t ↦ rw (consume_class, e, o, f, t) (λ x. cc)
        ]
  ]
]

update_stack-ne-none :
    (c : CleansedLines) (raw_line line : Text) (n : ℕ) (stack : List BlockInfo)
    → update_stack c raw_line line n stack ≢ none
unfolding update_stack consume_braces
update_stack-ne-none c raw_line line n stack =
    let ((rest, in_namespaces), e) =
      consume_namespaces-some (suc (length line)) n line stack (omega arith) in
    let ((body, in_class), f) =
      some_of (consume_class c raw_line n rest in_namespaces)
        (consume_class-ne-none c raw_line n rest in_namespaces) in
    let in_access = update_access n body (check_begin_top line in_class) in
    let (r, g) =
      brace_loop-some (suc (length body)) c.elided raw_line n body in_access.0 (omega arith) in
    rw (update_stack, e, f, g) (λ x. cc)

update_line-ne-none :
    (c : CleansedLines) (raw_line line : Text) (n : ℕ) (s : NestingState)
    → update_line c raw_line line n s ≢ none
unfolding update_line
update_line-ne-none c raw_line line n s =
    let stack = count_parentheses line (update_preprocessor s.nesting line).stack in
    let (r, e) =
      some_of (update_stack c raw_line line n stack)
        (update_stack-ne-none c raw_line line n stack) in
    rw (update_line, e) (λ x. cc)

-- On every line of a file, with every stack, Update returns and raises no error.
pub update-some :
    (clean_lines : CleansedLines) (linenum : ℕ) (s : NestingState)
    → linenum < length clean_lines.elided
    → linenum < length clean_lines.raw_lines
    → (r : NestingState × List Report) × (update clean_lines linenum s ≡ some r)
unfolding update
update-some c n s h h' =
    let (line, e) = get_elem?-some n c.elided h in
    let (raw_line, f) = get_elem?-some n c.raw_lines h' in
    some_of (update c n s) (rw (update, e, f) (update_line-ne-none c raw_line line n s))
