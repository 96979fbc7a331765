-- ===== src/FunctionLength/Total.antt =====
-- CheckForFunctionLengths raises no error: a line that begins a function has a name to be found.
use c_plus_server.Base.{
  ℕ, ◌<◌, Bool-cases, Option-cases, true, false, ◌≡◌, ◌≢◌, refl, ap, ◌∙◌, inl, inr, none, some,
  some_of, ==_iff, List, [], ◌∷◌, ◌++◌, length, get_elem?-some, drop,
}
use c_plus_server.Text.{Text, codes}
use c_plus_server.Report.{Report}
use c_plus_server.Regex.{
  Regex, seq, lit, Cursor, start, run, step_set, search_re, match_re, matches, group_text,
  lit_codes,
}
use c_plus_server.Regex.Finds.{run-star, search_from-ne-none}
use c_plus_server.Regex.Sound.{Takes, takes}
use c_plus_server.Regex.Progress.{Matches-Takes}
use c_plus_server.Regex.Groups.{match_re-Matches}
use c_plus_server.FunctionSize.{FunctionState, begin}
use c_plus_server.FunctionLength.{
  function_decl, called_name, starts_function, function_name, start_function, find_body, Body, body,
  declaration, missing, function_line, no_body, function_end, blank_line,
  check_for_function_lengths,
}

run-parenthesis :
    (before s : Text) (groups : List (ℕ × Text))
    → run (lit "(") some (record { before = before; after = b'(' ∷ s; groups = groups })
      ≡ some (record { before = b'(' ∷ before; after = s; groups = groups })
unfolding run step_set lit lit_codes codes
run-parenthesis before s groups = refl

run-called_name :
    (before s : Text)
    → run called_name some (record { before = before; after = b'(' ∷ s; groups = [] }) ≢ none
run-called_name before s = run-star 1 _ (lit "(") some _ (rw (run-parenthesis before s) (λ q. cc))

-- A text that matches a pattern with an opening parenthesis at its end has one.
parenthesis :
    (r : Regex) (line : Text) (m : Cursor)
    → match_re (seq r (lit "(")) line ≡ some m
    → (u v : Text) × (line ≡ u ++ b'(' ∷ v)
unfolding lit lit_codes codes
parenthesis r line m h =
    let (e, g, (f, (x, rest, a, p, _), _)) = match_re-Matches (seq r (lit "(")) line m h in
    let (w, t) = Matches-Takes r (start line) e g in
    front e rest w t (a ∙ ap (λ y. y ∷ rest) ((==_iff x b'(').0 p))
  where
    front :
        (e : Cursor) (rest w : Text)
        → Takes w (start line) e
        → e.after ≡ b'(' ∷ rest
        → (u v : Text) × (line ≡ u ++ b'(' ∷ v)
    front e rest w (takes b d) q = (w, rest, b ∙ ap (λ t. w ++ t) q)

called : (line : Text) → starts_function line ≡ true → search_re called_name line ≢ none
unfolding starts_function search_re
called line h = elim (Option-cases (match_re function_decl line)) [
  | inl e ↦ λ (q : search_re called_name line ≡ none). absurd_false (rw (starts_function, e) at h)
  | inr (m, e) ↦
      let (u, v, q) = parenthesis _ line m e in
      rw q (search_from-ne-none called_name b'(' run-called_name u [] v)
]
  where
    absurd_false : false ≡ true → ⊥
    absurd_false q = cc

function_name-ne-none :
    (line joined : Text) → starts_function line ≡ true → function_name line joined ≢ none
unfolding function_name
function_name-ne-none line joined h =
    let (f, e) = some_of (search_re called_name line) (called line h) in
    elim (Bool-cases (matches (lit "TEST") (group_text 1 f.last.groups))) [
      | inl a ↦ rw (function_name, e, a) (λ q. cc)
      | inr a ↦ rw (function_name, e, a) (λ q. cc)
    ]

start_function-some :
    (lines : List Text) (linenum : ℕ) (line : Text) (s : FunctionState)
    → starts_function line ≡ true
    → (r : FunctionState × List Report) × (start_function lines linenum line s ≡ some r)
unfolding start_function
start_function-some lines linenum line s h = go (find_body [] (drop linenum lines)) refl
  where
    go :
        (b : Body)
        → find_body [] (drop linenum lines) ≡ b
        → (r : FunctionState × List Report) × (start_function lines linenum line s ≡ some r)
    go declaration e = ((s, []), rw (start_function, e) refl)
    go missing e = ((s, no_body linenum ∷ []), rw (start_function, e) refl)
    go (body joined) e =
        let (name, f) = some_of (function_name line joined) (function_name-ne-none line joined h) in
        ((begin s name, []), rw (start_function, e) (rw f refl))

function_line-ne-none :
    (lines : List Text) (v linenum : ℕ) (line : Text) (s : FunctionState)
    → function_line lines v linenum line s ≢ none
unfolding function_line
function_line-ne-none lines v linenum line s = elim (Bool-cases (starts_function line)) [
  | inl a ↦
      let (r, e) = start_function-some lines linenum line s a in rw (function_line, a, e) (λ q. cc)
  | inr a ↦ elim (Bool-cases (matches function_end line)) [
    | inl b ↦ rw (function_line, a, b) (λ q. cc)
    | inr b ↦ elim (Bool-cases (matches blank_line line)) [
      | inl d ↦ rw (function_line, a, b, d) (λ q. cc)
      | inr d ↦ rw (function_line, a, b, d) (λ q. cc)
    ]
  ]
]

-- On every line of a file CheckForFunctionLengths returns and raises no error.
pub check_for_function_lengths-some :
    (lines : List Text) (verbose_level linenum : ℕ) (s : FunctionState)
    → linenum < length lines
    → (r : FunctionState × List Report) × (check_for_function_lengths lines verbose_level linenum s
        ≡ some r)
unfolding check_for_function_lengths
check_for_function_lengths-some lines v linenum s h =
    let (line, e) = get_elem?-some linenum lines h in
    rw (check_for_function_lengths, e)
      (some_of (function_line lines v linenum line s)
        (function_line-ne-none lines v linenum line s))
