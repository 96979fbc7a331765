-- ===== src/Nesting/Template/Total.antt =====
-- InTemplateArgumentList always returns: each round goes on behind the place where it began.
use c_plus_server.Base.{
  drop-get_elem?, if◌then◌else◌, drop-cons, drop_add, ℕ, zero, suc, ◌+◌, ◌-◌, ◌≤◌, ◌<◌, ◌≡◌, ◌≢◌,
  ◌⊎◌, inl, inr, refl, ap, ◌∙◌, Bool, Bool-cases, true, false, Option-cases, Option, none, some,
  List, [], ◌∷◌, length, length-drop, drop, get_elem?, length-append, length-reverse, arith, ◌==◌,
  leb,
}
use c_plus_server.Text.{Text}
use c_plus_server.Regex.{star, group, dot, match_re, group_text, group_of, none_of, Cursor, start}
use c_plus_server.Regex.Sound.{Matches}
use c_plus_server.Regex.Progress.{match_re-Takes}
use c_plus_server.Regex.Groups.{
  capture-length, Matches-min_length, min_length, match_re-Matches, length-after,
}
use c_plus_server.Expression.{close_expression, Place, opens_at, close_from, line_and_rest}
use c_plus_server.Expression.Bounds.{Within, within, close_expression-drop, close_expression-ahead}
use c_plus_server.Nesting.Template.{
  next_suspect, suspects, Round, answer, go_on, index_error, at_token, template_round,
  in_template_from, room, in_template_argument_list, ends_search, in_arguments,
}

-- What is left for the search at a place.
left : List Text → ℕ → ℕ
left [] pos = 1
left (line ∷ rest) pos = suc (length line - pos) + room rest

left-room : (ls : List Text) (pos : ℕ) → left ls pos ≤ room ls
unfolding left room
left-room [] pos = omega arith
left-room (line ∷ rest) pos = omega arith

left_pos : (ls : List Text) (pos : ℕ) → 0 < left ls pos
unfolding left
left_pos [] pos = omega arith
left_pos (line ∷ rest) pos = omega arith

room-drop : (k : ℕ) (ls : List Text) → room (drop k ls) ≤ room ls
unfolding room
room-drop zero ls = omega arith
room-drop (suc k) [] = omega arith
room-drop (suc k) (l ∷ ls) = omega (arith, room-drop k ls)

suspect-Matches :
    (s : Text) (m : Cursor)
    → Matches next_suspect (start s) m
    → (length m.after < length s) × (0 < length (group_text 1 m.groups))
unfolding group_text group_of min_length dot
suspect-Matches s m (a, (_, ea), (b, mb, mg)) =
    let (w, lw, gw) = capture-length 1 dot b m tt mg in
    rw gw (
      omega (
        arith,
        length-after ea,
        Matches-min_length (star (none_of suspects)) a b mb,
        Matches-min_length dot b b,
        Matches-min_length (group 1 dot) b m mg,
      ))

-- A match takes at least one character, and its group has one.
suspect-length :
    (s : Text) (m : Cursor)
    → match_re next_suspect s ≡ some m
    → (0 < length m.before) × (length m.before ≤ length s) × (0 < length (group_text 1 m.groups))
suspect-length s m h =
    let (w, e, r) = match_re-Takes next_suspect s m h in
    let (before, after) = suspect-Matches s m (match_re-Matches next_suspect s m h) in
    omega (
      arith,
      ap length e,
      length-append {0} w m.after,
      ap length r,
      length-reverse {0} w,
      before,
      after,
    )

drop-suc :
    (n : ℕ) (ls : List Text) {line : Text} {rest : List Text}
    → drop n ls ≡ line ∷ rest
    → drop (n + 1) ls ≡ rest
drop-suc n ls d = drop_add n 1 ls ∙ ap (drop 1) d

-- Behind line `n`, the place is closer to the end.
left-later :
    (n k p : ℕ) (elided : List Text) (line : Text) (rest : List Text)
    → drop n elided ≡ line ∷ rest
    → left (drop (n + suc k) elided) p ≤ room rest
left-later n k p elided line rest d =
    let e : drop (n + suc k) elided ≡ drop k rest =
      drop_add n (suc k) elided ∙ ap (drop (suc k)) d in
    rw e (omega (arith, left-room (drop k rest) p, room-drop k rest))

Place-left :
    (elided : List Text) (n pos : ℕ) (line : Text) (rest : List Text)
    → drop n elided ≡ line ∷ rest
    → (place : Place) (p q : ℕ) → close_expression elided n q ≡ some place
    → place.pos ≡ some p
    → pos ≤ q
    → q < length line
    → left (drop place.linenum elided) p < suc (length line - pos) + room rest
unfolding left
Place-left elided n pos line rest d place p q h e a b =
    go (close_expression-drop elided n q place p h e)
      (close_expression-ahead elided n q line rest d place p h e)
  where
    go :
        Within n (drop n elided) place p
        → (n < place.linenum) ⊎ (q < p)
        → left (drop place.linenum elided) p < suc (length line - pos) + room rest
    go (within zero m g lo hi) f =
        let same : drop place.linenum elided ≡ line ∷ rest =
          ap (λ i. drop i elided) (let s : place.linenum ≡ n = omega arith in s) ∙ d in
        rw same (omega arith)
    go (within (suc k) m g lo hi) f = rw m (omega (arith, left-later n k p elided line rest d))

close_from-some :
    (total n q : ℕ) (line : Text) (rest : List Text) (b : Bool)
    → opens_at line q ≡ some b
    → close_from total line n q rest ≢ none
unfolding close_from
close_from-some total n q line rest true e = rw (close_from, e) (λ x. cc)
close_from-some total n q line rest false e = rw (close_from, e) (λ x. cc)

opens_at-some : (line : Text) (q : ℕ) → q < length line → (b : Bool) × (opens_at line q ≡ some b)
unfolding opens_at
opens_at-some line q h =
    let (c, r, e) = drop-cons q line h in
    elim (Option-cases (opens_at line q)) [
      | inl f ↦ absurd (let x = rw (opens_at, e) at f in cc x)
      | inr p ↦ p
    ]

close_expression-some :
    (elided : List Text) (n q : ℕ) (line : Text) (rest : List Text)
    → drop n elided ≡ line ∷ rest
    → q < length line
    → close_expression elided n q ≢ none
unfolding close_expression line_and_rest
close_expression-some elided n q line rest d b =
    let (o, e) = opens_at-some line q b in
    rw (close_expression, line_and_rest, d) (close_from-some (length elided) n q line rest o e)

-- A round of the loop comes to an answer or to a place that is closer to the end.
data Goes (elided : List Text) (n : ℕ) : Round → Type 0 where
  answers : (b : Bool) → Goes elided n (answer b)
  goes : (m p : ℕ) → left (drop m elided) p < n → Goes elided n (go_on m p)

next_line-left :
    (elided : List Text) (n pos : ℕ) (line : Text) (rest : List Text)
    → drop n elided ≡ line ∷ rest
    → left (drop (n + 1) elided) 0 < left (line ∷ rest) pos
unfolding left
next_line-left elided n pos line rest d = rw (drop-suc n elided d) (omega (arith, left-room rest 0))

past_token-Goes :
    (elided : List Text) (n pos q : ℕ) (line : Text) (rest : List Text)
    → drop n elided ≡ line ∷ rest
    → pos < q
    → q ≤ length line
    → Goes elided
        (left (line ∷ rest) pos)
        (if leb (length line) (q + 1) then go_on (n + 1) 0 else go_on n (q + 1))
unfolding left
past_token-Goes elided n pos q line rest d a b = elim (Bool-cases (leb (length line) (q + 1))) [
  | inl e ↦ rw e (goes (n + 1) 0 (next_line-left elided n pos line rest d))
  | inr e ↦ rw e (goes n (q + 1) (rw d (ground arith)))
]

at_less-Goes :
    (elided : List Text) (n pos q : ℕ) (line : Text) (rest : List Text)
    → drop n elided ≡ line ∷ rest
    → pos < q
    → q ≤ length line
    → Goes elided (left (line ∷ rest) pos) (elim (close_expression elided n (q - 1)) [
      | none ↦ index_error
      | some place ↦ elim place.pos [
        | none ↦ answer false
        | some end_pos ↦ go_on place.linenum end_pos
      ]
    ])
unfolding left
at_less-Goes elided n pos q line rest d a b =
    elim (Option-cases (close_expression elided n (q - 1))) [
      | inl e ↦ absurd (close_expression-some elided n (q - 1) line rest d (omega arith) e)
      | inr (place, e) ↦ elim (Option-cases place.pos) [
        | inl f ↦ rw (e, f) (answers false)
        | inr (p, f) ↦
            rw (e, f)
              (goes place.linenum p (
                Place-left elided n pos line rest d place p (q - 1) e f (omega arith)
                  (omega arith)))
      ]
    ]

at_token-Goes :
    (elided : List Text) (n pos q : ℕ) (line : Text) (rest : List Text) (token : ℕ)
    → drop n elided ≡ line ∷ rest
    → pos < q
    → q ≤ length line
    → Goes elided (left (line ∷ rest) pos) (at_token elided line n q token)
unfolding at_token
at_token-Goes elided n pos q line rest token d a b = elim (Bool-cases (ends_search token)) [
  | inl e ↦ rw e (answers false)
  | inr e ↦ elim (Bool-cases (in_arguments token)) [
    | inl f ↦ rw (e, f) (answers true)
    | inr f ↦ elim (Bool-cases (token == b'<')) [
      | inl g ↦ rw (e, f, g) (at_less-Goes elided n pos q line rest d a b)
      | inr g ↦ rw (e, f, g) (past_token-Goes elided n pos q line rest d a b)
    ]
  ]
]

token_group-Goes :
    (elided : List Text) (n pos q : ℕ) (line : Text) (rest : List Text) (text : Text)
    → drop n elided ≡ line ∷ rest
    → 0 < length text
    → pos < q
    → q ≤ length line
    → Goes elided
        (left (line ∷ rest) pos)
        (elim text [ [] ↦ index_error | token ∷ more ↦ at_token elided line n q token ])
token_group-Goes elided n pos q line rest [] d g a b = absurd (omega arith)
token_group-Goes elided n pos q line rest (token ∷ more) d g a b =
    at_token-Goes elided n pos q line rest token d a b

template_round-Goes :
    (elided : List Text) (n pos : ℕ) (line : Text) (rest : List Text)
    → drop n elided ≡ line ∷ rest
    → Goes elided (left (line ∷ rest) pos) (template_round elided line n pos)
unfolding template_round
template_round-Goes elided n pos line rest d =
    elim (Option-cases (match_re next_suspect (drop pos line))) [
      | inl e ↦ rw (template_round, e) (goes (n + 1) 0 (next_line-left elided n pos line rest d))
      | inr (m, e) ↦
          let (moved, taken, one) = suspect-length (drop pos line) m e in
          rw (template_round, e)
            (token_group-Goes elided n pos (pos + length m.before) line rest (group_text 1 m.groups)
              d one (omega arith) (omega (arith, length-drop pos line)))
    ]

after_round :
    (f n : ℕ) (elided : List Text) (r : Round)
    → Goes elided n r
    → n ≤ suc f
    → ((m p : ℕ)
        → left (drop m elided) p ≤ f
        → (b : Bool) × (in_template_from f elided m p ≡ some b))
    → (b : Bool) × ◌≡◌ {A = Option Bool}
        (elim r [
          | answer b ↦ some b
          | go_on linenum' pos' ↦ in_template_from f elided linenum' pos'
          | index_error ↦ none
        ])
        (some b)
after_round f n elided (answer b) (answers _) h ih = (b, refl)
after_round f n elided (go_on m p) (goes _ _ l) h ih = ih m p (omega arith)
after_round f n elided index_error g h ih = elim g [ ]

in_template_from-some :
    (f : ℕ) (elided : List Text) (n pos : ℕ)
    → left (drop n elided) pos ≤ f
    → (b : Bool) × (in_template_from f elided n pos ≡ some b)
unfolding in_template_from
in_template_from-some zero elided n pos h = absurd (omega (arith, left_pos (drop n elided) pos))
in_template_from-some (suc f) elided n pos h = elim (Option-cases (get_elem? elided n)) [
  | inl e ↦ (false, rw (in_template_from, e))
  | inr (line, e) ↦
      let d = drop-get_elem? n elided e in
      let (b, q) =
        after_round f (left (line ∷ drop (suc n) elided) pos) elided
          (template_round elided line n pos)
          (template_round-Goes elided n pos line (drop (suc n) elided) d) (rw d at h)
          (in_template_from-some f elided) in
      (b, rw (in_template_from, e) q)
]

-- InTemplateArgumentList returns, whatever the place, and raises no error.
pub in_template_argument_list-some :
    (elided : List Text) (linenum pos : ℕ)
    → (b : Bool) × (in_template_argument_list elided linenum pos ≡ some b)
unfolding in_template_argument_list
in_template_argument_list-some elided linenum pos =
    in_template_from-some (room (drop linenum elided)) elided linenum pos
      (left-room (drop linenum elided) pos)
