-- ===== src/Expression/Refine.antt =====
-- From a round, square or curly bracket on, the search agrees with the reference of
-- Expression/Plain: what it does about `<`, `>`, `;` and operators has no effect on the result.
use c_plus_server.Base.{
  ℕ, ◌+◌, true, false, Bool-cases, ◌≡◌, refl, sym, inl, inr, List, [], ◌∷◌, ◌==◌, arith,
}
use c_plus_server.Text.{Text}
use c_plus_server.Expression.{
  is_open, is_close, Scan, keep, closed, broken, drop_angles, shift_left, pop_bracket, pop_angle,
  end_statement, step_forward, LineScan, found, gave_up, unclosed, find_end_from,
}
use c_plus_server.Expression.Plain.{plain_step, plain_end, brackets, Grounded}

-- One step of the search beside one step of the reference.
abbrev pub Agrees : Scan → Scan → Type 0
Agrees (keep s) (keep t) = Grounded s × (brackets s ≡ t)
Agrees closed closed = Unit
Agrees broken broken = Unit
Agrees _ _ = ⊥

Grounded-tail : (x y : ℕ) (s : List ℕ) → Grounded (x ∷ y ∷ s) → Grounded (y ∷ s)
Grounded-tail x y s g = g

Grounded-cons : (x : ℕ) (s : List ℕ) → Grounded s → Grounded (x ∷ s)
Grounded-cons x [] g = absurd g
Grounded-cons x (y ∷ s) g = g

brackets-cons : (s : List ℕ) → Grounded s → (y : ℕ) × (t : List ℕ) × (brackets s ≡ y ∷ t)
unfolding brackets
brackets-cons [] g = absurd g
brackets-cons (x ∷ []) g = (x, [], rw g)
brackets-cons (x ∷ y ∷ s) g = elim (Bool-cases (x == b'<')) [
  | inl e ↦ rw e (brackets-cons (y ∷ s) g)
  | inr e ↦ (x, brackets (y ∷ s), rw e)
]

-- A stack whose top is no `<`.
abbrev Topped : List ℕ → Type 0
Topped [] = ⊥
Topped (x ∷ s) = (x == b'<') ≡ false

pub drop_angles_lem :
    (s : List ℕ)
    → Grounded s
    → Grounded (drop_angles b'<' s)
      × Topped (drop_angles b'<' s)
      × (brackets (drop_angles b'<' s) ≡ brackets s)
unfolding drop_angles brackets
drop_angles_lem [] g = absurd g
drop_angles_lem (x ∷ []) g = ground arith
drop_angles_lem (x ∷ y ∷ s) g = ground (arith, drop_angles_lem (y ∷ s) g)

pop_bracket-Agrees :
    (c : ℕ) (s : List ℕ)
    → Grounded s
    → Topped s
    → Agrees (pop_bracket c s) (pop_bracket c (brackets s))
unfolding pop_bracket brackets
pop_bracket-Agrees c [] g t = absurd g
pop_bracket-Agrees c (o ∷ []) g t = ground arith
pop_bracket-Agrees c (o ∷ p ∷ s) g t = ground (arith, brackets-cons (p ∷ s) g)

pub pop_angle-Agrees : (s : List ℕ) → Grounded s → Agrees (pop_angle b'<' s) (keep (brackets s))
unfolding pop_angle brackets
pop_angle-Agrees [] g = absurd g
pop_angle-Agrees (x ∷ []) g = ground arith
pop_angle-Agrees (x ∷ y ∷ s) g = ground arith

shift_left-Agrees : (s : List ℕ) → Grounded s → Agrees (shift_left s) (keep (brackets s))
unfolding shift_left brackets
shift_left-Agrees [] g = absurd g
shift_left-Agrees (x ∷ []) g = ground arith
shift_left-Agrees (x ∷ y ∷ s) g = ground arith

pub pop_bracket-drop_angles :
    (c : ℕ) (s : List ℕ)
    → Grounded s
    → Agrees (pop_bracket c (drop_angles b'<' s)) (pop_bracket c (brackets s))
pop_bracket-drop_angles c s g =
    let (gd, td, e) = drop_angles_lem s g in
    rw (sym e) (pop_bracket-Agrees c (drop_angles b'<' s) gd td)

pub end_statement-Agrees :
    (s t : List ℕ) → Grounded s → brackets s ≡ t → Agrees (end_statement s) (keep t)
unfolding end_statement
end_statement-Agrees [] t g e = absurd g
end_statement-Agrees (x ∷ s) t g e = (g, e)

pub push-Agrees :
    (c : ℕ) (s : List ℕ)
    → is_open c ≡ true
    → Grounded s
    → Grounded (c ∷ s) × (brackets (c ∷ s) ≡ c ∷ brackets s)
unfolding is_open brackets
push-Agrees c s h g = ground (arith, Grounded-cons c s g)

pub tentative-Agrees : (s : List ℕ) → Grounded s → Agrees (keep (b'<' ∷ s)) (keep (brackets s))
unfolding brackets
tentative-Agrees s g = (Grounded-cons b'<' s g, refl)

angle_no_bracket : (c : ℕ) → (c == b'<') ≡ true → (is_open c ≡ false) × (is_close c ≡ false)
unfolding is_open is_close
angle_no_bracket c e = ground arith

step_forward-Agrees :
    (before : Text) (c : ℕ) (s : List ℕ)
    → Grounded s
    → Agrees (step_forward before c s) (plain_step c (brackets s))
unfolding step_forward plain_step
step_forward-Agrees before c s g = ground (
  arith,
  push-Agrees c s,
  angle_no_bracket c,
  shift_left-Agrees s g,
  tentative-Agrees s g,
  pop_bracket-drop_angles c s g,
  pop_angle-Agrees s g,
  end_statement-Agrees (drop_angles b'<' s) (brackets s),
  drop_angles_lem s g,
)

-- A line's search beside the reference's.
abbrev pub LineAgrees : LineScan → LineScan → Type 0
LineAgrees (found p) (found q) = p ≡ q
LineAgrees gave_up gave_up = Unit
LineAgrees (unclosed s) (unclosed t) = Grounded s × (brackets s ≡ t)
LineAgrees _ _ = ⊥

pub find_end_from-plain_end :
    (i : ℕ) (before rest : Text) (s : List ℕ)
    → Grounded s
    → LineAgrees (find_end_from i before rest s) (plain_end i rest (brackets s))
unfolding find_end_from plain_end
find_end_from-plain_end i before [] s g = (g, refl)
find_end_from-plain_end i before (c ∷ rest) s g =
    go (step_forward before c s) (plain_step c (brackets s)) (step_forward-Agrees before c s g)
      (find_end_from-plain_end (i + 1) (c ∷ before) rest)
  where
    go :
        (x y : Scan)
        → Agrees x y
        → ((s' : List ℕ)
            → Grounded s'
            → LineAgrees
                (find_end_from (i + 1) (c ∷ before) rest s')
                (plain_end (i + 1) rest (brackets s')))
        → LineAgrees
            (elim x [
              | keep stack' ↦ find_end_from (i + 1) (c ∷ before) rest stack'
              | closed ↦ found (i + 1)
              | broken ↦ gave_up
            ])
            (elim y [
              | keep stack' ↦ plain_end (i + 1) rest stack'
              | closed ↦ found (i + 1)
              | broken ↦ gave_up
            ])
    go (keep s') (keep t) (g', e) ih = rw (sym e) (ih s' g')
    go (keep s') closed a ih = absurd a
    go (keep s') broken a ih = absurd a
    go closed (keep t) a ih = absurd a
    go closed closed a ih = refl
    go closed broken a ih = absurd a
    go broken (keep t) a ih = absurd a
    go broken closed a ih = absurd a
    go broken broken a ih = tt
