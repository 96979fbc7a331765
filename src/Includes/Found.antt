-- ===== src/Includes/Found.antt =====
-- What FindHeader finds after inclusions and preprocessor branches.
use c_plus_server.Base.{
  ℕ, true, false, Bool-cases, ◌≡◌, ◌≢◌, refl, sym, ap, ◌∙◌, inl, inr, Option, none, some, List, [],
  ◌∷◌, ◌++◌, if◌then◌else◌, arith,
}
use mathlib.Core.List.{append_assoc, append-nil}
use c_plus_server.Text.{Text, codes, text_eq, text_in, text_eq_iff}
use c_plus_server.Includes.{
  IncludeState, find_in, find_in_sections, find_header, on_last, opens_branch, switches_branch,
  reset_section, append_include,
}

abbrev first_of_two : Option ℕ → Option ℕ → Option ℕ
first_of_two none o = o
first_of_two (some n) o = some n

find_in-append :
    (header : Text) (fs gs : List (Text × ℕ))
    → find_in header (fs ++ gs) ≡ first_of_two (find_in header fs) (find_in header gs)
unfolding find_in
find_in-append header [] gs = refl
find_in-append header ((name, n) ∷ fs) gs = ground (arith, find_in-append header fs gs)

find_in_sections-append :
    (header : Text) (ss ts : List (List (Text × ℕ)))
    → find_in_sections header (ss ++ ts)
      ≡ first_of_two (find_in_sections header ss) (find_in_sections header ts)
unfolding find_in_sections
find_in_sections-append header [] ts = refl
find_in_sections-append header (fs ∷ ss) ts = ground (arith, find_in_sections-append header ss ts)

on_last-append :
    (f : List (Text × ℕ) → List (Text × ℕ)) (ss : List (List (Text × ℕ))) (fs : List (Text × ℕ))
    → on_last f (ss ++ fs ∷ []) ≡ ss ++ f fs ∷ []
unfolding on_last
on_last-append f [] fs = refl
on_last-append f (gs ∷ []) fs = refl
on_last-append f (gs ∷ hs ∷ ss) fs = ap (λ r. gs ∷ r) (on_last-append f (hs ∷ ss) fs)

find_in_sections-on_last :
    (header name : Text) (n : ℕ) (ss : List (List (Text × ℕ)))
    → ss ≢ []
    → find_in_sections header (on_last (λ fs. fs ++ (name, n) ∷ []) ss)
      ≡ first_of_two (find_in_sections header ss) (if text_eq name header then some n else none)
unfolding find_in_sections on_last find_in
find_in_sections-on_last header name n [] h = absurd (h refl)
find_in_sections-on_last header name n (fs ∷ []) h =
    ground (arith, find_in-append header fs ((name, n) ∷ []))
find_in_sections-on_last header name n (fs ∷ gs ∷ ss) h =
    ground (arith, find_in_sections-on_last header name n (gs ∷ ss))

-- An included header is found at the line of its first inclusion; what is found of other headers
-- does not change.
pub find_header-append_include :
    (s : IncludeState) (name : Text) (n : ℕ) (header : Text)
    → s.include_list ≢ []
    → find_header (append_include s name n) header
      ≡ first_of_two (find_header s header) (if text_eq name header then some n else none)
unfolding find_header append_include
find_header-append_include s name n header h =
    find_in_sections-on_last header name n s.include_list h

unfoldable pub append_all : IncludeState → List (Text × ℕ) → IncludeState
append_all s [] = s
append_all s ((name, n) ∷ fs) = append_all (append_include s name n) fs

append_all-last :
    (s : IncludeState) (ss : List (List (Text × ℕ))) (gs fs : List (Text × ℕ))
    → s.include_list ≡ ss ++ gs ∷ []
    → (append_all s fs).include_list ≡ ss ++ (gs ++ fs) ∷ []
unfolding append_all append_include
append_all-last s ss gs [] e = e ∙ ap (λ r. ss ++ r ∷ []) (sym (append-nil gs))
append_all-last s ss gs ((name, n) ∷ fs) e =
    append_all-last (append_include s name n) ss (gs ++ (name, n) ∷ []) fs
      (ap (on_last (λ hs. hs ++ (name, n) ∷ [])) e ∙ on_last-append _ ss gs)
    ∙ ap (λ r. ss ++ r ∷ []) (append_assoc gs ((name, n) ∷ []) fs)

reset_section-opens :
    (s : IncludeState) (d : Text)
    → opens_branch d ≡ true
    → (reset_section s d).include_list ≡ s.include_list ++ [] ∷ []
unfolding reset_section
reset_section-opens s d h = rw h

switches-not_opens : (e : Text) → switches_branch e ≡ true → opens_branch e ≡ false
unfolding switches_branch opens_branch text_in codes
switches-not_opens e h = elim (Bool-cases (text_eq e (codes "else"))) [
  | inl x ↦ rw ((text_eq_iff e (codes "else")).0 x) refl
  | inr x ↦ rw ((text_eq_iff e (codes "elif")).0 (ground arith)) refl
]

reset_section-switches :
    (s : IncludeState) (e : Text)
    → switches_branch e ≡ true
    → (reset_section s e).include_list ≡ on_last (λ _. []) s.include_list
unfolding reset_section
reset_section-switches s e h = rw (switches-not_opens e h, h)

first_of_two-none : (o : Option ℕ) → first_of_two o none ≡ o
first_of_two-none none = refl
first_of_two-none (some n) = refl

find_in_sections-nil :
    (header : Text) (ss : List (List (Text × ℕ)))
    → find_in_sections header (ss ++ [] ∷ []) ≡ find_in_sections header ss
unfolding find_in_sections find_in
find_in_sections-nil header ss =
    find_in_sections-append header ss ([] ∷ []) ∙ first_of_two-none (find_in_sections header ss)

-- If between a directive that opens a conditional and the next #else or #elif there are only
-- inclusions, without a nested conditional, then behind that #else or #elif FindHeader finds
-- what it found before the conditional, at the same line, and nothing else.
pub find_header-switch :
    (s : IncludeState) (d e : Text) (fs : List (Text × ℕ)) (header : Text)
    → opens_branch d ≡ true
    → switches_branch e ≡ true
    → find_header (reset_section (append_all (reset_section s d) fs) e) header
      ≡ find_header s header
unfolding find_header
find_header-switch s d e fs header od se =
    ap (find_in_sections header) (
      reset_section-switches (append_all (reset_section s d) fs) e se
      ∙ ap (on_last (λ _. []))
          (append_all-last (reset_section s d) s.include_list [] fs (reset_section-opens s d od))
      ∙ on_last-append (λ _. []) s.include_list fs)
    ∙ find_in_sections-nil header s.include_list
