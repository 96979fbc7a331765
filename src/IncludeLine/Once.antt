-- ===== src/IncludeLine/Once.antt =====
-- No header stands twice on the list of headers.
use c_plus_server.Base.{
  ℕ, ◌+◌, ◌≤◌, Bool, Bool-cases, Option-cases, true, false, ◌||◌, not, ◌≡◌, refl, sym, inl, inr,
  Option, none, some, List, [], ◌∷◌, ◌++◌, arith, if◌then◌else◌, subst,
}
use c_plus_server.Text.{Text, codes, text_eq, text_eq_iff}
use c_plus_server.Regex.{search_re, group_text, matches}
use c_plus_server.Report.{Report}
use c_plus_server.Cleanse.Patterns.{re_pattern_include}
use c_plus_server.Extensions.{get_header_extensions, get_non_header_extensions}
use c_plus_server.FileNames.{repository_name, base_name}
use c_plus_server.Includes.{
  IncludeState, find_in, find_in_sections, find_header, on_last, reset_section, append_include,
  set_last_header, check_next_include_order, next_section, HeaderType,
}
use c_plus_server.Reporting.{◌>>=◌}
use c_plus_server.IncludeLine.Headers.{third_party_headers_pattern}
use c_plus_server.IncludeLine.Classify.{Setting, classify_include}
use c_plus_server.FileNames.Search.{Shortens, TopIsPlain}
use c_plus_server.IncludeLine.Total.{Returns, check_include_line-Returns}
use c_plus_server.IncludeLine.{
  include_report, check_subdir, source_of_other, third_src_header, base_filename, check_order,
  include_new, include_found, check_include_line,
}

-- How often the header stands in a section, and on the whole list.
unfoldable pub occurs : Text → List (Text × ℕ) → ℕ
occurs h [] = 0
occurs h ((name, n) ∷ fs) = (if text_eq name h then 1 else 0) + occurs h fs

unfoldable pub occurs_in : Text → List (List (Text × ℕ)) → ℕ
unfolding occurs
occurs_in h [] = 0
occurs_in h (fs ∷ ss) = occurs h fs + occurs_in h ss

abbrev pub AtMostOnce : IncludeState → Type 0
AtMostOnce s = (h : Text) → occurs_in h s.include_list ≤ 1

occurs-none : (h : Text) (fs : List (Text × ℕ)) → find_in h fs ≡ none → occurs h fs ≡ 0
unfolding occurs find_in
occurs-none h [] e = refl
occurs-none h ((name, n) ∷ fs) e = ground (arith, occurs-none h fs)

occurs_in-none :
    (h : Text) (ss : List (List (Text × ℕ))) → find_in_sections h ss ≡ none → occurs_in h ss ≡ 0
unfolding occurs_in find_in_sections
occurs_in-none h [] e = refl
occurs_in-none h (fs ∷ ss) e = ground (arith, occurs-none h fs, occurs_in-none h ss)

occurs-append :
    (h : Text) (fs gs : List (Text × ℕ)) → occurs h (fs ++ gs) ≡ occurs h fs + occurs h gs
unfolding occurs
occurs-append h [] gs = omega arith
occurs-append h ((name, n) ∷ fs) gs = omega (arith, occurs-append h fs gs)

occurs_in-append :
    (h : Text) (ss ts : List (List (Text × ℕ)))
    → occurs_in h (ss ++ ts) ≡ occurs_in h ss + occurs_in h ts
unfolding occurs_in
occurs_in-append h [] ts = omega arith
occurs_in-append h (fs ∷ ss) ts = omega (arith, occurs_in-append h ss ts)

occurs_in-added :
    (h name : Text) (n : ℕ) (ss : List (List (Text × ℕ)))
    → occurs_in h (on_last (λ fs. fs ++ (name, n) ∷ []) ss)
      ≤ occurs_in h ss + (if text_eq name h then 1 else 0)
unfolding occurs_in on_last occurs
occurs_in-added h name n [] = omega arith
occurs_in-added h name n (fs ∷ []) = omega (arith, occurs-append h fs ((name, n) ∷ []))
occurs_in-added h name n (fs ∷ gs ∷ ss) = omega (arith, occurs_in-added h name n (gs ∷ ss))

occurs_in-emptied :
    (h : Text) (ss : List (List (Text × ℕ))) → occurs_in h (on_last (λ _. []) ss) ≤ occurs_in h ss
unfolding occurs_in on_last occurs
occurs_in-emptied h [] = omega arith
occurs_in-emptied h (fs ∷ []) = omega arith
occurs_in-emptied h (fs ∷ gs ∷ ss) = omega (arith, occurs_in-emptied h (gs ∷ ss))

reset_section-AtMostOnce :
    (s : IncludeState) (directive : Text) → AtMostOnce s → AtMostOnce (reset_section s directive)
unfolding reset_section occurs_in occurs
reset_section-AtMostOnce s directive a h =
    ground
      (arith, a h, occurs_in-append h s.include_list ([] ∷ []), occurs_in-emptied h s.include_list)

append_include-AtMostOnce :
    (s : IncludeState) (include : Text) (n : ℕ)
    → find_header s include ≡ none
    → AtMostOnce s
    → AtMostOnce (append_include s include n)
unfolding append_include find_header
append_include-AtMostOnce s include n e a h = elim (Bool-cases (text_eq include h)) [
  | inl b ↦
      let same : include ≡ h = (text_eq_iff include h).0 b in
      let absent : occurs_in h s.include_list ≡ 0 =
        subst (λ k. occurs_in k s.include_list ≡ 0) same
          (occurs_in-none include s.include_list e) in
      let bound = occurs_in-added h include n s.include_list in ground arith
  | inr b ↦ let bound = occurs_in-added h include n s.include_list in ground (arith, a h)
]

-- The tests of the order leave the list alone.
check_next_include_order-list :
    (s : IncludeState) (t : HeaderType)
    → (check_next_include_order s t).0.include_list ≡ s.include_list
unfolding check_next_include_order
check_next_include_order-list s t = elim (Option-cases (next_section t s.section)) [
  | inl e ↦ rw (check_next_include_order, e)
  | inr (section, e) ↦ rw (check_next_include_order, e)
]

-- The state that a check returns, if it returns one.
abbrev Leaves : (IncludeState → Type 0) → Option (IncludeState × List Report) → Type 0
Leaves P none = Unit
Leaves P (some (s, reports)) = P s

bind-Leaves :
    {A : Type 0} (P : IncludeState → Type 0) (o : Option A)
    (f : A → Option (IncludeState × List Report))
    → ((a : A) → Leaves P (f a))
    → Leaves P (o >>= f)
bind-Leaves P none f h = tt
bind-Leaves P (some a) f h = h a

check_order-AtMostOnce :
    (st : Setting) (previous include : Text) (n : ℕ) (system : Bool) (s : IncludeState)
    → AtMostOnce s
    → Leaves AtMostOnce (check_order st previous n include system s)
unfolding check_order set_last_header
check_order-AtMostOnce st previous include n system s a =
    bind-Leaves AtMostOnce (base_name st.os st.options st.filename) _ (λ base.
      bind-Leaves AtMostOnce (classify_include st include system) _ (λ kind h.
        subst (λ l. occurs_in h l ≤ 1) (sym (check_next_include_order-list s kind)) (a h)))

include_new-AtMostOnce :
    (st : Setting) (previous include : Text) (n : ℕ) (system : Bool) (s : IncludeState)
    → find_header s include ≡ none
    → AtMostOnce s
    → Leaves AtMostOnce (include_new st previous n include system s)
unfolding include_new
include_new-AtMostOnce st previous include n system s e a =
    bind-Leaves AtMostOnce (base_filename st) _ (λ base.
      bind-Leaves AtMostOnce
        (third_src_header st base include (get_header_extensions st.extensions)) _
        (λ third. go (third || not (matches third_party_headers_pattern include))))
  where
    go :
        (b : Bool)
        → Leaves AtMostOnce (
            if b
            then check_order st previous n include system (append_include s include n)
            else some (s, []))
    go true =
        check_order-AtMostOnce st previous include n system (append_include s include n)
          (append_include-AtMostOnce s include n e a)
    go false = a

include_found-AtMostOnce :
    (st : Setting) (previous include : Text) (n : ℕ) (system : Bool) (s : IncludeState)
    → AtMostOnce s
    → Leaves AtMostOnce (include_found st previous n include system s)
unfolding include_found
include_found-AtMostOnce st previous include n system s a =
    elim (Option-cases (find_header s include)) [
      | inr (line, e) ↦ rw (include_found, e) a
      | inl e ↦
          rw (include_found, e)
            (bind-Leaves AtMostOnce (repository_name st.os st.options st.filename) _ (λ name.
              go (source_of_other st name include (get_non_header_extensions st.extensions)) e))
    ]
  where
    go :
        (o : Option Text)
        → find_header s include ≡ none
        → Leaves AtMostOnce (elim o [
          | some ext ↦ some (
            s,
            include_report
                  (codes "build/include")
                  n
                  (codes "Do not include ." ++ (ext ++ codes " files from other packages"))
                ∷ [],
          )
          | none ↦ include_new st previous n include system s
        ])
    go (some ext) e = a
    go none e = include_new-AtMostOnce st previous include n system s e a

-- What is kept of the reports does not matter.
more-Leaves :
    (P : IncludeState → Type 0) (o : Option (IncludeState × List Report)) (rs : List Report)
    → Leaves P o
    → Leaves P (o >>= λ r. some (r.0, rs ++ r.1))
more-Leaves P none rs h = tt
more-Leaves P (some (s, reports)) rs h = h

check_include_line-Leaves :
    (st : Setting) (line previous : Text) (n : ℕ) (s : IncludeState)
    → AtMostOnce s
    → Leaves AtMostOnce (check_include_line st line previous n s)
unfolding check_include_line
check_include_line-Leaves st line previous n s a =
    elim (Option-cases (search_re re_pattern_include line)) [
      | inl e ↦ rw (check_include_line, e) a
      | inr (m, e) ↦
          rw (check_include_line, e)
            (more-Leaves AtMostOnce _ (check_subdir line n) (
              include_found-AtMostOnce st previous (group_text 2 m.last.groups) n
                (text_eq (group_text 1 m.last.groups) (codes "<")) s a))
    ]

after_line :
    (o : Option (IncludeState × List Report))
    → Returns o
    → Leaves AtMostOnce o
    → (t : IncludeState) × (reports : List Report) × (o ≡ some (t, reports)) × AtMostOnce t
after_line none r l = absurd r
after_line (some (t, reports)) r l = (t, reports, refl, l)

-- If os.path shortens paths and no directory without a parent is the top of an SVN checkout,
-- CheckIncludeLine returns on every line. If before every header stands at most once on the list of
-- included headers, then so it does behind the line, and also behind ResetSection.
pub check_include_line-AtMostOnce :
    (st : Setting) (line previous : Text) (n : ℕ) (directive : Text) (s : IncludeState)
    → Shortens st.os
    → TopIsPlain st.os
    → AtMostOnce s
    → ((t : IncludeState) × (reports : List Report) × (check_include_line st line previous n s
          ≡ some (t, reports))
        × AtMostOnce t)
      × AtMostOnce (reset_section s directive)
check_include_line-AtMostOnce st line previous n directive s short top a = (
  after_line (check_include_line st line previous n s)
      (check_include_line-Returns st short top line previous n s)
      (check_include_line-Leaves st line previous n s a),
  reset_section-AtMostOnce s directive a,
)
