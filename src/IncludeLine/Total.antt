-- ===== src/IncludeLine/Total.antt =====
-- CheckIncludeLine returns.
use c_plus_server.Base.{
  ℕ, Bool, Option-cases, true, false, ◌&&◌, ◌||◌, not, ◌≡◌, inl, inr, Option, none, some, List, [],
  ◌∷◌, ◌++◌, if◌then◌else◌,
}
use c_plus_server.Text.{Text, codes, text_eq, has}
use c_plus_server.Regex.{search_re, group_text, matches}
use c_plus_server.Report.{Report}
use c_plus_server.Cleanse.Patterns.{re_pattern_include}
use c_plus_server.Extensions.{get_header_extensions, get_non_header_extensions}
use c_plus_server.FileNames.{repository_name, split, base_name, extension}
use c_plus_server.FileNames.Search.{Shortens, TopIsPlain, repository_name-some}
use c_plus_server.Includes.{IncludeState, find_header, append_include}
use c_plus_server.Reporting.{◌>>=◌}
use c_plus_server.IncludeLine.Headers.{third_party_headers_pattern}
use c_plus_server.IncludeLine.Classify.{Setting, classify_include, cpp_extension}
use c_plus_server.IncludeLine.{
  include_report, source_of_other, third_src_header, base_filename, check_order, include_new,
  include_found, check_include_line,
}

abbrev pub Returns : {A : Type 0} → Option A → Type 0
Returns none = ⊥
Returns (some a) = Unit

abbrev pub Result : Type 0
Result = Option (IncludeState × List Report)

returned : {A : Type 0} (o : Option A) → (a : A) × (o ≡ some a) → Returns o
returned o (a, e) = rw e tt

bind-Returns :
    {A B : Type 0} (o : Option A) (f : A → Option B)
    → Returns o
    → ((a : A) → Returns (f a))
    → Returns (o >>= f)
bind-Returns none f h k = absurd h
bind-Returns (some a) f h k = k a

if-Returns :
    {A : Type 0} (b : Bool) (o p : Option A) → Returns o → Returns p → Returns (if b then o else p)
if-Returns true o p h k = h
if-Returns false o p h k = k

module _ (st : Setting) (s : Shortens st.os) (t : TopIsPlain st.os) where
  named : (filename : Text) → Returns (repository_name st.os st.options filename)
  named filename = returned _ (repository_name-some st.os st.options filename s t)

  base_name-Returns : (filename : Text) → Returns (base_name st.os st.options filename)
  unfolding base_name split
  base_name-Returns filename =
      let (r, e) = repository_name-some st.os st.options filename s t in rw (base_name, e) tt

  extension-Returns : (filename : Text) → Returns (extension st.os st.options filename)
  unfolding extension split
  extension-Returns filename =
      let (r, e) = repository_name-some st.os st.options filename s t in rw (extension, e) tt

  classify_include-Returns :
      (include : Text) (system : Bool) → Returns (classify_include st include system)
  unfolding classify_include
  classify_include-Returns include system =
      if-Returns (system && not (cpp_extension (st.os.splitext include).1)) _ _ tt (
        bind-Returns (repository_name st.os st.options st.filename) _ (named st.filename) (λ _. tt))

  third_src_header-Returns :
      (base include : Text) (exts : List Text) → Returns (third_src_header st base include exts)
  unfolding third_src_header
  third_src_header-Returns base include [] = tt
  third_src_header-Returns base include (ext ∷ exts) =
      let (r, e) = repository_name-some st.os st.options (base ++ b'.' ∷ ext) s t in
      rw (third_src_header, e)
        (if-Returns (has include r || has r include) _ _ tt
          (third_src_header-Returns base include exts))

  check_order-Returns :
      (previous include : Text) (n : ℕ) (system : Bool) (i : IncludeState)
      → Returns (check_order st previous n include system i)
  unfolding check_order
  check_order-Returns previous include n system i =
      bind-Returns (base_name st.os st.options st.filename) _ (base_name-Returns st.filename)
        (λ base.
          bind-Returns (classify_include st include system) _
            (classify_include-Returns include system) (λ kind. tt))

  include_new-Returns :
      (previous include : Text) (n : ℕ) (system : Bool) (i : IncludeState)
      → Returns (include_new st previous n include system i)
  unfolding include_new base_filename
  include_new-Returns previous include n system i =
      bind-Returns (base_filename st) _
        (bind-Returns (extension st.os st.options st.filename) _ (extension-Returns st.filename)
          (λ _. tt))
        (λ base.
          bind-Returns (third_src_header st base include (get_header_extensions st.extensions)) _
            (third_src_header-Returns base include (get_header_extensions st.extensions))
            (λ third.
              if-Returns (third || not (matches third_party_headers_pattern include)) _ _
                (check_order-Returns previous include n system (append_include i include n)) tt))

  include_found-Returns :
      (previous include : Text) (n : ℕ) (system : Bool) (i : IncludeState)
      → Returns (include_found st previous n include system i)
  unfolding include_found
  include_found-Returns previous include n system i = elim (Option-cases (find_header i include)) [
    | inr (line, e) ↦ rw (include_found, e) tt
    | inl e ↦
        rw (include_found, e)
          (bind-Returns (repository_name st.os st.options st.filename) _ (named st.filename)
            (λ name.
              go (source_of_other st name include (get_non_header_extensions st.extensions))))
  ]
    where
      go :
          (o : Option Text)
          → Returns {A = IncludeState × List Report} (elim o [
            | some ext ↦ some (
              i,
              include_report
                    (codes "build/include")
                    n
                    (codes "Do not include ." ++ (ext ++ codes " files from other packages"))
                  ∷ [],
            )
            | none ↦ include_new st previous n include system i
          ])
      go (some ext) = tt
      go none = include_new-Returns previous include n system i

  pub check_include_line-Returns :
      (line previous : Text) (n : ℕ) (i : IncludeState)
      → Returns (check_include_line st line previous n i)
  unfolding check_include_line
  check_include_line-Returns line previous n i =
      elim (Option-cases (search_re re_pattern_include line)) [
        | inl e ↦ rw (check_include_line, e) tt
        | inr (m, e) ↦
            rw (check_include_line, e)
              (bind-Returns _ _
                (include_found-Returns previous (group_text 2 m.last.groups) n
                  (text_eq (group_text 1 m.last.groups) (codes "<")) i)
                (λ r. tt))
      ]
