-- ===== src/LineChecks/Features.antt =====
-- my_socket/build_support/cpplint.py, FlagCxx11Features and CheckPrintf.
use c_plus_server.Base.{ℕ, ◌&&◌, not, none, some, List, [], ◌∷◌, ◌++◌, if◌then◌else◌, get_or}
use c_plus_server.Text.{Text, codes, text_eq, text_in, starts_with}
use c_plus_server.Regex.{
  Regex, ◌⊙◌, alt, set, star, plus, group, lit, lit_codes, space, word_boundary, any_of, none_of,
  matches, searches, match_re, search_re, group_text,
}
use c_plus_server.Report.{Report}
use c_plus_server.Cleanse.Patterns.{is_digit}
use c_plus_server.LineChecks.{line_report}

-- r'\s*#\s*include\s+[<"]([^<"]+)[">]'
abbrev include_name : Regex
include_name =
    star space
    ⊙ lit "#"
    ⊙ star space
    ⊙ lit "include"
    ⊙ plus space
    ⊙ any_of (b'<' ∷ b'"' ∷ [])
    ⊙ group 1 (plus (none_of (b'<' ∷ b'"' ∷ [])))
    ⊙ any_of (b'"' ∷ b'>' ∷ [])

abbrev cxx11_headers : List Text
cxx11_headers =
    codes "cfenv"
    ∷ codes "condition_variable"
    ∷ codes "fenv.h"
    ∷ codes "future"
    ∷ codes "mutex"
    ∷ codes "thread"
    ∷ codes "chrono"
    ∷ codes "ratio"
    ∷ codes "regex"
    ∷ codes "system_error"
    ∷ []

-- The reports on the header of a line that includes one.
unfoldable pub cxx11_include : ℕ → Text → List Report
cxx11_include linenum name =
    (if starts_with name (codes "tr1/")
      then line_report linenum (codes "build/c++tr1") 5
          (codes "C++ TR1 headers such as <" ++ (name ++ codes "> are unapproved."))
        ∷ []
      else [])
    ++ (if text_in name cxx11_headers
        then line_report linenum (codes "build/c++11") 5
            (codes "<" ++ (name ++ codes "> is an unapproved C++11 header."))
          ∷ []
        else [])

unfoldable pub cxx11_names : ℕ → Text → List Text → List Report
cxx11_names linenum line [] = []
cxx11_names linenum line (top_name ∷ names) =
    let more = cxx11_names linenum line names in
    if searches (word_boundary ⊙ lit "std::" ⊙ lit_codes top_name ⊙ word_boundary) line
    then line_report linenum (codes "build/c++11") 5 (
        codes "std::"
        ++ (top_name
            ++ (codes " is an unapproved C++11 class or function.  Send c-style "
                ++ (codes "an example of where it would make your code more readable, and "
                    ++ codes "they may let you use it."))))
      ∷ more
    else more

unfoldable pub flag_cxx11_features : List Text → ℕ → List Report
unfolding cxx11_include cxx11_names
flag_cxx11_features elided linenum =
    let line = get_or elided linenum [] in
    elim (match_re include_name line) [
      | some m ↦ cxx11_include linenum (group_text 1 m.groups)
      | none ↦ []
    ]
    ++ (if matches (star space ⊙ lit "#") line
          && not (matches (star space ⊙ lit "#" ⊙ star space ⊙ lit "define" ⊙ word_boundary) line)
        then []
        else cxx11_names linenum line (codes "alignment_of" ∷ codes "aligned_union" ∷ []))

-- r'snprintf\s*\(([^,]*),\s*([0-9]*)\s*,'
abbrev snprintf_size : Regex
snprintf_size =
    lit "snprintf"
    ⊙ star space
    ⊙ lit "("
    ⊙ group 1 (star (none_of (b',' ∷ [])))
    ⊙ lit ","
    ⊙ star space
    ⊙ group 2 (star (set is_digit))
    ⊙ star space
    ⊙ lit ","

unfoldable pub check_printf : List Text → ℕ → List Report
check_printf elided linenum =
    let line = get_or elided linenum [] in
    elim (search_re snprintf_size line) [
      | none ↦ []
      | some m ↦
          let size = group_text 2 m.last.groups in
          if text_eq size (codes "0")
          then []
          else line_report linenum (codes "runtime/printf") 3 (
              codes "If you can, use sizeof("
              ++ (group_text 1 m.last.groups
                  ++ (codes ") instead of " ++ (size ++ codes " as the 2nd arg to snprintf."))))
            ∷ []
    ]
    ++ ((if searches (word_boundary ⊙ lit "sprintf" ⊙ star space ⊙ lit "(") line
          then line_report linenum (codes "runtime/printf") 5
              (codes "Never use sprintf. Use snprintf instead.")
            ∷ []
          else [])
        ++ elim (search_re
            (word_boundary ⊙ group 1 (alt (lit "strcpy") (lit "strcat")) ⊙ star space ⊙ lit "(")
            line) [
              | none ↦ []
              | some m ↦
                  line_report linenum (codes "runtime/printf") 4
                    (codes "Almost always, snprintf is better than " ++ group_text 1 m.last.groups)
                  ∷ []
            ])
