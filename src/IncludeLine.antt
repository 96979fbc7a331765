-- ===== src/IncludeLine.antt =====
-- my_socket/build_support/cpplint.py, the checks of #include lines: _DropCommonSuffixes,
-- _ClassifyInclude, CheckIncludeLine, CheckHeaderFileIncluded and FilesBelongToSameModule. The sets
-- of extensions are gone through in the order of their lists.
pub mod Headers
pub mod Classify
pub mod Total
pub mod Once
mod Tests
use c_plus_server.Base.{
  ℕ, ◌+◌, ◌-◌, Bool, true, false, ◌&&◌, ◌||◌, not, Option, none, some, List, [], ◌∷◌, ◌++◌, ◌==◌,
  if◌then◌else◌, length, take, get_or, get_elem?,
}
use c_plus_server.Text.{
  Text, codes, text_eq, text_in, ends_with, replace, lstrip, decimal, has, drop_first,
}
use c_plus_server.Regex.{
  Regex, ◌⊙◌, lit, star, plus, space, group, none_of, matches, match_re, search_re, searches,
  group_text, Cursor,
}
use c_plus_server.Report.{Report}
use c_plus_server.Cleanse.{CleansedLines}
use c_plus_server.Cleanse.Patterns.{re_pattern_include}
use c_plus_server.Extensions.{get_header_extensions, get_non_header_extensions, is_header_extension}
use c_plus_server.FileNames.{repository_name, extension, base_name}
use c_plus_server.Includes.{
  IncludeState, find_header, append_include, set_last_header, canonicalize_alphabetical_order,
  is_in_alphabetical_order, check_next_include_order,
}
use c_plus_server.Reporting.{◌>>=◌}
use c_plus_server.IncludeLine.Headers.{third_party_headers_pattern, test_file_suffix}
use c_plus_server.IncludeLine.Classify.{Setting, classify_include}

-- r'#include\s*"([^/]+\.h)"'
abbrev pub bare_include : Regex
bare_include =
    lit "#include"
    ⊙ star space
    ⊙ lit "\""
    ⊙ group 1 (plus (none_of (b'/' ∷ [])) ⊙ lit ".h")
    ⊙ lit "\""

abbrev pub include_report : Text → ℕ → Text → Report
include_report category linenum message = record {
  linenum = linenum;
  category = category;
  confidence = 4;
  message = message;
}

-- The first test of CheckIncludeLine.
unfoldable pub check_subdir : Text → ℕ → List Report
unfolding group_text
check_subdir line linenum = elim (match_re bare_include line) [
  | none ↦ []
  | some m ↦
      if matches third_party_headers_pattern (group_text 1 m.groups)
      then []
      else include_report (codes "build/include_subdir") linenum
          (codes "Include the directory when naming .h files")
        ∷ []
]

-- The first extension of a source file that an include of another package has.
unfoldable pub source_of_other : Setting → Text → Text → List Text → Option Text
source_of_other st name include [] = none
source_of_other st name include (ext ∷ exts) =
    let rest = source_of_other st name include exts in
    if ends_with include (b'.' ∷ ext) && not (text_eq (st.os.dirname name) (st.os.dirname include))
    then some ext
    else rest

-- `headername in include or include in headername`, for the header with one of the extensions
unfoldable pub third_src_header : Setting → Text → Text → List Text → Option Bool
third_src_header st basefilename include [] = some false
third_src_header st basefilename include (ext ∷ exts) =
    let rest = third_src_header st basefilename include exts in
    elim (repository_name st.os st.options (basefilename ++ b'.' ∷ ext)) [
      | none ↦ none
      | some headername ↦
          if has include headername || has headername include then some true else rest
    ]

-- `filename[0:len(filename) - len(fileinfo.Extension())]`
unfoldable pub base_filename : Setting → Option Text
base_filename st = do
  ext ← extension st.os st.options st.filename
  some (take (length st.filename - length ext) st.filename)

-- The tests of the order, for a header that has been put on the list.
unfoldable pub check_order :
    Setting → Text → ℕ → Text → Bool → IncludeState → Option (IncludeState × List Report)
check_order st previous_line linenum include is_system s = do
  base ← base_name st.os st.options st.filename
  kind ← classify_include st include is_system
  let (s', error_message) = check_next_include_order s kind
  let canonical_include = canonicalize_alphabetical_order include
  some (
    set_last_header s' canonical_include,
    (elim error_message [
      | [] ↦ []
      | c ∷ rest ↦
          include_report (codes "build/include_order") linenum (
            (c ∷ rest)
            ++ (codes ". Should be: " ++ (base ++ codes ".h, c system, c++ system, other.")))
          ∷ []
    ])
        ++ (if is_in_alphabetical_order s' previous_line canonical_include
            then []
            else include_report (codes "build/include_alpha") linenum
                (codes "Include \"" ++ (include ++ codes "\" not in alphabetical order"))
              ∷ []),
  )

-- For a header that was not included before and is no source file of another package.
unfoldable pub include_new :
    Setting → Text → ℕ → Text → Bool → IncludeState → Option (IncludeState × List Report)
unfolding check_order
include_new st previous_line linenum include is_system s = do
  base ← base_filename st
  third ← third_src_header st base include (get_header_extensions st.extensions)
  (if third || not (matches third_party_headers_pattern include)
      then check_order st previous_line linenum include is_system (append_include s include linenum)
      else some (s, []))

-- From the match of the include pattern on.
unfoldable pub include_found :
    Setting → Text → ℕ → Text → Bool → IncludeState → Option (IncludeState × List Report)
unfolding include_new
include_found st previous_line linenum include is_system s = elim (find_header s include) [
  | some duplicate_line ↦ some (
    s,
    include_report (codes "build/include") linenum (
          b'"' ∷ include
          ++ (codes "\" already included at " ++ (st.filename ++ b':' ∷ decimal duplicate_line)))
        ∷ [],
  )
  | none ↦ do
    name ← repository_name st.os st.options st.filename
    elim (source_of_other st name include (get_non_header_extensions st.extensions)) [
      | some ext ↦ some (
        s,
        include_report (codes "build/include") linenum
              (codes "Do not include ." ++ (ext ++ codes " files from other packages"))
            ∷ [],
      )
      | none ↦ include_new st previous_line linenum include is_system s
    ]
]

-- CheckIncludeLine on the line `line`, and `clean_lines.elided[linenum - 1]`.
unfoldable pub check_include_line :
    Setting → Text → Text → ℕ → IncludeState → Option (IncludeState × List Report)
unfolding check_subdir include_found group_text
check_include_line st line previous_line linenum s = elim (search_re re_pattern_include line) [
  | none ↦ some (s, check_subdir line linenum)
  | some m ↦ do
    (s', reports) ←
        include_found st previous_line linenum (group_text 2 m.last.groups)
          (text_eq (group_text 1 m.last.groups) (codes "<")) s
    some (s', check_subdir line linenum ++ reports)
]

-- `s[:-n]`
abbrev pub cut_end : Text → ℕ → Text
cut_end s n = if n == 0 then [] else take (length s - n) s

-- `filename.lstrip('.')`
unfoldable pub strip_dots : Text → Text
strip_dots [] = []
strip_dots (c ∷ s) = let rest = strip_dots s in if c == b'.' then rest else c ∷ s

-- `.replace('/public/', '/').replace('/internal/', '/')`
unfoldable pub merged : Text → Text
unfolding replace codes
merged s = replace (replace s (codes "/public/") (codes "/")) (codes "/internal/") (codes "/")

-- The source file without its extension and the suffix of a test.
unfoldable pub module_of_source : Text → Text → Text → Text
unfolding merged group_text
module_of_source filename ext base = merged (elim (search_re test_file_suffix base) [
  | none ↦ cut_end filename (length ext)
  | some m ↦ cut_end (cut_end filename (length ext)) (length (group_text 1 m.last.groups))
])

-- The header without its extension and `-inl`.
unfoldable pub module_of_header : Text → Text → Text
unfolding merged
module_of_header filename ext =
    let short = cut_end filename (length ext) in
    merged (if ends_with short (codes "-inl") then cut_end short 4 else short)

-- The answer, and the path in front of the header.
unfoldable pub same_module : Text → Text → Bool × Text
same_module cc h = if ends_with cc h then (true, cut_end cc (length h)) else (false, [])

-- For a file with the extension of a source file.
unfoldable pub same_module_as_header : Setting → Text → Text → Text → Option (Bool × Text)
unfolding module_of_source module_of_header same_module
same_module_as_header st filename_cc ext_cc filename_h = do
  ext_h ← extension st.os st.options filename_h
  base ← base_name st.os st.options filename_cc
  (if is_header_extension st.extensions (strip_dots ext_h)
      then some (
          same_module (module_of_source filename_cc ext_cc base)
            (module_of_header filename_h ext_h))
      else some (false, []))

unfoldable pub files_belong_to_same_module : Setting → Text → Text → Option (Bool × Text)
unfolding same_module_as_header
files_belong_to_same_module st filename_cc filename_h = do
  ext_cc ← extension st.os st.options filename_cc
  (if text_in (strip_dots ext_cc) (get_non_header_extensions st.extensions)
      then same_module_as_header st filename_cc ext_cc filename_h
      else some (false, []))
