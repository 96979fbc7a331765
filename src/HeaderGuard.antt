-- ===== src/HeaderGuard.antt =====
-- my_socket/build_support/cpplint.py, CheckForHeaderGuard.
pub mod Matching
pub mod Scan
pub mod Proper
mod Tests
use c_plus_server.Base.{
  ℕ, zero, suc, ◌+◌, ◌-◌, Bool, true, false, ◌&&◌, ◌||◌, not, Option, none, some, List, [], ◌∷◌,
  ◌++◌, ◌==◌, if◌then◌else◌, length, drop, take, get_or, any, all,
}
use c_plus_server.Text.{Text, codes, text_eq, words, starts_with}
use c_plus_server.Regex.{
  Regex, ◌⊙◌, lit, lit_codes, bol, star, plus, space, alt, opt, group, none_of, word_boundary,
  searches, matches, match_re, group_of, Cursor,
}
use c_plus_server.Report.{Report}
use c_plus_server.Reporting.{Sink, report, parse_nolint, ◌>>=◌}
use c_plus_server.FileNames.{PathOptions, is_set, get_header_guard_cpp_variable}
use c_plus_server.FileNames.Loops.{OsPath}

-- r'//\s*NOLINT\(build/header_guard\)'
abbrev pub nolint_guard : Regex
nolint_guard = lit "//" ⊙ star space ⊙ lit "NOLINT(build/header_guard)"

-- r'^\s*#pragma\s+once'
abbrev pub pragma_once : Regex
pragma_once = bol ⊙ star space ⊙ lit "#pragma" ⊙ plus space ⊙ lit "once"

-- What the loop over the lines has found so far; the empty text is for nothing.
pub record Guard : Type 0 where
  pub ifndef : Text
  pub ifndef_linenum : ℕ
  pub define : Text
  pub endif : Text
  pub endif_linenum : ℕ

abbrev pub no_guard : Guard
no_guard = record { ifndef = []; ifndef_linenum = 0; define = []; endif = []; endif_linenum = 0 }

unfoldable pub with_ifndef : ℕ → Text → Text → Guard → Guard
with_ifndef linenum first second g =
    if not (is_set g.ifndef) && text_eq first (codes "#ifndef")
    then record g { ifndef = second; ifndef_linenum = linenum }
    else g

unfoldable pub with_define : Text → Text → Guard → Guard
with_define first second g =
    if not (is_set g.define) && text_eq first (codes "#define")
    then record g { define = second }
    else g

unfoldable pub with_words : ℕ → List Text → Guard → Guard
unfolding with_ifndef with_define
with_words linenum [] g = g
with_words linenum (first ∷ []) g = g
with_words linenum (first ∷ second ∷ more) g =
    with_define first second (with_ifndef linenum first second g)

unfoldable pub with_endif : ℕ → Text → Guard → Guard
with_endif linenum line g =
    if starts_with line (codes "#endif")
    then record g { endif = line; endif_linenum = linenum }
    else g

unfoldable pub scan_guards : ℕ → List Text → Guard → Guard
scan_guards linenum [] g = g
scan_guards linenum (line ∷ lines) g =
    scan_guards (linenum + 1) lines (with_endif linenum line (with_words linenum (words line) g))

abbrev pub guard_report : ℕ → ℕ → Text → Report
guard_report linenum confidence message = record {
  linenum = linenum;
  category = codes "build/header_guard";
  confidence = confidence;
  message = message;
}

-- r'#endif\s*//\s*' + cppvar + r'(_)?\b'; the variable has no special characters
abbrev pub endif_comment : Text → Regex
endif_comment cppvar =
    lit "#endif"
    ⊙ star space
    ⊙ lit "//"
    ⊙ star space
    ⊙ lit_codes cppvar
    ⊙ opt (group 1 (lit "_"))
    ⊙ word_boundary

-- r'#endif\s*/\*\s*' + cppvar + r'(_)?\s*\*/'
abbrev pub endif_c_comment : Text → Regex
endif_c_comment cppvar =
    lit "#endif"
    ⊙ star space
    ⊙ lit "/*"
    ⊙ star space
    ⊙ lit_codes cppvar
    ⊙ opt (group 1 (lit "_"))
    ⊙ star space
    ⊙ lit "*/"

-- r'^(?:(?:\'(?:\.|[^\'])*\')|(?:"(?:\.|[^"])*")|[^\'"])*//'
abbrev pub single_line_comment : Regex
single_line_comment =
    bol
    ⊙ star (
        alt (lit "'" ⊙ star (alt (lit ".") (none_of (b'\'' ∷ []))) ⊙ lit "'") (
          alt (lit "\"" ⊙ star (alt (lit ".") (none_of (b'"' ∷ []))) ⊙ lit "\"")
            (none_of (b'\'' ∷ b'"' ∷ []))))
    ⊙ lit "//"

-- The lines but the first and the last: no `//` comment on any of them.
unfoldable pub no_single_line_comments : List Text → Bool
no_single_line_comments raw_lines =
    all (λ line. not (matches single_line_comment line))
      (take (length raw_lines - 2) (drop 1 raw_lines))

-- The guard that is named twice has a `_` too many.
unfoldable pub endif_matched : Text → Guard → Text → Text → Cursor → Sink → Option Sink
unfolding group_of
endif_matched cppvar g opening closing m s = elim (group_of 1 m.groups) [
  | none ↦ some s
  | some underscore ↦
      report
        (guard_report g.endif_linenum 0
          (codes "#endif line should be \"#endif  " ++ (opening ++ (cppvar ++ closing))))
        s
]

unfoldable pub endif_wrong : Text → Guard → Sink → Option Sink
endif_wrong cppvar g s =
    report
      (guard_report g.endif_linenum 5
        (codes "#endif line should be \"#endif  // " ++ (cppvar ++ codes "\"")))
      s

-- From the tests of the #endif line on.
unfoldable pub check_endif : Text → Guard → List Text → Sink → Option Sink
unfolding endif_matched endif_wrong no_single_line_comments
check_endif cppvar g raw_lines s = elim (match_re (endif_comment cppvar) g.endif) [
  | some m ↦ endif_matched cppvar g (codes "// ") (codes "\"") m s
  | none ↦
      if no_single_line_comments raw_lines
      then elim (match_re (endif_c_comment cppvar) g.endif) [
        | some m ↦ endif_matched cppvar g (codes "/* ") (codes " */\"") m s
        | none ↦ endif_wrong cppvar g s
      ]
      else endif_wrong cppvar g s
]

-- The style of the name behind #ifndef.
unfoldable pub check_style : Text → Guard → List Text → Sink → Option Sink
check_style cppvar g raw_lines s = if text_eq g.ifndef cppvar then some s else do
  parsed ← parse_nolint (get_or raw_lines g.ifndef_linenum []) g.ifndef_linenum s
  report
      (guard_report g.ifndef_linenum (if text_eq g.ifndef (cppvar ++ codes "_") then 0 else 5)
        (codes "#ifndef header guard has wrong style, please use: " ++ cppvar))
      parsed

unfoldable pub check_guard : Text → Guard → List Text → Sink → Option Sink
unfolding check_style check_endif
check_guard cppvar g raw_lines s =
    if not (is_set g.ifndef) || not (is_set g.define) || not (text_eq g.ifndef g.define)
    then report
        (guard_report 0 5
          (codes "No #ifndef header guard found, suggested CPP variable is: " ++ cppvar))
        s
    else do
      styled ← check_style cppvar g raw_lines s
      parsed ← parse_nolint (get_or raw_lines g.endif_linenum []) g.endif_linenum styled
      check_endif cppvar g raw_lines parsed

-- On `clean_lines.lines_without_raw_strings`.
unfoldable pub check_for_header_guard : OsPath → PathOptions → Text → List Text → Sink → Option Sink
unfolding check_guard scan_guards
check_for_header_guard os options filename raw_lines s =
    if any (searches nolint_guard) raw_lines
    then some s
    else if any (searches pragma_once) raw_lines
    then some s
    else do
      cppvar ← get_header_guard_cpp_variable os options filename
      check_guard cppvar (scan_guards 0 raw_lines no_guard) raw_lines s
