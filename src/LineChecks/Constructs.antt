-- ===== src/LineChecks/Constructs.antt =====
-- my_socket/build_support/cpplint.py, CheckForNonStandardConstructs, up to its tests on classes.
use c_plus_server.Base.{ℕ, Bool, false, not, ◌||◌, List, [], ◌∷◌, ◌++◌, ◌==◌, if◌then◌else◌, get_or}
use c_plus_server.Text.{Text, codes, is_space, replace}
use c_plus_server.Regex.{
  Regex, ◌⊙◌, bol, alt, set, star, plus, opt, group, lit, lit_codes, space, dot, word,
  word_boundary, any_of, matches, searches,
}
use c_plus_server.Report.{Report}
use c_plus_server.Cleanse.Patterns.{is_digit}
use c_plus_server.LineChecks.{line_report}

abbrev digit : Regex
digit = set is_digit

-- One of the words.
unfoldable pub one_word : List Text → Regex
one_word [] = set (λ c. false)
one_word (w ∷ []) = lit_codes w
one_word (w ∷ v ∷ ws) = alt (lit_codes w) (one_word (v ∷ ws))

-- r'printf\s*\(.*".*%[-+ ]?\d*q'
abbrev quad_format : Regex
quad_format =
    lit "printf"
    ⊙ star space
    ⊙ lit "("
    ⊙ star dot
    ⊙ lit "\""
    ⊙ star dot
    ⊙ lit "%"
    ⊙ opt (any_of (b'-' ∷ b'+' ∷ b' ' ∷ []))
    ⊙ star digit
    ⊙ lit "q"

-- r'printf\s*\(.*".*%\d+\$'
abbrev numbered_format : Regex
numbered_format =
    lit "printf"
    ⊙ star space
    ⊙ lit "("
    ⊙ star dot
    ⊙ lit "\""
    ⊙ star dot
    ⊙ lit "%"
    ⊙ plus digit
    ⊙ lit "$"

-- r'("|\').*\\(%|\[|\(|{)'
abbrev undefined_escape : Regex
undefined_escape =
    group 1 (any_of (b'"' ∷ b'\'' ∷ []))
    ⊙ star dot
    ⊙ lit "\\"
    ⊙ group 2 (any_of (b'%' ∷ b'[' ∷ b'(' ∷ b'{' ∷ []))

-- The type and the storage class, in the wrong order.
abbrev late_storage_class : Regex
late_storage_class =
    word_boundary
    ⊙ group 1 (
        alt
          (one_word (
            codes "const"
            ∷ codes "volatile"
            ∷ codes "void"
            ∷ codes "char"
            ∷ codes "short"
            ∷ codes "int"
            ∷ codes "long"
            ∷ codes "float"
            ∷ codes "double"
            ∷ codes "signed"
            ∷ codes "unsigned"
            ∷ codes "schar"
            ∷ []))
          (opt (lit "u")
            ⊙ one_word (codes "int8" ∷ codes "int16" ∷ codes "int32" ∷ codes "int64" ∷ [])))
    ⊙ plus space
    ⊙ group 2 (one_word (codes "register" ∷ codes "static" ∷ codes "extern" ∷ codes "typedef" ∷ []))
    ⊙ word_boundary

-- r'\s*#\s*endif\s*[^/\s]+'
abbrev endif_text : Regex
endif_text =
    star space
    ⊙ lit "#"
    ⊙ star space
    ⊙ lit "endif"
    ⊙ star space
    ⊙ plus (set (λ c. not (c == b'/' || is_space c)))

-- r'\s*class\s+(\w+\s*::\s*)+\w+\s*;'
abbrev inner_forward : Regex
inner_forward =
    star space
    ⊙ lit "class"
    ⊙ plus space
    ⊙ plus (group 1 (plus word ⊙ star space ⊙ lit "::" ⊙ star space))
    ⊙ plus word
    ⊙ star space
    ⊙ lit ";"

-- r'(\w+|[+-]?\d+(\.\d*)?)\s*(<|>)\?=?\s*(\w+|[+-]?\d+)(\.\d*)?'
abbrev min_max : Regex
min_max =
    group 1 (
      alt (plus word)
        (opt (any_of (b'+' ∷ b'-' ∷ [])) ⊙ plus digit ⊙ opt (group 2 (lit "." ⊙ star digit))))
    ⊙ star space
    ⊙ group 3 (any_of (b'<' ∷ b'>' ∷ []))
    ⊙ lit "?"
    ⊙ opt (lit "=")
    ⊙ star space
    ⊙ group 4 (alt (plus word) (opt (any_of (b'+' ∷ b'-' ∷ [])) ⊙ plus digit))
    ⊙ opt (group 5 (lit "." ⊙ star digit))

-- r'^\s*const\s*string\s*&\s*\w+\s*;'
abbrev string_member : Regex
string_member =
    bol
    ⊙ star space
    ⊙ lit "const"
    ⊙ star space
    ⊙ lit "string"
    ⊙ star space
    ⊙ lit "&"
    ⊙ star space
    ⊙ plus word
    ⊙ star space
    ⊙ lit ";"

abbrev when : Bool → Report → List Report
when b r = if b then r ∷ [] else []

-- On `clean_lines.lines[linenum]`.
unfoldable pub format_reports : ℕ → Text → List Report
format_reports linenum line =
    when (searches quad_format line) (
      line_report linenum (codes "runtime/printf_format") 3
        (codes "%q in format strings is deprecated.  Use %ll instead."))
    ++ (when (searches numbered_format line) (
          line_report linenum (codes "runtime/printf_format") 2
            (codes "%N$ formats are unconventional.  Try rewriting to avoid them."))
        ++ when (searches undefined_escape (replace line (codes "\\\\") [])) (
            line_report linenum (codes "build/printf_format") 3
              (codes "%, [, (, and { are undefined character escapes.  Unescape them.")))

-- On `clean_lines.elided[linenum]`.
unfoldable pub construct_reports : ℕ → Text → List Report
construct_reports linenum line =
    when (searches late_storage_class line) (
      line_report linenum (codes "build/storage_class") 5 (
        codes "Storage-class specifier (static, extern, typedef, etc) should be "
        ++ codes "at the beginning of the declaration."))
    ++ (when (matches endif_text line) (
          line_report linenum (codes "build/endif_comment") 5
            (codes "Uncommented text after #endif is non-standard.  Use a comment."))
        ++ (when (matches inner_forward line) (
              line_report linenum (codes "build/forward_decl") 5
                (codes "Inner-style forward declarations are invalid.  Remove this line."))
            ++ (when (searches min_max line) (
                  line_report linenum (codes "build/deprecated") 3
                    (codes ">? and <? (max and min) operators are non-standard and deprecated."))
                ++ when (searches string_member line) (
                    line_report linenum (codes "runtime/member_string_references") 2 (
                      codes "const string& members are dangerous. It is much better to use "
                      ++ codes "alternatives, such as pointers or simple constants.")))))

unfoldable pub check_for_non_standard_constructs : List Text → List Text → ℕ → List Report
unfolding format_reports construct_reports
check_for_non_standard_constructs lines elided linenum =
    format_reports linenum (get_or lines linenum [])
    ++ construct_reports linenum (get_or elided linenum [])
