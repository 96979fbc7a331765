-- ===== src/Nesting/Ends.antt =====
-- CheckEnd of _ClassInfo and of _NamespaceInfo.
use c_plus_server.Base.{
  ℕ, zero, suc, ◌+◌, ◌-◌, Bool, true, false, ◌&&◌, not, none, some, List, [], ◌∷◌, ◌++◌, ◌==◌, ltb,
  if◌then◌else◌, length, get_or,
}
use c_plus_server.Text.{Text, codes}
use c_plus_server.Report.{Report}
use c_plus_server.Regex.{
  Regex, ◌⊙◌, bol, eol, alt, star, plus, group, lit, lit_codes, space, dot, word_boundary, matches,
  match_re, search_re, group_text,
}
use c_plus_server.Nesting.Blocks.{
  BlockInfo, ClassInfo, plain_block, extern_c_info, class_info, namespace_info,
}

-- r'\b(DISALLOW_COPY_AND_ASSIGN|DISALLOW_IMPLICIT_CONSTRUCTORS)\(' + name + r'\)'; the name of a
-- class has only characters that stand for themselves.
abbrev pub disallow : Text → Regex
disallow name =
    word_boundary
    ⊙ group 1 (alt (lit "DISALLOW_COPY_AND_ASSIGN") (lit "DISALLOW_IMPLICIT_CONSTRUCTORS"))
    ⊙ lit "("
    ⊙ lit_codes name
    ⊙ lit ")"

-- r'^\s*$'
abbrev pub blank : Regex
blank = bol ⊙ star space ⊙ eol

-- The loop over the `n` lines behind `first`, from the last one on.
unfoldable pub check_disallow : Text → List Text → ℕ → ℕ → Bool → List Report
check_disallow name elided first zero seen_last_thing_in_class = []
check_disallow name elided first (suc n) seen_last_thing_in_class =
    let i = first + suc n in
    elim (search_re (disallow name) (get_or elided i [])) [
      | some found ↦
          if seen_last_thing_in_class
          then record {
            linenum = i;
            category = codes "readability/constructors";
            confidence = 3;
            message =
                group_text 1 found.last.groups ++ codes " should be the last thing in the class";
          }
            ∷ []
          else []
      | none ↦
          check_disallow name elided first n
            (if matches blank (get_or elided i []) then seen_last_thing_in_class else true)
    ]

-- r'^( *)\}'
abbrev closing_brace : Regex
closing_brace = bol ⊙ group 1 (star (lit " ")) ⊙ lit "}"

-- `'struct ' + name` or `'class ' + name`
unfoldable pub parent_of : ClassInfo → Text
parent_of c = (if c.is_struct then codes "struct " else codes "class ") ++ c.name

unfoldable pub check_brace_indent : ClassInfo → Text → ℕ → List Report
check_brace_indent c line linenum = elim (match_re closing_brace line) [
  | none ↦ []
  | some m ↦
      if length (group_text 1 m.groups) == c.class_indent
      then []
      else record {
        linenum = linenum;
        category = codes "whitespace/indent";
        confidence = 3;
        message = codes "Closing brace should be aligned with beginning of " ++ parent_of c;
      }
        ∷ []
]

unfoldable pub check_class_end : ClassInfo → ℕ → List Text → ℕ → List Report
unfolding check_disallow check_brace_indent
check_class_end c starting_linenum elided linenum =
    check_disallow c.name elided starting_linenum (linenum - 1 - starting_linenum) false
    ++ check_brace_indent c (get_or elided linenum []) linenum

-- r'^\s*};*\s*(//|/\*).*\bnamespace'
abbrev pub namespace_comment : Regex
namespace_comment =
    bol
    ⊙ star space
    ⊙ lit "}"
    ⊙ star (lit ";")
    ⊙ star space
    ⊙ group 1 (alt (lit "//") (lit "/*"))
    ⊙ star dot
    ⊙ word_boundary
    ⊙ lit "namespace"

-- r'[\*/\.\\\s]*$'
abbrev pub comment_end : Regex
comment_end = star (alt (lit "*") (alt (lit "/") (alt (lit ".") (alt (lit "\\") space)))) ⊙ eol

-- r'^\s*}.*\b(namespace anonymous|anonymous namespace)\b'
abbrev anonymous_comment : Regex
anonymous_comment =
    bol
    ⊙ star space
    ⊙ lit "}"
    ⊙ star dot
    ⊙ word_boundary
    ⊙ group 1 (alt (lit "namespace anonymous") (lit "anonymous namespace"))
    ⊙ word_boundary

unfoldable pub is_terminated : Text → Text → Bool
is_terminated [] line = matches (namespace_comment ⊙ comment_end) line
is_terminated (c ∷ name) line =
    matches (namespace_comment ⊙ plus space ⊙ lit_codes (c ∷ name) ⊙ comment_end) line

unfoldable pub unterminated_message : Text → Text → Text
unterminated_message [] line =
    if matches anonymous_comment line
    then codes "Anonymous namespace should be terminated with \"// namespace\""
      ++ codes " or \"// anonymous namespace\""
    else codes "Anonymous namespace should be terminated with \"// namespace\""
unterminated_message (c ∷ name) line =
    codes "Namespace should be terminated with \"// namespace " ++ (c ∷ name) ++ codes "\""

unfoldable pub check_namespace_end : Text → ℕ → Text → ℕ → List Report
unfolding is_terminated
check_namespace_end name starting_linenum raw_line linenum =
    if ltb (linenum - starting_linenum) 10
      && not (matches (namespace_comment ⊙ word_boundary) raw_line)
    then []
    else if is_terminated name raw_line
    then []
    else record {
      linenum = linenum;
      category = codes "readability/namespace";
      confidence = 5;
      message = unterminated_message name raw_line;
    }
      ∷ []

-- CheckEnd of the block's class
unfoldable pub check_end : BlockInfo → List Text → Text → ℕ → List Report
unfolding check_class_end check_namespace_end
check_end b elided raw_line linenum = elim b.kind [
  | plain_block ↦ []
  | extern_c_info ↦ []
  | class_info c ↦ check_class_end c b.starting_linenum elided linenum
  | namespace_info name ↦ check_namespace_end name b.starting_linenum raw_line linenum
]
