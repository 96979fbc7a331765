-- ===== src/Nesting/Heads.antt =====
-- The heads of namespaces and classes on a line, and the access keywords: parts of
-- NestingState.Update.
use c_plus_server.Base.{
  ℕ, zero, suc, ◌+◌, Bool, true, false, ◌&&◌, ◌||◌, not, Option, none, some, List, [], ◌∷◌, ◌++◌,
  ◌==◌, if◌then◌else◌, length, drop, leb,
}
use c_plus_server.Base.Int.{is_pos}
use c_plus_server.Text.{Text, codes, find, is_space}
use c_plus_server.Report.{Report}
use c_plus_server.Regex.{
  Regex, ◌⊙◌, bol, eol, alt, set, star, plus, group, lit, opt, space, dot, word, is_word, one_of,
  word_boundary, matches, match_re, group_text, group_of, none_of, Cursor,
}
use c_plus_server.Nesting.Blocks.{
  BlockInfo, ClassInfo, class_info, new_namespace_info, new_class_info, check_begin,
}
use c_plus_server.Nesting.Ends.{blank, parent_of}
use c_plus_server.Nesting.Template.{in_template_argument_list}
use c_plus_server.Nesting.Braces.{mark_seen}
use c_plus_server.Cleanse.{CleansedLines}

-- r'^\s*namespace\b\s*([:\w]+)?(.*)$'
abbrev pub namespace_decl : Regex
namespace_decl =
    bol
    ⊙ star space
    ⊙ lit "namespace"
    ⊙ word_boundary
    ⊙ star space
    ⊙ opt (group 1 (plus (set (λ c. c == b':' || is_word c))))
    ⊙ group 2 (star dot)
    ⊙ eol

-- The new block and what is left of the line: behind its brace, if there is one.
unfoldable pub open_namespace : Cursor → ℕ → BlockInfo × Text
open_namespace m linenum =
    let line = group_text 2 m.groups in
    let b = new_namespace_info (group_of 1 m.groups) linenum in
    elim (find line (codes "{")) [ none ↦ (b, line) | some i ↦ (mark_seen b, drop (i + 1) line) ]

-- The loop over the namespaces at the beginning of the line; `none` if the fuel runs out.
unfoldable pub consume_namespaces : ℕ → ℕ → Text → List BlockInfo → Option (Text × List BlockInfo)
unfolding open_namespace
consume_namespaces zero linenum line stack = none
consume_namespaces (suc f) linenum line stack = elim (match_re namespace_decl line) [
  | none ↦ some (line, stack)
  | some m ↦
      let (b, rest) = open_namespace m linenum in consume_namespaces f linenum rest (b ∷ stack)
]

-- r'[\w\s<>,:=]*'
abbrev template_head : Regex
template_head =
    star (set (λ c. is_word c || is_space c || one_of (b'<' ∷ b'>' ∷ b',' ∷ b':' ∷ b'=' ∷ []) c))

-- r'[A-Z_]'
abbrev macro_char : Regex
macro_char = set (λ c. (leb b'A' c && leb c b'Z') || c == b'_')

-- r'^(\s*(?:template\s*<[\w\s<>,:=]*>\s*)?'
-- r'(class|struct)\s+(?:[A-Z_]+\s+)*(\w+(?:::\w+)*))'
-- r'(.*)$'
abbrev pub class_decl : Regex
class_decl =
    bol
    ⊙ group 1 (
        star space
        ⊙ opt (lit "template" ⊙ star space ⊙ lit "<" ⊙ template_head ⊙ lit ">" ⊙ star space)
        ⊙ group 2 (alt (lit "class") (lit "struct"))
        ⊙ plus space
        ⊙ star (plus macro_char ⊙ plus space)
        ⊙ group 3 (plus word ⊙ star (lit "::" ⊙ plus word)))
    ⊙ group 4 (star dot)
    ⊙ eol

-- `not self.stack or self.stack[-1].open_parentheses == 0`
unfoldable pub outside_parentheses : List BlockInfo → Bool
outside_parentheses [] = true
outside_parentheses (b ∷ stack) = is_pos 0 b.open_parentheses

-- The class that is declared at the beginning of what is left of the line; `none` if
-- InTemplateArgumentList does not return.
unfoldable pub consume_class :
    CleansedLines → Text → ℕ → Text → List BlockInfo → Option (Text × List BlockInfo)
consume_class clean_lines raw_line linenum line stack = elim (match_re class_decl line) [
  | none ↦ some (line, stack)
  | some m ↦
      if outside_parentheses stack
      then (elim (in_template_argument_list clean_lines.elided linenum
          (length (group_text 1 m.groups))) [
            | none ↦ none
            | some true ↦ some (line, stack)
            | some false ↦ some (
              group_text 4 m.groups,
              new_class_info (group_text 3 m.groups) (group_text 2 m.groups) raw_line
                    clean_lines.elided linenum
                  ∷ stack,
            )
          ])
      else some (line, stack)
]

-- CheckBegin of the block on top, while it has not seen its brace
unfoldable pub check_begin_top : Text → List BlockInfo → List BlockInfo
unfolding check_begin
check_begin_top line [] = []
check_begin_top line (b ∷ stack) =
    if b.seen_open_brace then b ∷ stack else check_begin line b ∷ stack

-- r'^(.*)\b(public|private|protected|signals)(\s+(?:slots\s*)?)?:(?:[^:]|$)'
abbrev access_keyword : Regex
access_keyword =
    bol
    ⊙ group 1 (star dot)
    ⊙ word_boundary
    ⊙ group 2 (alt (lit "public") (alt (lit "private") (alt (lit "protected") (lit "signals"))))
    ⊙ opt (group 3 (plus space ⊙ opt (lit "slots" ⊙ star space)))
    ⊙ lit ":"
    ⊙ alt (none_of (b':' ∷ [])) eol

abbrev access_report : ClassInfo → Cursor → ℕ → Report
access_report c m linenum = record {
  linenum = linenum;
  category = codes "whitespace/indent";
  confidence = 3;
  message =
      group_text 2 m.groups
      ++ group_text 3 m.groups
      ++ codes ": should be indented +1 space inside "
      ++ parent_of c;
}

-- The access keyword on a line in the class `c`.
unfoldable pub access_of : ClassInfo → ℕ → Text → ClassInfo × List Report
access_of c linenum line = elim (match_re access_keyword line) [
  | none ↦ (c, [])
  | some m ↦ (
    record c { access = group_text 2 m.groups },
    if not (length (group_text 1 m.groups) == c.class_indent + 1)
          && matches blank (group_text 1 m.groups)
        then access_report c m linenum ∷ []
        else [],
  )
]

unfoldable pub update_access : ℕ → Text → List BlockInfo → List BlockInfo × List Report
unfolding access_of
update_access linenum line [] = ([], [])
update_access linenum line (b ∷ stack) = elim b.kind [
  | class_info c ↦
      let (c', reports) = access_of c linenum line in
      (record b { kind = class_info c' } ∷ stack, reports)
  | _ ↦ (b ∷ stack, [])
]
