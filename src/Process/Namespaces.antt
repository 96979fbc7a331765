-- ===== src/Process/Namespaces.antt =====
-- IsMacroDefinition, IsForwardClassDeclaration, IsBlockInNameSpace, ShouldCheckNamespaceIndentation
-- and CheckItemIndentationInNamespace.
use c_plus_server.Base.{
  ℕ, zero, suc, Bool, false, ◌&&◌, ◌||◌, not, List, [], ◌∷◌, if◌then◌else◌, get_or,
}
use c_plus_server.Text.{Text, codes}
use c_plus_server.Regex.{
  Regex, ◌⊙◌, bol, eol, star, plus, space, lit, dot, word, word_boundary, group, matches, searches,
}
use c_plus_server.Report.{Report}
use c_plus_server.Nesting.Blocks.{BlockInfo, is_namespace_info}

-- r'^#define' and r'\\$'
unfoldable pub is_macro_definition : List Text → ℕ → Bool
is_macro_definition clean_lines zero = searches (bol ⊙ lit "#define") (get_or clean_lines zero [])
is_macro_definition clean_lines (suc n) =
    searches (bol ⊙ lit "#define") (get_or clean_lines (suc n) [])
    || searches (lit "\\" ⊙ eol) (get_or clean_lines n [])

-- r'^\s*(\btemplate\b)*.*class\s+\w+;\s*$'
abbrev pub forward_class : Regex
forward_class =
    bol
    ⊙ star space
    ⊙ star (group 1 (word_boundary ⊙ lit "template" ⊙ word_boundary))
    ⊙ star dot
    ⊙ lit "class"
    ⊙ plus space
    ⊙ plus word
    ⊙ lit ";"
    ⊙ star space
    ⊙ eol

unfoldable pub is_forward_class_declaration : List Text → ℕ → Bool
is_forward_class_declaration clean_lines linenum =
    matches forward_class (get_or clean_lines linenum [])

unfoldable pub is_block_in_name_space : List BlockInfo → Bool → Bool
unfolding is_namespace_info
is_block_in_name_space [] is_forward_declaration = false
is_block_in_name_space (b ∷ []) is_forward_declaration =
    is_forward_declaration && is_namespace_info b
is_block_in_name_space (b ∷ c ∷ stack) is_forward_declaration =
    if is_forward_declaration
    then is_namespace_info b
    else b.check_namespace_indentation && is_namespace_info c

unfoldable pub should_check_namespace_indentation : List BlockInfo → Bool → List Text → ℕ → Bool
unfolding is_macro_definition is_forward_class_declaration is_block_in_name_space
should_check_namespace_indentation stack is_namespace_indent_item raw_lines_no_comments linenum =
    let is_forward_declaration = is_forward_class_declaration raw_lines_no_comments linenum in
    if not (is_namespace_indent_item || is_forward_declaration)
    then false
    else if is_macro_definition raw_lines_no_comments linenum
    then false
    else is_block_in_name_space stack is_forward_declaration

-- r'^\s+'
unfoldable pub check_item_indentation_in_namespace : List Text → ℕ → List Report
check_item_indentation_in_namespace raw_lines_no_comments linenum =
    if matches (bol ⊙ plus space) (get_or raw_lines_no_comments linenum [])
    then record {
      linenum = linenum;
      category = codes "runtime/indentation_namespace";
      confidence = 4;
      message = codes "Do not indent within a namespace";
    }
      ∷ []
    else []
