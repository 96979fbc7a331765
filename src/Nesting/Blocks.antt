-- ===== src/Nesting/Blocks.antt =====
-- _BlockInfo, _ExternCInfo, _ClassInfo and _NamespaceInfo with their __init__ and CheckBegin.
use c_plus_server.Base.{
  ℕ, ◌+◌, Bool, true, false, not, Option, none, some, List, [], ◌∷◌, ◌==◌, if◌then◌else◌, length,
  drop,
}
use c_plus_server.Base.Int.{ℤ, pos, sub_ℕ, ◌+ℤ◌, is_pos}
use c_plus_server.Text.{Text, codes, count, text_eq}
use c_plus_server.Regex.{
  Regex, ◌⊙◌, bol, eol, alt, set, star, group, lit, non_space, searches, match_re, group_text,
}

-- _NO_ASM, _INSIDE_ASM, _END_ASM and _BLOCK_ASM
pub data InlineAsm : Type 0 where
  no_asm inside_asm end_asm block_asm : InlineAsm

-- What a _ClassInfo has more than a _BlockInfo.
pub record ClassInfo : Type 0 where
  pub name : Text
  pub is_derived : Bool
  pub access : Text
  pub is_struct : Bool
  pub class_indent : ℕ
  pub last_line : ℕ

-- The class of a block, with the attributes of the subclass.
pub data BlockKind : Type 0 where
  plain_block : BlockKind
  extern_c_info : BlockKind
  class_info : ClassInfo → BlockKind
  namespace_info : Text → BlockKind

pub record BlockInfo : Type 0 where
  pub starting_linenum : ℕ
  pub seen_open_brace : Bool
  pub open_parentheses : ℤ
  pub inline_asm : InlineAsm
  pub check_namespace_indentation : Bool
  pub kind : BlockKind

abbrev pub new_block_info : ℕ → Bool → BlockInfo
new_block_info linenum seen_open_brace = record {
  starting_linenum = linenum;
  seen_open_brace = seen_open_brace;
  open_parentheses = pos 0;
  inline_asm = no_asm;
  check_namespace_indentation = false;
  kind = plain_block;
}

abbrev pub new_extern_c_info : ℕ → BlockInfo
new_extern_c_info linenum = record (new_block_info linenum true) { kind = extern_c_info }

-- `name or ''`
abbrev pub new_namespace_info : Option Text → ℕ → BlockInfo
new_namespace_info name linenum = record (new_block_info linenum false) {
  check_namespace_indentation = true;
  kind = namespace_info (elim name [ none ↦ [] | some n ↦ n ]);
}

-- r'^( *)\S'
abbrev indented : Regex
indented = bol ⊙ group 1 (star (lit " ")) ⊙ non_space

-- GetIndentLevel
unfoldable pub get_indent_level : Text → ℕ
get_indent_level line = elim (match_re indented line) [
  | none ↦ 0
  | some c ↦ length (group_text 1 c.groups)
]

-- `line.count(opening) - line.count(closing)`
unfoldable pub depth_change : ℕ → ℕ → Text → ℤ
depth_change opening closing line = sub_ℕ (count line (opening ∷ [])) (count line (closing ∷ []))

-- The loop over the lines from number `i` on; `last_line` stays 0 if it does not break.
unfoldable pub last_line_from : ℕ → ℤ → List Text → ℕ
unfolding depth_change
last_line_from i depth [] = 0
last_line_from i depth (line ∷ lines) =
    let depth' = depth +ℤ depth_change b'{' b'}' line in
    let later = last_line_from (i + 1) depth' lines in if is_pos 0 depth' then i else later

-- _ClassInfo.__init__, with the lines that it reads
unfoldable pub new_class_info : Text → Text → Text → List Text → ℕ → BlockInfo
new_class_info name class_or_struct raw_line elided linenum =
    let is_struct = text_eq class_or_struct (codes "struct") in
    record (new_block_info linenum false) {
      check_namespace_indentation = true;
      kind = class_info (record {
        name = name;
        is_derived = false;
        access = if is_struct then codes "public" else codes "private";
        is_struct = is_struct;
        class_indent = get_indent_level raw_line;
        last_line = last_line_from linenum (pos 0) (drop linenum elided);
      });
    }

unfoldable pub is_namespace_info : BlockInfo → Bool
is_namespace_info b = elim b.kind [ namespace_info n ↦ true | _ ↦ false ]

unfoldable pub is_extern_c_info : BlockInfo → Bool
is_extern_c_info b = elim b.kind [ extern_c_info ↦ true | _ ↦ false ]

unfoldable pub is_class_info : BlockInfo → Bool
is_class_info b = elim b.kind [ class_info c ↦ true | _ ↦ false ]

-- _BlockInfo.IsBlockInfo
unfoldable pub is_block_info : BlockInfo → Bool
is_block_info b = elim b.kind [ plain_block ↦ true | _ ↦ false ]

abbrev not_colon : Regex
not_colon = set (λ c. not (c == b':'))

-- r'(^|[^:]):($|[^:])'
abbrev bare_colon : Regex
bare_colon = group 1 (alt bol not_colon) ⊙ lit ":" ⊙ group 2 (alt eol not_colon)

-- CheckBegin of the block's class; only that of _ClassInfo does something.
unfoldable pub check_begin : Text → BlockInfo → BlockInfo
check_begin line b = elim b.kind [
  | class_info c ↦
      if searches bare_colon line
      then record b { kind = class_info (record c { is_derived = true }) }
      else b
  | _ ↦ b
]
