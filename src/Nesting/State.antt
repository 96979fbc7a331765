-- ===== src/Nesting/State.antt =====
-- NestingState: its state, the tests of the block on top, the count of parentheses, InnermostClass
-- and CheckCompletedBlocks. A stack has its top at the head.
use c_plus_server.Base.{
  Bool, true, false, ◌&&◌, not, Option, none, some, List, [], ◌∷◌, ◌++◌, if◌then◌else◌, reverse,
}
use c_plus_server.Base.Int.{ℤ, ◌+ℤ◌, is_pos}
use c_plus_server.Text.{Text, codes}
use c_plus_server.Report.{Report}
use c_plus_server.Regex.{matches}
use c_plus_server.Nesting.Blocks.{
  BlockInfo, InlineAsm, no_asm, inside_asm, end_asm, block_asm, ClassInfo, class_info,
  namespace_info, depth_change, is_class_info, is_namespace_info, is_extern_c_info,
}
use c_plus_server.Nesting.Braces.{match_asm}
use c_plus_server.Preprocessor.{Stacks}

-- `previous_stack_top` is a copy: the block as it was when the line began.
pub record NestingState : Type 0 where
  pub nesting : Stacks BlockInfo
  pub previous_stack_top : Option BlockInfo

abbrev pub new_nesting_state : NestingState
new_nesting_state = record {
  nesting = record { stack = []; pp_stack = [] };
  previous_stack_top = none;
}

abbrev pub top_of : List BlockInfo → Option BlockInfo
top_of [] = none
top_of (b ∷ stack) = some b

abbrev on_top : (BlockInfo → Bool) → List BlockInfo → Bool
on_top test [] = false
on_top test (b ∷ stack) = test b

-- InNamespaceBody, InExternC, InClassDeclaration and InAsmBlock
unfoldable pub in_namespace_body : NestingState → Bool
unfolding is_namespace_info
in_namespace_body s = on_top is_namespace_info s.nesting.stack

unfoldable pub in_extern_c : NestingState → Bool
unfolding is_extern_c_info
in_extern_c s = on_top is_extern_c_info s.nesting.stack

unfoldable pub in_class_declaration : NestingState → Bool
unfolding is_class_info
in_class_declaration s = on_top is_class_info s.nesting.stack

unfoldable pub in_asm_block : NestingState → Bool
in_asm_block s = on_top (λ b. elim b.inline_asm [ no_asm ↦ false | _ ↦ true ]) s.nesting.stack

-- The inline assembly of the block on top behind a line that changes its parentheses by `change`
-- to `parentheses`.
unfoldable pub next_asm : Text → ℤ → ℤ → InlineAsm → InlineAsm
unfolding match_asm is_pos
next_asm line change parentheses asm =
    let outside =
      if not (is_pos 0 change) && is_pos 1 parentheses && matches match_asm line
      then inside_asm
      else no_asm in
    elim asm [
      | no_asm ↦ outside
      | end_asm ↦ outside
      | inside_asm ↦ if is_pos 0 parentheses then end_asm else inside_asm
      | block_asm ↦ block_asm
    ]

unfoldable pub count_parentheses : Text → List BlockInfo → List BlockInfo
unfolding next_asm depth_change
count_parentheses line [] = []
count_parentheses line (b ∷ stack) =
    let change = depth_change b'(' b')' line in
    let parentheses = b.open_parentheses +ℤ change in
    record b {
      open_parentheses = parentheses;
      inline_asm = next_asm line change parentheses b.inline_asm;
    }
    ∷ stack

-- InnermostClass
unfoldable pub innermost_class : List BlockInfo → Option ClassInfo
innermost_class [] = none
innermost_class (b ∷ stack) = elim b.kind [ class_info c ↦ some c | _ ↦ innermost_class stack ]

abbrev completed_error : BlockInfo → Text → Text → Report
completed_error b category message = record {
  linenum = b.starting_linenum;
  category = category;
  confidence = 5;
  message = message;
}

unfoldable pub check_completed : BlockInfo → List Report
check_completed b = elim b.kind [
  | class_info c ↦
      completed_error b (codes "build/class")
        (codes "Failed to find complete declaration of class " ++ c.name)
      ∷ []
  | namespace_info name ↦
      completed_error b (codes "build/namespaces")
        (codes "Failed to find complete declaration of namespace " ++ name)
      ∷ []
  | _ ↦ []
]

-- CheckCompletedBlocks, for the blocks from the bottom of the stack on
unfoldable pub check_completed_from : List BlockInfo → List Report
unfolding check_completed
check_completed_from [] = []
check_completed_from (b ∷ blocks) = check_completed b ++ check_completed_from blocks

unfoldable pub check_completed_blocks : NestingState → List Report
unfolding check_completed_from
check_completed_blocks s = check_completed_from (reverse s.nesting.stack)
