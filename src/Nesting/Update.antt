-- ===== src/Nesting/Update.antt =====
-- NestingState.Update.
pub mod Total
pub mod Flags
pub mod Region
use c_plus_server.Base.{
  ℕ, suc, Bool, true, false, Option, none, some, List, [], ◌∷◌, ◌++◌, length, get_elem?,
}
use c_plus_server.Text.{Text}
use c_plus_server.Report.{Report}
use c_plus_server.Nesting.Blocks.{BlockInfo}
use c_plus_server.Nesting.Braces.{consume_braces}
use c_plus_server.Nesting.State.{NestingState, top_of, count_parentheses}
use c_plus_server.Nesting.Heads.{consume_namespaces, consume_class, check_begin_top, update_access}
use c_plus_server.Preprocessor.{Stacks, update_preprocessor}
use c_plus_server.Cleanse.{CleansedLines}

-- The heads on the line, then its braces. What a line says of access stands in front of its braces.
unfoldable pub update_stack :
    CleansedLines → Text → Text → ℕ → List BlockInfo → Option (List BlockInfo × List Report)
update_stack clean_lines raw_line line linenum stack =
    elim (consume_namespaces (suc (length line)) linenum line stack) [
      | none ↦ none
      | some (rest, in_namespaces) ↦
          elim (consume_class clean_lines raw_line linenum rest in_namespaces) [
            | none ↦ none
            | some (body, in_class) ↦
                let (in_access, reports) =
                  update_access linenum body (check_begin_top line in_class) in
                elim (consume_braces clean_lines.elided raw_line linenum body in_access) [
                  | none ↦ none
                  | some (after, more) ↦ some (after, reports ++ more)
                ]
          ]
    ]

-- The lines `line` and `raw_line` stand at `linenum`.
unfoldable pub update_line :
    CleansedLines → Text → Text → ℕ → NestingState → Option (NestingState × List Report)
unfolding update_stack
update_line clean_lines raw_line line linenum s =
    let nesting = update_preprocessor s.nesting line in
    elim (update_stack clean_lines raw_line line linenum (count_parentheses line nesting.stack)) [
      | none ↦ none
      | some (stack, reports) ↦ some (
        record {
          nesting = record nesting { stack = stack };
          previous_stack_top = top_of s.nesting.stack;
        },
        reports,
      )
    ]

-- `none` is an IndexError; the lines of a CleansedLines are equally many.
unfoldable pub update : CleansedLines → ℕ → NestingState → Option (NestingState × List Report)
unfolding update_line
update clean_lines linenum s = elim (get_elem? clean_lines.elided linenum) [
  | none ↦ none
  | some line ↦ elim (get_elem? clean_lines.raw_lines linenum) [
    | none ↦ none
    | some raw_line ↦ update_line clean_lines raw_line line linenum s
  ]
]
