-- ===== src/Nesting/Tests.antt =====
-- Tests of Nesting, and its theorems at concrete inputs.
use c_plus_server.Base.{◌≡◌, refl, some, List, [], ◌∷◌, Bool, true, false, arith}
use c_plus_server.Text.{Text, codes}
use c_plus_server.Report.{Report}
use c_plus_server.Cleanse.{CleansedLines}
use c_plus_server.Nesting.Blocks.{new_block_info, get_indent_level}
use c_plus_server.Nesting.Ends.{is_terminated}
use c_plus_server.Nesting.Template.{in_template_argument_list}
use c_plus_server.Nesting.Template.Total.{in_template_argument_list-some}
use c_plus_server.Nesting.Braces.{consume_braces, seen_open_brace}
use c_plus_server.Nesting.Braces.Flags.{flags, run_flags}
use c_plus_server.Nesting.Braces.Nested.{Nested, empty, other, block, consume_braces-Nested}
use c_plus_server.Nesting.State.{NestingState, new_nesting_state}
use c_plus_server.Nesting.Update.{update}
use c_plus_server.Nesting.Update.Total.{update-some}
use c_plus_server.Nesting.Update.Flags.{IsPlain, update-run_flags}
use c_plus_server.Nesting.Update.Region.{update_lines, region, ArePlain, update_lines-Nested}

-- A function over three lines.
abbrev body : List Text
body = codes "f{" ∷ codes "a;" ∷ codes "}" ∷ []

abbrev body_lines : CleansedLines
body_lines = record {
  elided = body;
  lines = body;
  raw_lines = body;
  num_lines = 3;
  lines_without_raw_strings = body;
}

indented_by_two : get_indent_level (codes "  a") ≡ 2
unfolding get_indent_level c_plus_server.Regex.match_re codes c_plus_server.Regex.lit
    c_plus_server.Regex.non_space c_plus_server.Regex.group_text
indented_by_two = refl

terminated : is_terminated (codes "a") (codes "}  // namespace a") ≡ true
unfolding is_terminated codes c_plus_server.Regex.match_re c_plus_server.Regex.space
    c_plus_server.Regex.lit c_plus_server.Regex.dot
terminated = refl

not_terminated : is_terminated (codes "a") (codes "}  // namespace b") ≡ false
unfolding is_terminated codes c_plus_server.Regex.match_re c_plus_server.Regex.space
    c_plus_server.Regex.lit c_plus_server.Regex.dot
not_terminated = refl

in_arguments : in_template_argument_list (codes "A>" ∷ []) 0 0 ≡ some true
unfolding in_template_argument_list codes c_plus_server.Nesting.Template.template_round
    c_plus_server.Regex.match_re c_plus_server.Regex.dot c_plus_server.Regex.group_text
in_arguments = refl

not_in_arguments : in_template_argument_list (codes "A {" ∷ []) 0 0 ≡ some false
unfolding in_template_argument_list codes c_plus_server.Nesting.Template.template_round
    c_plus_server.Regex.match_re c_plus_server.Regex.dot c_plus_server.Regex.group_text
not_in_arguments = refl

IsPlain-opening : IsPlain (codes "f{")
unfolding codes c_plus_server.Preprocessor.directive_of c_plus_server.Regex.match_re
    c_plus_server.Regex.space c_plus_server.Regex.lit
IsPlain-opening = record {
  one_line = refl;
  undirected = refl;
  no_namespace = refl;
  no_class = refl;
}

IsPlain-statement : IsPlain (codes "a;")
unfolding codes c_plus_server.Preprocessor.directive_of c_plus_server.Regex.match_re
    c_plus_server.Regex.space c_plus_server.Regex.lit
IsPlain-statement = record {
  one_line = refl;
  undirected = refl;
  no_namespace = refl;
  no_class = refl;
}

IsPlain-closing : IsPlain (codes "}")
unfolding codes c_plus_server.Preprocessor.directive_of c_plus_server.Regex.match_re
    c_plus_server.Regex.space c_plus_server.Regex.lit
IsPlain-closing = record {
  one_line = refl;
  undirected = refl;
  no_namespace = refl;
  no_class = refl;
}

Nested-body : Nested (codes "f{a;}")
unfolding codes
Nested-body =
    other b'f' _ (λ e. absurd (omega arith)) (λ e. absurd (omega arith))
      (block _ []
        (other b'a' _ (λ e. absurd (omega arith)) (λ e. absurd (omega arith))
          (other b';' _ (λ e. absurd (omega arith)) (λ e. absurd (omega arith)) empty))
        empty)

in_template_argument_list-some_example :
    (b : Bool) × (in_template_argument_list (codes "A>" ∷ []) 0 0 ≡ some b)
in_template_argument_list-some_example = in_template_argument_list-some (codes "A>" ∷ []) 0 0

consume_braces-Nested_example :
    consume_braces body (codes "f{a;}") 0 (codes "f{a;}") (new_block_info 0 true ∷ [])
    ≡ some (new_block_info 0 true ∷ [], [])
unfolding codes seen_open_brace
consume_braces-Nested_example =
    consume_braces-Nested body (codes "f{a;}") 0 (codes "f{a;}") (new_block_info 0 true ∷ []) refl
      Nested-body refl

update-some_example :
    (r : NestingState × List Report) × (update body_lines 0 new_nesting_state ≡ some r)
update-some_example = update-some body_lines 0 new_nesting_state (omega arith) (omega arith)

update-run_flags_example :
    (s' : NestingState) × (reports : List Report) × (update body_lines 0 new_nesting_state
      ≡ some (s', reports))
    × (flags s'.nesting.stack ≡ run_flags (codes "f{") [])
    × (s'.nesting.pp_stack ≡ [])
update-run_flags_example =
    update-run_flags body_lines 0 (codes "f{") new_nesting_state refl (omega arith) IsPlain-opening

ArePlain-third : ArePlain body 1 2
ArePlain-third = ((codes "}", refl, IsPlain-closing), tt)

ArePlain-second : ArePlain body 2 1
ArePlain-second = ((codes "a;", refl, IsPlain-statement), ArePlain-third)

update_lines-Nested_example :
    (s' : NestingState) × (reports : List Report) × (update_lines body_lines 3 0 new_nesting_state
      ≡ some (s', reports))
    × (flags s'.nesting.stack ≡ [])
    × (s'.nesting.pp_stack ≡ [])
unfolding region codes
update_lines-Nested_example =
    update_lines-Nested body_lines 3 0 new_nesting_state (omega arith)
      ((codes "f{", refl, IsPlain-opening), ArePlain-second) Nested-body refl
