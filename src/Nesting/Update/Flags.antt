-- ===== src/Nesting/Update/Flags.antt =====
-- Plain lines, without heads of namespaces and classes and without directives: what Update does to
-- the flags of the stack.
use c_plus_server.Base.{
  ℕ, ◌<◌, ◌≡◌, refl, ap, ◌∙◌, Bool, none, some, List, [], ◌∷◌, ◌++◌, length, arith, true, false,
  get_elem?, get_elem?-some, if◌then◌else◌,
}
use c_plus_server.Text.{Text}
use c_plus_server.Report.{Report}
use c_plus_server.Regex.{match_re}
use c_plus_server.Nesting.Blocks.{BlockInfo, check_begin}
use c_plus_server.Nesting.Braces.Split.{is_line}
use c_plus_server.Nesting.Braces.Flags.{flags, run_flags, consume_braces-run_flags}
use c_plus_server.Nesting.State.{NestingState, count_parentheses, top_of}
use c_plus_server.Nesting.Heads.{
  namespace_decl, class_decl, consume_namespaces, consume_class, check_begin_top, update_access,
}
use c_plus_server.Nesting.Update.{update_stack, update_line, update}
use c_plus_server.Preprocessor.{
  Stacks, directive_of, no_directive, update_preprocessor, at_directive,
}
use c_plus_server.Cleanse.{CleansedLines}

-- One line of code that begins no namespace and no class and is no conditional directive.
pub record IsPlain (line : Text) : Type 0 where
  pub one_line : is_line line ≡ true
  pub undirected : directive_of line ≡ no_directive
  pub no_namespace : match_re namespace_decl line ≡ none
  pub no_class : match_re class_decl line ≡ none

flags-count_parentheses :
    (line : Text) (stack : List BlockInfo) → flags (count_parentheses line stack) ≡ flags stack
unfolding count_parentheses
flags-count_parentheses line [] = refl
flags-count_parentheses line (b ∷ stack) = refl

check_begin-seen_open_brace :
    (line : Text) (b : BlockInfo) → (check_begin line b).seen_open_brace ≡ b.seen_open_brace
unfolding check_begin
check_begin-seen_open_brace line b = ground arith

flags-if :
    (b : Bool) (xs ys : List BlockInfo) {fs : List Bool}
    → flags xs ≡ fs
    → flags ys ≡ fs
    → flags (if b then xs else ys) ≡ fs
flags-if true xs ys h g = h
flags-if false xs ys h g = g

flags-check_begin_top :
    (line : Text) (stack : List BlockInfo) → flags (check_begin_top line stack) ≡ flags stack
unfolding check_begin_top
flags-check_begin_top line [] = refl
flags-check_begin_top line (b ∷ stack) =
    flags-if b.seen_open_brace (b ∷ stack) (check_begin line b ∷ stack) refl
      (ap (λ x. x ∷ flags stack) (check_begin-seen_open_brace line b))

flags-update_access :
    (n : ℕ) (line : Text) (stack : List BlockInfo)
    → flags (update_access n line stack).0 ≡ flags stack
unfolding update_access
flags-update_access n line [] = refl
flags-update_access n line (b ∷ stack) = ground arith

update_stack-run_flags :
    (c : CleansedLines) (raw_line line : Text) (n : ℕ) (stack : List BlockInfo)
    → IsPlain line
    → (stack' : List BlockInfo) × (reports : List Report) × (update_stack c raw_line line n stack
        ≡ some (stack', reports))
      × (flags stack' ≡ run_flags line (flags stack))
unfolding update_stack consume_namespaces consume_class
update_stack-run_flags c raw_line line n stack p =
    let in_access = update_access n line (check_begin_top line stack) in
    let (stack', reports, e, f) =
      consume_braces-run_flags c.elided raw_line n line in_access.0 p.one_line in
    let same =
      flags-update_access n line (check_begin_top line stack) ∙ flags-check_begin_top line stack in
    (
      stack',
      in_access.1 ++ reports,
      rw (update_stack, consume_namespaces, p.no_namespace, consume_class, p.no_class, e),
      f ∙ ap (run_flags line) same,
    )

undirected-same :
    (line : Text) (s : Stacks BlockInfo)
    → directive_of line ≡ no_directive
    → update_preprocessor s line ≡ s
unfolding update_preprocessor at_directive
undirected-same line s h = rw (update_preprocessor, h)

-- Update on a plain line: the preprocessor stack stays, and the flags of the blocks follow the
-- machine that reads the line's characters.
pub update-run_flags :
    (clean_lines : CleansedLines) (linenum : ℕ) (line : Text) (s : NestingState)
    → get_elem? clean_lines.elided linenum ≡ some line
    → linenum < length clean_lines.raw_lines
    → IsPlain line
    → (s' : NestingState) × (reports : List Report) × (update clean_lines linenum s
        ≡ some (s', reports))
      × (flags s'.nesting.stack ≡ run_flags line (flags s.nesting.stack))
      × (s'.nesting.pp_stack ≡ s.nesting.pp_stack)
unfolding update update_line
update-run_flags c n line s e h p =
    let (raw_line, f) = get_elem?-some n c.raw_lines h in
    let (stack', reports, g, k) =
      update_stack-run_flags c raw_line line n (count_parentheses line s.nesting.stack) p in
    (
      record {
        nesting = record s.nesting { stack = stack' };
        previous_stack_top = top_of s.nesting.stack;
      },
      reports,
      rw (
        update,
        e,
        f,
        update_line,
        undirected-same line s.nesting p.undirected,
        g,
        undirected-same line s.nesting p.undirected,
      ),
      k ∙ ap (run_flags line) (flags-count_parentheses line s.nesting.stack),
      refl,
    )
