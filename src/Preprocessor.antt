-- ===== src/Preprocessor.antt =====
-- my_socket/build_support/cpplint.py, NestingState.UpdatePreprocessor: the nesting stack at
-- preprocessor conditionals. The blocks on the stack are a parameter, since they are only copied;
-- a stack has its top at the head.
pub mod Conditional
mod Tests
use c_plus_server.Base.{Bool, true, false, List, [], ◌∷◌, if◌then◌else◌}
use c_plus_server.Text.{Text}
use c_plus_server.Regex.{Regex, lit, ◌⊙◌, alt, star, space, bol, word_boundary, group, matches}

-- r'^\s*#\s*(...)\b'
abbrev hash_word : Regex → Regex
hash_word words = bol ⊙ star space ⊙ lit "#" ⊙ star space ⊙ words ⊙ word_boundary

pub data Directive : Type 0 where
  opens switches ends no_directive : Directive

-- the tests of the three branches
unfoldable pub directive_of : Text → Directive
directive_of line =
    if matches (hash_word (group 1 (alt (lit "if") (alt (lit "ifdef") (lit "ifndef"))))) line
    then opens
    else if matches (hash_word (group 1 (alt (lit "else") (lit "elif")))) line
    then switches
    else if matches (hash_word (lit "endif")) line
    then ends
    else no_directive

module _ {ℓ} (A : Type ℓ) where
  -- _PreprocessorInfo
  pub record PreprocessorInfo : Type ℓ where
    pub stack_before_if : List A
    pub stack_before_else : List A
    pub seen_else : Bool

  -- The two stacks of a NestingState.
  pub record Stacks : Type ℓ where
    pub stack : List A
    pub pp_stack : List PreprocessorInfo

module _ {ℓ} {A : Type ℓ} where
  abbrev pub new_preprocessor_info : List A → PreprocessorInfo A
  new_preprocessor_info stack = record {
    stack_before_if = stack;
    stack_before_else = [];
    seen_else = false;
  }

  -- `if not seen_else`: the stack is remembered.
  unfoldable pub remember : List A → PreprocessorInfo A → PreprocessorInfo A
  remember stack info =
      if info.seen_else then info else record info { seen_else = true; stack_before_else = stack }

  unfoldable pub at_directive : Directive → Stacks A → Stacks A
  unfolding remember
  at_directive opens s = record s { pp_stack = new_preprocessor_info s.stack ∷ s.pp_stack }
  at_directive switches s = elim s.pp_stack [
    | [] ↦ s
    | info ∷ rest ↦ record { stack = info.stack_before_if; pp_stack = remember s.stack info ∷ rest }
  ]
  at_directive ends s = elim s.pp_stack [
    | [] ↦ s
    | info ∷ rest ↦ record {
      stack = if info.seen_else then info.stack_before_else else s.stack;
      pp_stack = rest;
    }
  ]
  at_directive no_directive s = s

  unfoldable pub update_preprocessor : Stacks A → Text → Stacks A
  unfolding at_directive directive_of
  update_preprocessor s line = at_directive (directive_of line) s
