-- ===== src/Preprocessor/Tests.antt =====
-- Tests of Preprocessor.antt, and its theorem at a concrete input.
use c_plus_server.Base.{ℕ, ◌≡◌, refl, [], ◌∷◌}
use c_plus_server.Text.{codes}
use c_plus_server.Preprocessor.{
  Stacks, Directive, opens, switches, ends, no_directive, directive_of,
}
use c_plus_server.Preprocessor.Conditional.{
  conditional, Branches, branch, none_left, conditional-ActsOn,
}

if_line : directive_of (codes " # ifdef SWIG") ≡ opens
unfolding directive_of c_plus_server.Regex.match_re codes c_plus_server.Regex.space
    c_plus_server.Regex.lit
if_line = refl

else_line : directive_of (codes "#else") ≡ switches
unfolding directive_of c_plus_server.Regex.match_re codes c_plus_server.Regex.space
    c_plus_server.Regex.lit
else_line = refl

endif_line : directive_of (codes "#endif") ≡ ends
unfolding directive_of c_plus_server.Regex.match_re codes c_plus_server.Regex.space
    c_plus_server.Regex.lit
endif_line = refl

no_line : directive_of (codes "#iffy") ≡ no_directive
unfolding directive_of c_plus_server.Regex.match_re codes c_plus_server.Regex.space
    c_plus_server.Regex.lit
no_line = refl

-- Lines that open one block.
abbrev open_block : ℕ → Stacks ℕ → Stacks ℕ
open_block block s = record s { stack = block ∷ s.stack }

abbrev at_top : Stacks ℕ
at_top = record { stack = []; pp_stack = [] }

conditional-ActsOn_example :
    conditional
      (codes " # ifdef SWIG")
      (open_block 1)
      ((codes "#else", open_block 2) ∷ [])
      (codes "#endif")
      at_top
    ≡ record at_top { stack = 1 ∷ [] }
unfolding c_plus_server.Preprocessor.Conditional.ActsOn
conditional-ActsOn_example =
    conditional-ActsOn (codes " # ifdef SWIG") (codes "#endif") (open_block 1) (λ xs. 1 ∷ xs)
      ((codes "#else", open_block 2) ∷ []) if_line endif_line (λ s. refl)
      (branch (λ xs. 2 ∷ xs) else_line (λ s. refl) none_left) at_top
