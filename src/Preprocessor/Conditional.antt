-- ===== src/Preprocessor/Conditional.antt =====
-- A whole preprocessor conditional does to the nesting stack what its first branch does.
use c_plus_server.Base.{◌≡◌, refl, true, List, [], ◌∷◌}
use c_plus_server.Text.{Text}
use c_plus_server.Preprocessor.{
  directive_of, opens, switches, ends, PreprocessorInfo, Stacks, at_directive, remember,
  update_preprocessor,
}

module _ {ℓ} {A : Type ℓ} where
  -- The lines `body` do `f` to the stack, and leave the conditionals around them as they are.
  unfoldable pub ActsOn : (Stacks A → Stacks A) → (List A → List A) → Type ℓ
  ActsOn body f = (s : Stacks A) → body s ≡ record s { stack = f s.stack }

  -- The lines of the branches behind the first, with their #else or #elif.
  pub data Branches : List (Text × (Stacks A → Stacks A)) → Type ℓ where
    none_left : Branches []
    branch :
        {line : Text} {body : Stacks A → Stacks A}
        → (f : List A → List A) → {others : List (Text × (Stacks A → Stacks A))}
        → directive_of line ≡ switches
        → ActsOn body f
        → Branches others
        → Branches ((line, body) ∷ others)

  unfoldable pub run_branches : List (Text × (Stacks A → Stacks A)) → Stacks A → Stacks A
  run_branches [] s = s
  run_branches ((line, body) ∷ others) s = run_branches others (body (update_preprocessor s line))

  -- The #if, its branch, the other branches and the #endif.
  unfoldable pub conditional :
      Text
      → (Stacks A → Stacks A)
      → List (Text × (Stacks A → Stacks A))
      → Text
      → Stacks A
      → Stacks A
  conditional first body others last s =
      update_preprocessor (run_branches others (body (update_preprocessor s first))) last

  -- inside a conditional that has seen an #else
  run_branches-seen :
      (others : List (Text × (Stacks A → Stacks A)))
      → Branches others
      → (before kept stack : List A) → (pp : List (PreprocessorInfo A))
      → (end : List A) × (run_branches others (record {
        stack = stack;
        pp_stack =
            record { stack_before_if = before; stack_before_else = kept; seen_else = true } ∷ pp;
      })
          ≡ record {
            stack = end;
            pp_stack =
                record { stack_before_if = before; stack_before_else = kept; seen_else = true }
                ∷ pp;
          })
  unfolding ActsOn run_branches update_preprocessor at_directive remember
  run_branches-seen [] none_left before kept stack pp = (stack, refl)
  run_branches-seen ((line, body) ∷ others) (branch f d acts b) before kept stack pp =
      let (end, e) = run_branches-seen others b before kept (f before) pp in (end, rw (d, acts, e))

  -- A conditional whose branches each do something to the stack does what its first branch does,
  -- and leaves the conditionals around it as they are.
  pub conditional-ActsOn :
      (first last : Text)
      → (body : Stacks A → Stacks A) → (f : List A → List A)
      → (others : List (Text × (Stacks A → Stacks A))) → directive_of first ≡ opens
      → directive_of last ≡ ends
      → ActsOn body f
      → Branches others
      → (s : Stacks A) → conditional first body others last s ≡ record s { stack = f s.stack }
  unfolding ActsOn conditional run_branches update_preprocessor at_directive remember
  conditional-ActsOn first last body f [] h g acts none_left s = rw (h, g, acts)
  conditional-ActsOn first last body f ((line, other) ∷ others) h g acts (branch f' d acts' b) s =
      let (end, e) = run_branches-seen others b s.stack (f s.stack) (f' s.stack) s.pp_stack in
      rw (h, g, acts, d, acts', e)
