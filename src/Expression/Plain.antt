-- ===== src/Expression/Plain.antt =====
-- The reference for the search: brackets alone. Every other code point, `<`, `>` and `;` too, is
-- passed over, and there is no rule for operators.
use c_plus_server.Base.{ℕ, ◌+◌, false, ◌≡◌, List, [], ◌∷◌, ◌==◌, if◌then◌else◌}
use c_plus_server.Text.{Text}
use c_plus_server.Expression.{
  is_open, is_close, LineScan, found, gave_up, unclosed, pop_bracket, Scan, keep, closed, broken,
}

unfoldable pub plain_step : ℕ → List ℕ → Scan
plain_step char stack =
    if is_open char
    then keep (char ∷ stack)
    else if is_close char
    then pop_bracket char stack
    else keep stack

unfoldable pub plain_end : ℕ → Text → List ℕ → LineScan
plain_end i [] stack = unclosed stack
plain_end i (char ∷ rest) stack = elim (plain_step char stack) [
  | keep stack' ↦ plain_end (i + 1) rest stack'
  | closed ↦ found (i + 1)
  | broken ↦ gave_up
]

-- The stack with its tentative `<` taken out.
unfoldable pub brackets : List ℕ → List ℕ
brackets [] = []
brackets (x ∷ stack) = let rest = brackets stack in if x == b'<' then rest else x ∷ rest

-- The stack stands on a bracket that is no `<`.
abbrev pub Grounded : List ℕ → Type 0
Grounded [] = ⊥
Grounded (x ∷ []) = (x == b'<') ≡ false
Grounded (x ∷ y ∷ stack) = Grounded (y ∷ stack)
