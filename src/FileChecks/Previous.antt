-- ===== src/FileChecks/Previous.antt =====
-- GetPreviousNonBlankLine finds the nearest line before a line that is not blank.
use c_plus_server.Base.{
  ℕ, zero, suc, ◌≤◌, ◌<◌, ◌≡◌, Bool-cases, true, false, inl, inr, ◌⊎◌, Option, none, some, List, [],
  get_or, arith,
}
use c_plus_server.Text.{Text}
use c_plus_server.FileChecks.{get_previous_non_blank_line, is_blank_line}

-- The lines from `first` up to `linenum` are blank.
abbrev pub BlankBetween : List Text → ℕ → ℕ → Type 0
BlankBetween elided first linenum =
    (i : ℕ) → first ≤ i → i < linenum → is_blank_line (get_or elided i []) ≡ true

-- What the result says of the lines before `linenum`.
pub data Nearest (elided : List Text) (linenum : ℕ) : Text × Option ℕ → Type 0 where
  none_before : BlankBetween elided 0 linenum → Nearest elided linenum ([], none)
  nearest :
      (k : ℕ)
      → k < linenum
      → is_blank_line (get_or elided k []) ≡ false
      → BlankBetween elided (suc k) linenum
      → Nearest elided linenum (get_or elided k [], some k)

BlankBetween-suc :
    (elided : List Text) (first n : ℕ)
    → BlankBetween elided first n
    → is_blank_line (get_or elided n []) ≡ true
    → BlankBetween elided first (suc n)
BlankBetween-suc elided first n all here i a b = elim (split_last n i b) [
  | inl before ↦ all i a before
  | inr e ↦ rw e here
]
  where
    split_last : (n i : ℕ) → i < suc n → (i < n) ⊎ (i ≡ n)
    split_last n i h = omega arith

Nearest-suc :
    (elided : List Text) (n : ℕ) {r : Text × Option ℕ}
    → Nearest elided n r
    → is_blank_line (get_or elided n []) ≡ true
    → Nearest elided (suc n) r
Nearest-suc elided n (none_before all) h = none_before (BlankBetween-suc elided 0 n all h)
Nearest-suc elided n (nearest k b f all) h =
    nearest k (omega arith) f (BlankBetween-suc elided (suc k) n all h)

-- The line found is not blank, and all lines between it and `linenum` are; if none is found, all
-- lines before `linenum` are blank.
pub get_previous_non_blank_line-Nearest :
    (elided : List Text) (linenum : ℕ)
    → Nearest elided linenum (get_previous_non_blank_line elided linenum)
unfolding get_previous_non_blank_line
get_previous_non_blank_line-Nearest elided zero = none_before (λ i a b. absurd (omega arith))
get_previous_non_blank_line-Nearest elided (suc n) =
    elim (Bool-cases (is_blank_line (get_or elided n []))) [
      | inl e ↦ rw e (Nearest-suc elided n (get_previous_non_blank_line-Nearest elided n) e)
      | inr e ↦ rw e (nearest n (omega arith) e (λ i a b. absurd (omega arith)))
    ]
