-- ===== src/LintState/Filtering.antt =====
-- Which errors the filters let through.
use c_plus_server.Base.{
  ℕ, Bool, true, false, ◌&&◌, ◌||◌, not, ◌≡◌, ◌≢◌, refl, none, some, List, [], ◌∷◌, ◌++◌,
  if◌then◌else◌, arith, all,
}
use c_plus_server.Text.{Text, codes, starts_with, drop_first}
use c_plus_server.Suppressions.{Suppressions}
use c_plus_server.LintState.{
  LintState, has_sign, add_filters, backup_filters, restore_filters, is_filtered,
  should_print_error,
}

-- The filter that decides is the last one that fits the category: one more filter at the end
-- decides for the categories that it fits, and changes nothing for the others.
pub is_filtered-last :
    (b : Bool) (fs : List Text) (f category : Text)
    → has_sign f ≡ true
    → is_filtered b (fs ++ f ∷ []) category ≡ (elim (is_filtered b fs category) [
      | none ↦ none
      | some x ↦ some (if starts_with category (drop_first f) then starts_with f (codes "-") else x)
    ])
unfolding is_filtered has_sign
is_filtered-last b [] f category h = ground arith
is_filtered-last b (g ∷ fs) f category h = ground (
  arith,
  is_filtered-last (starts_with category (drop_first g) || b) fs f category h,
  is_filtered-last (not (starts_with category (drop_first g)) && b) fs f category h,
)

pub is_filtered-total :
    (b : Bool) (fs : List Text) (category : Text)
    → all has_sign fs ≡ true
    → is_filtered b fs category ≢ none
unfolding is_filtered has_sign
is_filtered-total b [] category h = λ e. cc
is_filtered-total b (f ∷ fs) category h = ground (
  arith,
  is_filtered-total (starts_with category (drop_first f) || b) fs category,
  is_filtered-total (not (starts_with category (drop_first f)) && b) fs category,
)

-- Where AddFilters raises no error, the assertion of _ShouldPrintError holds for every category,
-- confidence and line.
pub should_print_error-add_filters :
    (s : LintState) (filters : Text) (suppressions : Suppressions) (category : Text)
    (confidence linenum : ℕ)
    → (add_filters s filters).1 ≡ true
    → should_print_error (add_filters s filters).0 suppressions category confidence linenum ≢ none
unfolding should_print_error add_filters
should_print_error-add_filters s filters suppressions category confidence linenum h =
    let kept = is_filtered-total false (add_filters s filters).0.filters category h in ground arith

-- The filters that a file's configuration adds are gone when the backup is restored, also those of
-- a list that raises an error, and so is their effect.
pub restore_filters-add_filters :
    (s : LintState) (filters : Text) (suppressions : Suppressions) (category : Text)
    (confidence linenum : ℕ)
    → should_print_error
        (restore_filters (add_filters (backup_filters s) filters).0)
        suppressions
        category
        confidence
        linenum
      ≡ should_print_error s suppressions category confidence linenum
unfolding should_print_error restore_filters add_filters backup_filters
restore_filters-add_filters s filters suppressions category confidence linenum = refl
