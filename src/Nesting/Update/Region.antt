-- ===== src/Nesting/Update/Region.antt =====
-- Several plain lines in a row: their braces act as one text.
use c_plus_server.Base.{
  ℕ, zero, suc, ◌≤◌, ◌≡◌, ◌≢◌, refl, sym, ap, ◌∙◌, Option, Bool, none, some, List, [], ◌∷◌, ◌++◌,
  length, arith, true, get_elem?, lt-length_of_get_elem?,
}
use c_plus_server.Text.{Text}
use c_plus_server.Report.{Report}
use c_plus_server.Nesting.Braces.Flags.{
  flags, run_flags, step_flags, open_flag, end_flag, close_flag,
}
use c_plus_server.Nesting.Braces.Nested.{Nested, empty, other, block}
use c_plus_server.Nesting.State.{NestingState}
use c_plus_server.Nesting.Update.{update}
use c_plus_server.Nesting.Update.Flags.{IsPlain, update-run_flags}
use c_plus_server.Cleanse.{CleansedLines}

-- Update for `n` lines from `linenum` on.
unfoldable pub update_lines :
    CleansedLines → ℕ → ℕ → NestingState → Option (NestingState × List Report)
update_lines clean_lines zero linenum s = some (s, [])
update_lines clean_lines (suc n) linenum s = elim (update clean_lines linenum s) [
  | none ↦ none
  | some (s', reports) ↦ elim (update_lines clean_lines n (suc linenum) s') [
    | none ↦ none
    | some (s'', more) ↦ some (s'', reports ++ more)
  ]
]

-- The text of `n` lines from `linenum` on.
unfoldable pub region : List Text → ℕ → ℕ → Text
region elided zero linenum = []
region elided (suc n) linenum = elim (get_elem? elided linenum) [
  | none ↦ []
  | some line ↦ line ++ region elided n (suc linenum)
]

-- All those lines are there, and plain.
abbrev pub ArePlain : List Text → ℕ → ℕ → Type 0
ArePlain elided zero linenum = Unit {0}
ArePlain elided (suc n) linenum =
    ((line : Text) × (get_elem? elided linenum ≡ some line) × IsPlain line)
    × ArePlain elided n (suc linenum)

run_flags-append :
    (s t : Text) (fs : List Bool) → run_flags (s ++ t) fs ≡ run_flags t (run_flags s fs)
unfolding run_flags
run_flags-append [] t fs = refl
run_flags-append (c ∷ s) t fs = run_flags-append s t (step_flags c fs)

-- The block on top, if there is one, has seen its brace.
abbrev pub top_seen : List Bool → Bool
top_seen [] = true
top_seen (seen ∷ fs) = seen

step_flags-open : (fs : List Bool) → top_seen fs ≡ true → step_flags b'{' fs ≡ true ∷ fs
unfolding step_flags open_flag
step_flags-open [] h = refl
step_flags-open (seen ∷ fs) h = rw h

step_flags-keep :
    (c : ℕ) (fs : List Bool) → c ≢ b'{' → c ≢ b'}' → top_seen fs ≡ true → step_flags c fs ≡ fs
unfolding step_flags end_flag
step_flags-keep c [] a b h = ground arith
step_flags-keep c (seen ∷ fs) a b h = ground arith

step_flags-close : (fs : List Bool) → step_flags b'}' (true ∷ fs) ≡ fs
unfolding step_flags close_flag
step_flags-close fs = refl

Nested-run_flags : {s : Text} (fs : List Bool) → Nested s → top_seen fs ≡ true → run_flags s fs ≡ fs
unfolding run_flags
Nested-run_flags fs empty h = refl
Nested-run_flags fs (other c s a b m) h =
    ap (run_flags s) (step_flags-keep c fs a b h) ∙ Nested-run_flags fs m h
Nested-run_flags fs (block s t m m') h =
    ap (run_flags (s ++ b'}' ∷ t)) (step_flags-open fs h)
    ∙ run_flags-append s (b'}' ∷ t) (true ∷ fs)
    ∙ ap (run_flags (b'}' ∷ t)) (Nested-run_flags (true ∷ fs) m refl)
    ∙ ap (run_flags t) (step_flags-close fs)
    ∙ Nested-run_flags fs m' h

update_lines-run_flags :
    (clean_lines : CleansedLines) (n linenum : ℕ) (s : NestingState)
    → length clean_lines.elided ≤ length clean_lines.raw_lines
    → ArePlain clean_lines.elided n linenum
    → (s' : NestingState) × (reports : List Report) × (update_lines clean_lines n linenum s
        ≡ some (s', reports))
      × (flags s'.nesting.stack
          ≡ run_flags (region clean_lines.elided n linenum) (flags s.nesting.stack))
      × (s'.nesting.pp_stack ≡ s.nesting.pp_stack)
unfolding update_lines region run_flags
update_lines-run_flags c zero i s h p = (s, [], refl, refl, refl)
update_lines-run_flags c (suc n) i s h ((line, e, p), ps) =
    let (s', reports, f, g, k) =
      update-run_flags c i line s e (omega (arith, lt-length_of_get_elem? {0} c.elided i e)) p in
    let (s'', more, f', g', k') = update_lines-run_flags c n (suc i) s' h ps in
    (
      s'',
      reports ++ more,
      rw (update_lines, f, f'),
      g'
          ∙ ap (run_flags (region c.elided n (suc i))) g
          ∙ sym (run_flags-append line (region c.elided n (suc i)) (flags s.nesting.stack))
          ∙ (rw (region, e)),
      k' ∙ k,
    )

-- Plain lines whose braces are balanced, taken together, leave as many blocks on the stack as there
-- were, with the same flags, when the block on top has seen its brace.
pub update_lines-Nested :
    (clean_lines : CleansedLines) (n linenum : ℕ) (s : NestingState)
    → length clean_lines.elided ≤ length clean_lines.raw_lines
    → ArePlain clean_lines.elided n linenum
    → Nested (region clean_lines.elided n linenum)
    → top_seen (flags s.nesting.stack) ≡ true
    → (s' : NestingState) × (reports : List Report) × (update_lines clean_lines n linenum s
        ≡ some (s', reports))
      × (flags s'.nesting.stack ≡ flags s.nesting.stack)
      × (s'.nesting.pp_stack ≡ s.nesting.pp_stack)
update_lines-Nested c n i s h p m t =
    let (s', reports, f, g, k) = update_lines-run_flags c n i s h p in
    (s', reports, f, g ∙ Nested-run_flags (flags s.nesting.stack) m t, k)
