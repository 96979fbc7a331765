-- ===== src/Cleanse/Lines.antt =====
-- The copies of a file in CleansedLines.
use c_plus_server.Base.{
  ℕ, suc, Option-cases, ◌≡◌, refl, sym, ap, ◌∙◌, subst, inl, inr, Option, none, some, List, [], ◌∷◌,
  length, length-map, map, arith,
}
use c_plus_server.Text.{Text}
use c_plus_server.Cleanse.Loops.{Outcome, done, attribute_error, no_fuel}
use c_plus_server.Cleanse.Total.{cleanse_raw_strings-length}
use c_plus_server.Cleanse.{CleansedLines, cleansed_lines, elide, collapse_strings, cleanse_comments}

elide-length : (lines out : List Text) → elide lines ≡ some out → length out ≡ length lines
unfolding elide
elide-length [] out h = ground arith
elide-length (line ∷ lines) out h = go (collapse_strings line) (elide lines) h (elide-length lines)
  where
    go :
        (o : Outcome) (rest : Option (List Text))
        → ◌≡◌ {A = Option (List Text)}
            (elim o [
              | done collapsed ↦ elim rest [
                | none ↦ none
                | some r ↦ some (cleanse_comments collapsed ∷ r)
              ]
              | attribute_error ↦ none
              | no_fuel ↦ none
            ])
            (some out)
        → ((r : List Text) → rest ≡ some r → length r ≡ length lines)
        → length out ≡ suc (length lines)
    go (done c) none q ih = cc
    go (done c) (some r) q ih =
        let e : cleanse_comments c ∷ r ≡ out = cc in ap length (sym e) ∙ ap suc (ih r refl)
    go attribute_error rest q ih = cc
    go no_fuel rest q ih = cc

-- The four copies have as many lines as the file, and `num_lines` is that number.
pub record SameLength (n : ℕ) (c : CleansedLines) : Type 0 where
  pub elided_length : length c.elided ≡ n
  pub lines_length : length c.lines ≡ n
  pub raw_length : length c.raw_lines ≡ n
  pub num_length : c.num_lines ≡ n
  pub without_length : length c.lines_without_raw_strings ≡ n

copies : List Text → List Text → List Text → CleansedLines
copies raw_lines without elided = record {
  elided = elided;
  lines = map cleanse_comments without;
  raw_lines = raw_lines;
  num_lines = length raw_lines;
  lines_without_raw_strings = without;
}

copies-SameLength :
    (raw_lines without elided : List Text)
    → length without ≡ length raw_lines
    → elide without ≡ some elided
    → SameLength (length raw_lines) (copies raw_lines without elided)
unfolding copies
copies-SameLength raw_lines without elided h e = record {
  elided_length = elide-length without elided e ∙ h;
  lines_length = length-map cleanse_comments without ∙ h;
  raw_length = refl;
  num_length = refl;
  without_length = h;
}

-- The four copies in a CleansedLines have the length of the list of lines that it was made from,
-- and `num_lines` is that length.
pub cleansed_lines-SameLength :
    (raw_lines : List Text) (c : CleansedLines)
    → cleansed_lines raw_lines ≡ some c
    → SameLength (length raw_lines) c
unfolding cleansed_lines copies
cleansed_lines-SameLength raw_lines c h =
    let (without, e, n) = cleanse_raw_strings-length raw_lines in
    elim (Option-cases (elide without)) [
      | inl f ↦ absurd (let x = rw (cleansed_lines, e, f) at h in cc x)
      | inr (elided, f) ↦
          let x = rw (cleansed_lines, e, f) at h in
          let same : copies raw_lines without elided ≡ c = cc x in
          subst (SameLength (length raw_lines)) same
            (copies-SameLength raw_lines without elided n f)
    ]
