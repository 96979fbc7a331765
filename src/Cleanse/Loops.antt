-- ===== src/Cleanse/Loops.antt =====
-- my_socket/build_support/cpplint.py, the loops of CleanseRawStrings and of
-- CleansedLines._CollapseStrings.
use c_plus_server.Base.{
  ℕ, zero, suc, ◌+◌, Option, none, some, List, [], ◌∷◌, ◌++◌, if◌then◌else◌, length, drop,
}
use c_plus_server.Text.{Text, find, replace, text_eq}
use c_plus_server.Regex.{matches, searches, match_re, group_text, Cursor}
use c_plus_server.Cleanse.Patterns.{
  raw_string, in_line_comment, leading_space, first_quote, number_end, number_rest,
}

-- The groups of a match; `none` if there is no match.
pub record Parts : Type 0 where
  pub head : Text
  pub middle : Text
  pub tail : Text

abbrev parts_of : Cursor → Parts
parts_of c = record {
  head = group_text 1 c.groups;
  middle = group_text 2 c.groups;
  tail = group_text 3 c.groups;
}

-- The raw string that begins first on the line, if it is not in a comment.
unfoldable pub raw_start : Text → Option Parts
raw_start line = elim (match_re raw_string line) [
  | none ↦ none
  | some c ↦ if matches in_line_comment (parts_of c).head then none else some (parts_of c)
]

-- `')' + matched.group(2) + '"'`
abbrev pub delimiter_of : Parts → Text
delimiter_of p = b')' ∷ p.middle ++ b'"' ∷ []

abbrev pub empty_string : Text
empty_string = b'"' ∷ b'"' ∷ []

-- `while delimiter is None`: the line and the delimiter at its end
unfoldable pub raw_loop : ℕ → Text → Option (Text × Option Text)
raw_loop zero line = none
raw_loop (suc f) line = elim (raw_start line) [
  | none ↦ some (line, none)
  | some p ↦ elim (find p.tail (delimiter_of p)) [
    | none ↦ some (p.head ++ empty_string, some (delimiter_of p))
    | some end ↦ raw_loop f (p.head ++ empty_string ++ drop (end + length (delimiter_of p)) p.tail)
  ]
]

-- `leading_space.group(1)`. Only a blank line has no match, and none is searched here: a delimiter
-- was found on it.
unfoldable pub indentation : Text → Text
indentation line = elim (match_re leading_space line) [ none ↦ [] | some c ↦ group_text 1 c.groups ]

-- One line of CleanseRawStrings, with the delimiter of the raw string that it begins in.
unfoldable pub raw_line : Option Text → Text → Option (Text × Option Text)
raw_line none line = raw_loop (suc (length line)) line
raw_line (some delimiter) line = elim (find line delimiter) [
  | none ↦ some (empty_string, some delimiter)
  | some end ↦
      let resumed = indentation line ++ empty_string ++ drop (end + length delimiter) line in
      raw_loop (suc (length resumed)) resumed
]

unfoldable pub cleanse_from : Option Text → List Text → Option (List Text)
cleanse_from delimiter [] = some []
cleanse_from delimiter (line ∷ lines) = elim (raw_line delimiter line) [
  | none ↦ none
  | some (line', delimiter') ↦ elim (cleanse_from delimiter' lines) [
    | none ↦ none
    | some rest ↦ some (line' ∷ rest)
  ]
]

-- CleanseRawStrings
unfoldable pub cleanse_raw_strings : List Text → Option (List Text)
cleanse_raw_strings raw_lines = cleanse_from none raw_lines

unfoldable pub quote_split : Text → Option Parts
quote_split elided = elim (match_re first_quote elided) [ none ↦ none | some c ↦ some (parts_of c) ]

-- The digits behind a separator without their quotes, and what follows them.
unfoldable pub literal_split : Text → Option (Text × Text)
literal_split s = elim (match_re number_rest s) [
  | none ↦ none
  | some c ↦ some (replace (group_text 1 c.groups) (b'\'' ∷ []) [], group_text 2 c.groups)
]

-- The result of a loop on fuel whose body can raise an AttributeError, by a match that fails.
pub data Outcome : Type 0 where
  done : Text → Outcome
  attribute_error : Outcome
  no_fuel : Outcome

-- The loop of _CollapseStrings behind the escapes.
unfoldable pub collapse_from : ℕ → Text → Text → Outcome
collapse_from zero collapsed elided = no_fuel
collapse_from (suc f) collapsed elided = elim (quote_split elided) [
  | none ↦ done (collapsed ++ elided)
  | some p ↦
      if text_eq p.middle (b'"' ∷ [])
      then (elim (find p.tail (b'"' ∷ [])) [
        | some second ↦
            collapse_from f (collapsed ++ p.head ++ empty_string) (drop (second + 1) p.tail)
        | none ↦ done (collapsed ++ elided)
      ])
      else if searches number_end p.head
      then (elim (literal_split (b'\'' ∷ p.tail)) [
        | some (digits, rest) ↦ collapse_from f (collapsed ++ p.head ++ digits) rest
        | none ↦ attribute_error
      ])
      else (elim (find p.tail (b'\'' ∷ [])) [
        | some second ↦
            collapse_from f (collapsed ++ p.head ++ b'\'' ∷ b'\'' ∷ []) (drop (second + 1) p.tail)
        | none ↦ done (collapsed ++ elided)
      ])
]
