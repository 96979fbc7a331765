-- ===== src/Cleanse.antt =====
-- my_socket/build_support/cpplint.py, the copies of a file without comments and strings:
-- IsCppString, CleanseRawStrings, CleanseComments and class CleansedLines. Loops on fuel return
-- `none` when it runs out.
pub mod Patterns
pub mod Loops
pub mod Total
pub mod Quotes
pub mod Returns
pub mod Lines
pub mod Comments
mod Tests
use c_plus_server.Base.{
  ℕ, suc, ◌+◌, ◌%◌, Bool, true, false, not, ◌&&◌, Option, none, some, List, [], ◌∷◌, ◌++◌, ◌==◌,
  if◌then◌else◌, reverse, length, drop, take, map,
}
use c_plus_server.Text.{Text, codes, find, count, replace, rstrip, text_eq}
use c_plus_server.Regex.{Regex, matches, searches, match_re, group_text, remove_all}
use c_plus_server.Cleanse.Loops.{
  cleanse_raw_strings, collapse_from, Outcome, done, attribute_error, no_fuel,
}
use c_plus_server.Cleanse.Patterns.{
  re_pattern_cleanse_line_c_comments, re_pattern_cleanse_line_escapes, re_pattern_include,
}

-- IsCppString. The difference of the counts is odd exactly when their sum is.
unfoldable pub is_cpp_string : Text → Bool
is_cpp_string text =
    let line = replace text (b'\\' ∷ b'\\' ∷ []) (codes "XX") in
    (count line (codes "\"") + count line (codes "\\\"") + count line (codes "'\"'")) % 2 == 1

-- `line` up to a `//` that does not stand in a string
unfoldable pub strip_line_comment : Text → Text
strip_line_comment line = elim (find line (codes "//")) [
  | none ↦ line
  | some pos ↦ if is_cpp_string (take pos line) then line else rstrip (take pos line)
]

unfoldable pub cleanse_comments : Text → Text
cleanse_comments line = remove_all re_pattern_cleanse_line_c_comments (strip_line_comment line)

-- CleansedLines._CollapseStrings, with fuel for its loop
unfoldable pub collapse_strings : Text → Outcome
collapse_strings line =
    if matches re_pattern_include line
    then done line
    else collapse_from (suc (length (remove_all re_pattern_cleanse_line_escapes line))) []
        (remove_all re_pattern_cleanse_line_escapes line)

-- The four copies of the lines.
pub record CleansedLines : Type 0 where
  pub elided : List Text
  pub lines : List Text
  pub raw_lines : List Text
  pub num_lines : ℕ
  pub lines_without_raw_strings : List Text

-- `elided` for every line; `none` if the loop of one raises an error or runs out of fuel
unfoldable pub elide : List Text → Option (List Text)
elide [] = some []
elide (line ∷ lines) = elim (collapse_strings line) [
  | done collapsed ↦ elim (elide lines) [
    | none ↦ none
    | some rest ↦ some (cleanse_comments collapsed ∷ rest)
  ]
  | _ ↦ none
]

unfoldable pub cleansed_lines : List Text → Option CleansedLines
cleansed_lines raw_lines = elim (cleanse_raw_strings raw_lines) [
  | none ↦ none
  | some without ↦ elim (elide without) [
    | none ↦ none
    | some elided ↦ some (record {
      elided = elided;
      lines = map cleanse_comments without;
      raw_lines = raw_lines;
      num_lines = length raw_lines;
      lines_without_raw_strings = without;
    })
  ]
]
