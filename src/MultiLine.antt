-- ===== src/MultiLine.antt =====
-- my_socket/build_support/cpplint.py, the comments that go on over several lines:
-- FindNextMultiLineCommentStart, FindNextMultiLineCommentEnd, RemoveMultiLineCommentsFromRange and
-- RemoveMultiLineComments.
pub mod Lines
pub mod Clearing
mod Tests
use c_plus_server.Base.{
  ℕ, zero, suc, ◌+◌, ◌-◌, Bool, true, false, Option, none, some, List, [], ◌∷◌, ltb, leb,
  if◌then◌else◌, length, drop,
}
use c_plus_server.Text.{Text, codes, starts_with, ends_with, find, strip}
use c_plus_server.Report.{Report}

unfoldable pub is_none {ℓ} : {A : Type ℓ} → Option A → Bool
is_none none = true
is_none (some x) = false

-- The line begins a comment that it does not end; the search for the end skips the marker.
unfoldable pub begins_comment : Text → Bool
begins_comment line =
    if starts_with (strip line) (codes "/*")
    then is_none (find (drop 2 (strip line)) (codes "*/"))
    else false

unfoldable pub ends_comment : Text → Bool
ends_comment line = ends_with (strip line) (codes "*/")

-- The first line from number `lineix` on, of those in `rest`, that passes the test; `total` if
-- there is none.
unfoldable pub next_line : (Text → Bool) → ℕ → ℕ → List Text → ℕ
next_line test total lineix [] = total
next_line test total lineix (line ∷ rest) =
    let later = next_line test total (lineix + 1) rest in if test line then lineix else later

unfoldable pub find_next_multi_line_comment_start : List Text → ℕ → ℕ
unfolding next_line begins_comment
find_next_multi_line_comment_start lines lineix =
    next_line begins_comment (length lines) lineix (drop lineix lines)

unfoldable pub find_next_multi_line_comment_end : List Text → ℕ → ℕ
unfolding next_line ends_comment
find_next_multi_line_comment_end lines lineix =
    next_line ends_comment (length lines) lineix (drop lineix lines)

-- dummy comment of a line that is cleared
abbrev pub cleared : Text
cleared = b'/' ∷ b'*' ∷ b'*' ∷ b'/' ∷ []

-- `lines[i] = '/**/'`; there is no line out of range
unfoldable pub clear_line : ℕ → List Text → List Text
clear_line i [] = []
clear_line zero (line ∷ lines) = cleared ∷ lines
clear_line (suc i) (line ∷ lines) = line ∷ clear_line i lines

-- `n` turns of the loop, from line `i` on
unfoldable pub clear_lines : ℕ → ℕ → List Text → List Text
clear_lines zero i lines = lines
clear_lines (suc n) i lines = clear_lines n (i + 1) (clear_line i lines)

unfoldable pub remove_multi_line_comments_from_range : List Text → ℕ → ℕ → List Text
unfolding clear_lines
remove_multi_line_comments_from_range lines begin end = clear_lines (end - begin) begin lines

unfoldable pub no_end : ℕ → Report
no_end linenum = record {
  linenum = linenum;
  category = codes "readability/multiline_comment";
  confidence = 5;
  message = codes "Could not find end of multi-line comment";
}

-- The loop from line `lineix` on: the lines and the errors; `none` if the fuel runs out.
unfoldable pub remove_loop : ℕ → List Text → ℕ → Option (List Text × List Report)
remove_loop zero lines lineix = none
remove_loop (suc f) lines lineix =
    let begin = find_next_multi_line_comment_start lines lineix in
    let end = find_next_multi_line_comment_end lines begin in
    let rest =
      remove_loop f (remove_multi_line_comments_from_range lines begin (end + 1)) (end + 1) in
    if ltb lineix (length lines)
    then if leb (length lines) begin
      then some (lines, [])
      else if leb (length lines) end
      then some (lines, no_end (begin + 1) ∷ [])
      else rest
    else some (lines, [])

unfoldable pub remove_multi_line_comments : List Text → Option (List Text × List Report)
unfolding remove_loop
remove_multi_line_comments lines = remove_loop (suc (length lines)) lines 0
