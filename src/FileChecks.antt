-- ===== src/FileChecks.antt =====
-- my_socket/build_support/cpplint.py, checks of the text of a file: CheckForBadCharacters,
-- CheckForNewlineAtEOF, CheckForMultilineCommentsAndStrings, IsBlankLine and
-- GetPreviousNonBlankLine.
pub mod Ending
pub mod Previous
mod Tests
use c_plus_server.Base.{
  ℕ, zero, suc, ◌+◌, ◌-◌, ◌%◌, Bool, true, false, ◌||◌, ◌&&◌, not, Option, none, some, List, [],
  ◌∷◌, ◌++◌, ◌==◌, ltb, if◌then◌else◌, length, get_elem?, get_or, all, any,
}
use c_plus_server.Text.{Text, codes, count, replace, is_space}
use c_plus_server.Report.{Report}

-- What is wrong with the characters of one line: the replacement character, a NUL.
unfoldable pub bad_characters : ℕ → Text → List Report
bad_characters linenum line =
    (if any (λ c. c == 0xfffd) line
      then record {
        linenum = linenum;
        category = codes "readability/utf8";
        confidence = 5;
        message = codes "Line contains invalid UTF-8 (or Unicode replacement character).";
      }
        ∷ []
      else [])
    ++ (if any (λ c. c == 0) line
        then record {
          linenum = linenum;
          category = codes "readability/nul";
          confidence = 5;
          message = codes "Line contains NUL byte.";
        }
          ∷ []
        else [])

-- CheckForBadCharacters, for the lines from `linenum` on
unfoldable pub bad_characters_from : ℕ → List Text → List Report
unfolding bad_characters
bad_characters_from linenum [] = []
bad_characters_from linenum (line ∷ lines) =
    bad_characters linenum line ++ bad_characters_from (linenum + 1) lines

unfoldable pub check_for_bad_characters : List Text → List Report
unfolding bad_characters_from
check_for_bad_characters lines = bad_characters_from 0 lines

-- `lines[-2]`, of at least three lines
abbrev pub last_but_one : List Text → Text
last_but_one lines = get_or lines (length lines - 2) []

abbrev pub is_empty : Text → Bool
is_empty [] = true
is_empty (c ∷ s) = false

-- The number of the error is negative for a list of fewer than two lines, which no file gives.
unfoldable pub check_for_newline_at_eof : List Text → List Report
check_for_newline_at_eof lines =
    if ltb (length lines) 3 || not (is_empty (last_but_one lines))
    then record {
      linenum = length lines - 2;
      category = codes "whitespace/ending_newline";
      confidence = 5;
      message = codes "Could not find a newline character at the end of the file.";
    }
      ∷ []
    else []

-- CheckForMultilineCommentsAndStrings on the elided line; the difference of the counts of quotes is
-- odd exactly when their sum is.
unfoldable pub check_for_multiline_comments_and_strings : ℕ → Text → List Report
check_for_multiline_comments_and_strings linenum elided_line =
    let line = replace elided_line (b'\\' ∷ b'\\' ∷ []) [] in
    (if ltb (count line (codes "*/")) (count line (codes "/*"))
      then record {
        linenum = linenum;
        category = codes "readability/multiline_comment";
        confidence = 5;
        message =
            codes "Complex multi-line /*...*/-style comment found. "
            ++ codes "Lint may give bogus warnings.  "
            ++ codes "Consider replacing these with //-style comments, "
            ++ codes "with #if 0...#endif, "
            ++ codes "or with more clearly structured multi-line comments.";
      }
        ∷ []
      else [])
    ++ (if (count line (codes "\"") + count line (codes "\\\"")) % 2 == 1
        then record {
          linenum = linenum;
          category = codes "readability/multiline_string";
          confidence = 5;
          message =
              codes "Multi-line string (\"...\") found.  This lint script doesn't "
              ++ codes "do well with such strings, and may give bogus warnings.  "
              ++ codes "Use C++11 raw strings or concatenation instead.";
        }
          ∷ []
        else [])

-- `not line or line.isspace()`
unfoldable pub is_blank_line : Text → Bool
is_blank_line line = all is_space line

-- GetPreviousNonBlankLine; `none` is the number -1. A line behind the end of the file is taken for
-- blank, where the source raises an IndexError.
unfoldable pub get_previous_non_blank_line : List Text → ℕ → Text × Option ℕ
unfolding is_blank_line
get_previous_non_blank_line elided zero = ([], none)
get_previous_non_blank_line elided (suc prevlinenum) =
    let further = get_previous_non_blank_line elided prevlinenum in
    if is_blank_line (get_or elided prevlinenum [])
    then further
    else (get_or elided prevlinenum [], some prevlinenum)
