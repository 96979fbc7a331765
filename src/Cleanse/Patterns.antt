-- ===== src/Cleanse/Patterns.antt =====
-- The patterns that the cleansing uses, and the cleansing of one line's comments.
use c_plus_server.Base.{ℕ, Bool, true, false, not, ◌&&◌, ◌||◌, [], ◌∷◌, leb}
use c_plus_server.Regex.{
  one_of, any_of, none_of, Regex, ◌⊙◌, set, alt, star, lazy, group, bol, eol, word_boundary, ahead,
  lit, opt, plus, space, non_space, dot, word, is_word,
}
use c_plus_server.Text.{is_space}

unfoldable pub is_digit : ℕ → Bool
is_digit c = leb b'0' c && leb c b'9'

unfoldable pub is_hex : ℕ → Bool
unfolding is_digit
is_hex c = is_digit c || (leb b'a' c && leb c b'f') || (leb b'A' c && leb c b'F')

-- r'\\([abfnrtv?"\\\']|\d+|x[0-9a-fA-F]+)'
unfoldable pub re_pattern_cleanse_line_escapes : Regex
unfolding lit is_digit is_hex
re_pattern_cleanse_line_escapes =
    lit "\\"
    ⊙ group 1 (
        alt
          (any_of
            (b'a' ∷ b'b' ∷ b'f' ∷ b'n' ∷ b'r' ∷ b't' ∷ b'v' ∷ b'?' ∷ b'"' ∷ b'\\' ∷ b'\'' ∷ []))
          (alt (plus (set is_digit)) (lit "x" ⊙ plus (set is_hex))))

-- r'/\*(?:[^*]|\*(?!/))*\*/'
unfoldable pub re_pattern_c_comments : Regex
unfolding lit
re_pattern_c_comments =
    lit "/*" ⊙ star (alt (none_of (b'*' ∷ [])) (lit "*" ⊙ ahead false (lit "/"))) ⊙ lit "*/"

-- r'(\s*C\s*$|C\s+|\s+C(?=\W)|C)' for the pattern C of a comment
unfoldable pub re_pattern_cleanse_line_c_comments : Regex
unfolding re_pattern_c_comments space is_word
re_pattern_cleanse_line_c_comments = group 1 (
    alt (star space ⊙ re_pattern_c_comments ⊙ star space ⊙ eol) (
      alt (re_pattern_c_comments ⊙ plus space) (
        alt (plus space ⊙ re_pattern_c_comments ⊙ ahead true (set (λ c. not (is_word c))))
          re_pattern_c_comments)))

-- r'^\s*#\s*include\s*([<"])([^>"]*)[>"].*$'
unfoldable pub re_pattern_include : Regex
unfolding lit space dot
re_pattern_include =
    bol
    ⊙ star space
    ⊙ lit "#"
    ⊙ star space
    ⊙ lit "include"
    ⊙ star space
    ⊙ group 1 (any_of (b'<' ∷ b'"' ∷ []))
    ⊙ group 2 (star (none_of (b'>' ∷ b'"' ∷ [])))
    ⊙ any_of (b'>' ∷ b'"' ∷ [])
    ⊙ star dot
    ⊙ eol

-- r'(?:R|u8R|uR|UR|LR)"'
abbrev pub raw_prefix : Regex
raw_prefix = alt (lit "R") (alt (lit "u8R") (alt (lit "uR") (alt (lit "UR") (lit "LR")))) ⊙ lit "\""

-- r'[^\s\\()]*'
abbrev pub raw_delimiter : Regex
raw_delimiter = star (set (λ c. not (is_space c || one_of (b'\\' ∷ b'(' ∷ b')' ∷ []) c)))

-- r'^(.*?)\b(?:R|u8R|uR|UR|LR)"([^\s\\()]*)\((.*)$'
abbrev pub raw_string : Regex
raw_string =
    bol
    ⊙ group 1 (lazy dot)
    ⊙ word_boundary
    ⊙ raw_prefix
    ⊙ group 2 raw_delimiter
    ⊙ lit "("
    ⊙ group 3 (star dot)
    ⊙ eol

-- r'^([^\'"]|\'(\\.|[^\'])*\'|"(\\.|[^"])*")*//'
abbrev pub in_line_comment : Regex
in_line_comment =
    bol
    ⊙ star (
        group 1 (
          alt (none_of (b'\'' ∷ b'"' ∷ [])) (
            alt (lit "'" ⊙ star (group 2 (alt (lit "\\" ⊙ dot) (none_of (b'\'' ∷ [])))) ⊙ lit "'")
              (lit "\"" ⊙ star (group 3 (alt (lit "\\" ⊙ dot) (none_of (b'"' ∷ [])))) ⊙ lit "\""))))
    ⊙ lit "//"

-- r'^(\s*)\S'
abbrev pub leading_space : Regex
leading_space = bol ⊙ group 1 (star space) ⊙ non_space

-- r'^([^\'"]*)([\'"])(.*)$'
abbrev pub first_quote : Regex
first_quote =
    bol
    ⊙ group 1 (star (none_of (b'\'' ∷ b'"' ∷ [])))
    ⊙ group 2 (any_of (b'\'' ∷ b'"' ∷ []))
    ⊙ group 3 (star dot)
    ⊙ eol

-- r'\b(?:0[bBxX]?|[1-9])[0-9a-fA-F]*$'
abbrev pub number_end : Regex
number_end =
    word_boundary
    ⊙ alt (lit "0" ⊙ opt (any_of (b'b' ∷ b'B' ∷ b'x' ∷ b'X' ∷ [])))
        (set (λ c. leb b'1' c && leb c b'9'))
    ⊙ star (set is_hex)
    ⊙ eol

-- r"^((?:\'?[0-9a-zA-Z_])*)(.*)$"
abbrev pub number_rest : Regex
number_rest = bol ⊙ group 1 (star (opt (lit "'") ⊙ word)) ⊙ group 2 (star dot) ⊙ eol
