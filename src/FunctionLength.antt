-- ===== src/FunctionLength.antt =====
-- my_socket/build_support/cpplint.py, CheckForFunctionLengths: where functions begin and end, and
-- which of their lines count.
pub mod Whole
pub mod Total
mod Tests
use c_plus_server.Base.{
  ℕ, zero, suc, ◌+◌, Bool, true, false, ◌||◌, ◌&&◌, not, Option, none, some, List, [], ◌∷◌, ◌++◌,
  ◌==◌, leb, if◌then◌else◌, drop, get_elem?, reverse,
}
use c_plus_server.Text.{Text, codes, text_eq, is_space, lstrip, rstrip}
use c_plus_server.Report.{Report}
use c_plus_server.Regex.{
  Regex, ◌⊙◌, bol, eol, alt, set, star, plus, group, lit, space, dot, word, matches, searches,
  match_re, search_re, group_text, Found, any_of,
}
use c_plus_server.FunctionSize.{FunctionState, begin, count_line, check, end}

-- r'(\w(\w|::|\*|\&|\s)*)\('
abbrev function_decl : Regex
function_decl =
    group 1
      (word ⊙ star (group 2 (alt word (alt (lit "::") (alt (lit "*") (alt (lit "&") space))))))
    ⊙ lit "("

-- the code points of a text given from its end, up to a white space
unfoldable pub until_space : Text → Text
until_space [] = []
until_space (c ∷ s) = let rest = until_space s in if is_space c then [] else c ∷ rest

-- `text.split()[-1]`, for a text that is not blank
unfoldable pub last_word : Text → Text
unfolding until_space
last_word text = reverse (until_space (reverse (rstrip text)))

-- r'[A-Z_]+$'
abbrev macro_name : Regex
macro_name = plus (set (λ c. (leb b'A' c && leb c b'Z') || c == b'_')) ⊙ eol

-- `starting_func`
unfoldable pub starts_function : Text → Bool
unfolding last_word
starts_function line = elim (match_re function_decl line) [
  | none ↦ false
  | some m ↦
      let name = last_word (group_text 1 m.groups) in
      text_eq name (codes "TEST") || text_eq name (codes "TEST_F") || not (matches macro_name name)
]

-- Where the search for the body ends: at a declaration, at a body, with the lines up to there
-- joined, or at the end of the file.
pub data Body : Type 0 where
  declaration : Body
  body : Text → Body
  missing : Body

-- The loop over the lines from the declaration on.
unfoldable pub find_body : Text → List Text → Body
find_body joined [] = missing
find_body joined (line ∷ lines) =
    let joined' = joined ++ codes " " ++ lstrip line in
    let rest = find_body joined' lines in
    if searches (group 1 (any_of (b';' ∷ b'}' ∷ []))) line
    then declaration
    else if searches (lit "{") line
    then body joined'
    else rest

-- r'((\w|:)*)\('
abbrev called_name : Regex
called_name = group 1 (star (group 2 (alt word (lit ":")))) ⊙ lit "("

-- r'(\(.*\))'
abbrev parameters : Regex
parameters = group 1 (lit "(" ⊙ star dot ⊙ lit ")")

-- The name for FunctionState.Begin; `none` is an AttributeError, where the search finds nothing.
unfoldable pub function_name : Text → Text → Option Text
function_name line joined = elim (search_re called_name line) [
  | none ↦ none
  | some f ↦
      let name = group_text 1 f.last.groups in
      if matches (lit "TEST") name
      then some (elim (search_re parameters joined) [
        | none ↦ name
        | some p ↦ name ++ group_text 1 p.last.groups
      ])
      else some (name ++ codes "()")
]

-- r'^\}\s*$'
abbrev pub function_end : Regex
function_end = bol ⊙ lit "}" ⊙ star space ⊙ eol

-- r'^\s*$'
abbrev pub blank_line : Regex
blank_line = bol ⊙ star space ⊙ eol

abbrev no_body : ℕ → Report
no_body linenum = record {
  linenum = linenum;
  category = codes "readability/fn_size";
  confidence = 5;
  message = codes "Lint failed to find start of function body.";
}

unfoldable pub start_function :
    List Text → ℕ → Text → FunctionState → Option (FunctionState × List Report)
unfolding find_body function_name
start_function lines linenum line s = elim (find_body [] (drop linenum lines)) [
  | declaration ↦ some (s, [])
  | missing ↦ some (s, no_body linenum ∷ [])
  | body joined ↦ elim (function_name line joined) [
    | none ↦ none
    | some name ↦ some (begin s name, [])
  ]
]

unfoldable pub function_line :
    List Text → ℕ → ℕ → Text → FunctionState → Option (FunctionState × List Report)
unfolding start_function starts_function
function_line lines verbose_level linenum line s =
    if starts_function line
    then start_function lines linenum line s
    else if matches function_end line
    then some (end s, check s verbose_level linenum)
    else if matches blank_line line
    then some (s, [])
    else some (count_line s, [])

-- CheckForFunctionLengths on `clean_lines.lines`; `none` is an error that it raises.
unfoldable pub check_for_function_lengths :
    List Text → ℕ → ℕ → FunctionState → Option (FunctionState × List Report)
unfolding function_line
check_for_function_lengths lines verbose_level linenum s = elim (get_elem? lines linenum) [
  | none ↦ none
  | some line ↦ function_line lines verbose_level linenum line s
]
