-- ===== src/Includes.antt =====
-- my_socket/build_support/cpplint.py, class _IncludeState: the headers included so far, and the
-- section that the last one belongs to.
pub mod Order
pub mod Found
mod Tests
use c_plus_server.Base.{
  ℕ, ◌+◌, ◌-◌, Bool, true, false, ◌&&◌, not, Option, none, some, List, [], ◌∷◌, ◌++◌, leb, ◌==◌,
  if◌then◌else◌,
}
use c_plus_server.Text.{Text, codes, text_eq, text_in, replace, lower, text_gt}
use c_plus_server.Regex.{Regex, bol, ◌⊙◌, star, space, lit, word_boundary, matches}

pub data HeaderType : Type 0 where
  c_sys_header cpp_sys_header likely_my_header possible_my_header other_header : HeaderType

-- _INITIAL_SECTION and so on
pub data Section : Type 0 where
  initial my_h c_sys cpp_sys other_h : Section

-- The number by which the source compares sections.
abbrev pub rank : Section → ℕ
rank initial = 0
rank my_h = 1
rank c_sys = 2
rank cpp_sys = 3
rank other_h = 4

unfoldable pub type_name : HeaderType → Text
unfolding codes
type_name c_sys_header = codes "C system header"
type_name cpp_sys_header = codes "C++ system header"
type_name likely_my_header = codes "header this file implements"
type_name possible_my_header = codes "header this file may implement"
type_name other_header = codes "other header"

unfoldable pub section_name : Section → Text
unfolding codes
section_name initial = codes "... nothing. (This can't be an error.)"
section_name my_h = codes "a header this file implements"
section_name c_sys = codes "C system header"
section_name cpp_sys = codes "C++ system header"
section_name other_h = codes "other header"

pub record IncludeState : Type 0 where
  pub include_list : List (List (Text × ℕ))
  pub section : Section
  pub last_header : Text

unfoldable pub find_in : Text → List (Text × ℕ) → Option ℕ
find_in header [] = none
find_in header ((name, linenum) ∷ fs) =
    let rest = find_in header fs in if text_eq name header then some linenum else rest

unfoldable pub find_in_sections : Text → List (List (Text × ℕ)) → Option ℕ
find_in_sections header [] = none
find_in_sections header (fs ∷ sections) =
    let rest = find_in_sections header sections in
    elim (find_in header fs) [ none ↦ rest | some linenum ↦ some linenum ]

-- `none` is the source's -1.
unfoldable pub find_header : IncludeState → Text → Option ℕ
find_header s header = find_in_sections header s.include_list

-- `self.include_list[-1] = f(self.include_list[-1])`; the list is never empty
unfoldable pub on_last :
    (List (Text × ℕ) → List (Text × ℕ)) → List (List (Text × ℕ)) → List (List (Text × ℕ))
on_last f [] = []
on_last f (fs ∷ []) = f fs ∷ []
on_last f (fs ∷ gs ∷ sections) = fs ∷ on_last f (gs ∷ sections)

unfoldable pub opens_branch : Text → Bool
opens_branch directive = text_in directive (codes "if" ∷ codes "ifdef" ∷ codes "ifndef" ∷ [])

unfoldable pub switches_branch : Text → Bool
switches_branch directive = text_in directive (codes "else" ∷ codes "elif" ∷ [])

unfoldable pub reset_section : IncludeState → Text → IncludeState
reset_section s directive = record {
  section = initial;
  last_header = [];
  include_list =
      if opens_branch directive
      then s.include_list ++ [] ∷ []
      else if switches_branch directive
      then on_last (λ _. []) s.include_list
      else s.include_list;
}

-- `_IncludeState()`: the section is reset by ResetSection('')
abbrev pub new_include_state : IncludeState
new_include_state = record { include_list = [] ∷ []; section = initial; last_header = [] }

-- `include_state.include_list[-1].append((include, linenum))`, of CheckIncludeLine
unfoldable pub append_include : IncludeState → Text → ℕ → IncludeState
append_include s include linenum = record s {
  include_list = on_last (λ fs. fs ++ (include, linenum) ∷ []) s.include_list;
}

unfoldable pub set_last_header : IncludeState → Text → IncludeState
set_last_header s header_path = record s { last_header = header_path }

unfoldable pub canonicalize_alphabetical_order : Text → Text
canonicalize_alphabetical_order header_path =
    lower (replace (replace header_path (codes "-inl.h") (codes ".h")) (codes "-") (codes "_"))

-- r'^\s*#\s*include\b'
abbrev include_directive : Regex
include_directive = bol ⊙ star space ⊙ lit "#" ⊙ star space ⊙ lit "include" ⊙ word_boundary

-- `previous_line` is `clean_lines.elided[linenum - 1]`.
unfoldable pub is_in_alphabetical_order : IncludeState → Text → Text → Bool
is_in_alphabetical_order s previous_line header_path =
    not (text_gt s.last_header header_path && matches include_directive previous_line)

unfoldable pub order_message : HeaderType → Section → Text
order_message t section = codes "Found " ++ type_name t ++ codes " after " ++ section_name section

-- The section that a header moves to; `none` if it comes too late.
unfoldable pub next_section : HeaderType → Section → Option Section
next_section c_sys_header s = if leb (rank s) (rank c_sys) then some c_sys else none
next_section cpp_sys_header s = if leb (rank s) (rank cpp_sys) then some cpp_sys else none
next_section likely_my_header s = some (if leb (rank s) (rank my_h) then my_h else other_h)
next_section possible_my_header s = some (if leb (rank s) (rank my_h) then my_h else other_h)
next_section other_header s = some other_h

-- The new state and the message; the empty message says that the order is right.
unfoldable pub check_next_include_order : IncludeState → HeaderType → IncludeState × Text
check_next_include_order s t = elim (next_section t s.section) [
  | none ↦ (record s { last_header = [] }, order_message t s.section)
  | some section ↦ (
    record s {
      section = section;
      last_header = if rank s.section == rank section then s.last_header else [];
    },
    [],
  )
]
