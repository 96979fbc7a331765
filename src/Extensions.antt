-- ===== src/Extensions.antt =====
-- my_socket/build_support/cpplint.py, the extensions of file names: the options --headers and
-- --extensions, and the sets of extensions that follow from them. A set is a list without an order.
pub mod Sets
mod Tests
use c_plus_server.Base.{Bool, List, [], ◌∷◌, ◌++◌, ◌==◌, map, any, not, if◌then◌else◌, true, false}
use c_plus_server.Text.{Text, codes, strip, split, text_in}

-- `_hpp_headers` and `_valid_extensions`
pub record ExtensionSets : Type 0 where
  pub hpp_headers : List Text
  pub valid_extensions : List Text

-- `{x for x in xs if p(x)}`
unfoldable pub select : (Text → Bool) → List Text → List Text
select p [] = []
select p (x ∷ xs) = let rest = select p xs in if p x then x ∷ rest else rest

-- `a.union(b)`
abbrev pub union : List Text → List Text → List Text
union a b = a ++ b

-- `a.difference(b)`
unfoldable pub difference : List Text → List Text → List Text
unfolding select
difference a b = select (λ x. not (text_in x b)) a

-- `a or b`
unfoldable pub or_default : List Text → List Text → List Text
or_default [] b = b
or_default (x ∷ a) b = x ∷ a

-- `[ext.strip() for ext in val.split(',')]`
unfoldable pub listed : Text → List Text
unfolding split strip
listed val = map strip (split b',' val)

unfoldable pub process_hpp_headers_option : ExtensionSets → Text → ExtensionSets
unfolding listed
process_hpp_headers_option st val = record st { hpp_headers = listed val }

unfoldable pub process_extensions_option : ExtensionSets → Text → ExtensionSets
unfolding listed
process_extensions_option st val = record st { valid_extensions = listed val }

-- `'h' in ext`
abbrev pub has_h : Text → Bool
has_h ext = any (λ c. c == b'h') ext

unfoldable pub default_headers : List Text
unfolding codes
default_headers =
    codes "h" ∷ codes "hh" ∷ codes "hpp" ∷ codes "hxx" ∷ codes "h++" ∷ codes "cuh" ∷ []

unfoldable pub default_sources : List Text
unfolding codes
default_sources = codes "c" ∷ codes "cc" ∷ codes "cpp" ∷ codes "cxx" ∷ codes "c++" ∷ codes "cu" ∷ []

-- From `if _valid_extensions` on.
unfoldable pub headers_of : List Text → List Text
unfolding select default_headers
headers_of [] = default_headers
headers_of (x ∷ valid) = select has_h (x ∷ valid)

unfoldable pub get_header_extensions : ExtensionSets → List Text
unfolding or_default headers_of
get_header_extensions st = or_default st.hpp_headers (headers_of st.valid_extensions)

unfoldable pub is_header_extension : ExtensionSets → Text → Bool
unfolding get_header_extensions
is_header_extension st file_extension = text_in file_extension (get_header_extensions st)

unfoldable pub get_all_extensions : ExtensionSets → List Text
unfolding get_header_extensions or_default default_sources
get_all_extensions st =
    union (get_header_extensions st) (or_default st.valid_extensions default_sources)

unfoldable pub get_non_header_extensions : ExtensionSets → List Text
unfolding get_all_extensions get_header_extensions difference
get_non_header_extensions st = difference (get_all_extensions st) (get_header_extensions st)
