-- ===== src/FileNames.antt =====
-- my_socket/build_support/cpplint.py, class FileInfo, PathSplitToList and
-- GetHeaderGuardCPPVariable: the names of files. The module os.path and the file system are
-- parameters; loops on fuel return `none` when it runs out.
pub mod Loops
pub mod Search
pub mod Variable
pub mod Sample
mod Tests
use c_plus_server.Base.{
  ℕ, zero, suc, ◌+◌, Bool, true, false, ◌&&◌, ◌||◌, not, Option, none, some, List, [], ◌∷◌, ◌++◌,
  ◌==◌, leb, if◌then◌else◌, length, drop, map, reverse,
}
use c_plus_server.Text.{Text, codes, text_eq, replace, upper, drop_first}
use c_plus_server.Regex.{Regex, ◌⊙◌, lit, eol, group, star, none_of, substitute, group_text}
use c_plus_server.FileNames.Loops.{
  OsPath, Climb, found_at, nowhere, endless, climb, svn_root, vcs_root, has_vcs, path_split_to_list,
}

-- The options --repository and --root; the empty text is None.
pub record PathOptions : Type 0 where
  pub repository : Text
  pub root : Text

-- `p.replace('\\', '/')`
unfoldable pub unix : Text → Text
unfolding replace
unix p = replace p (b'\\' ∷ []) (b'/' ∷ [])

unfoldable pub full_name : OsPath → Text → Text
full_name os filename = unix (os.abspath filename)

abbrev pub is_set : Text → Bool
is_set [] = false
is_set (c ∷ s) = true

-- `fullname[len(os.path.commonprefix([root_dir, project_dir])) + 1:]`
unfoldable pub below : OsPath → Text → Text → Text → Text
below os fullname root_dir project_dir =
    drop (length (os.commonprefix root_dir project_dir) + 1) fullname

-- From the first search for `.svn` on.
unfoldable pub from_checkout : OsPath → Text → Text → Option Text
from_checkout os fullname project_dir =
    let fuel = suc (length project_dir) in
    if os.exists (os.join (project_dir ∷ codes ".svn" ∷ []))
    then elim (svn_root os fuel project_dir (os.dirname project_dir)) [
      | none ↦ none
      | some root_dir ↦ some (below os fullname root_dir project_dir)
    ]
    else elim (vcs_root os fuel project_dir project_dir) [
      | none ↦ none
      | some root_dir ↦
          some (if has_vcs os root_dir then below os fullname root_dir project_dir else fullname)
    ]

-- The `while` loop of --repository, if that option is given.
unfoldable pub climb_to : OsPath → Text → Text → Climb
climb_to os repository project_dir =
    if is_set repository
    then climb os (suc (length project_dir)) (full_name os repository) project_dir
    else nowhere

-- What follows from the result of that loop.
unfoldable pub after_climb : OsPath → Text → Text → Climb → Option Text
after_climb os fullname project_dir (found_at root_dir) = some (unix (os.relpath fullname root_dir))
after_climb os fullname project_dir endless = none
after_climb os fullname project_dir nowhere = from_checkout os fullname project_dir

unfoldable pub repository_name : OsPath → PathOptions → Text → Option Text
repository_name os options filename =
    let fullname = full_name os filename in
    let project_dir = os.dirname fullname in
    if os.exists fullname
    then after_climb os fullname project_dir (climb_to os options.repository project_dir)
    else some fullname

-- Directory, base name and extension.
unfoldable pub split : OsPath → PathOptions → Text → Option (Text × Text × Text)
split os options filename = elim (repository_name os options filename) [
  | none ↦ none
  | some googlename ↦
      let (project, rest) = os.split googlename in
      let (base, extension) = os.splitext rest in some (project, base, extension)
]

unfoldable pub base_name : OsPath → PathOptions → Text → Option Text
base_name os options filename = elim (split os options filename) [
  | none ↦ none
  | some (project, base, extension) ↦ some base
]

unfoldable pub extension : OsPath → PathOptions → Text → Option Text
extension os options filename = elim (split os options filename) [
  | none ↦ none
  | some (project, base, ext) ↦ some ext
]

unfoldable pub no_extension : OsPath → PathOptions → Text → Option Text
no_extension os options filename = elim (split os options filename) [
  | none ↦ none
  | some (project, base, ext) ↦ some (project ++ b'/' ∷ base)
]

-- r'_flymake\.h$'
abbrev pub flymake_suffix : Regex
flymake_suffix = lit "_flymake.h" ⊙ eol

-- r'/\.flymake/([^/]*)$'
abbrev pub flymake_directory : Regex
flymake_directory = lit "/.flymake/" ⊙ group 1 (star (none_of (b'/' ∷ []))) ⊙ eol

-- The file name before the flymake of Emacs, and with `cpp` for `c++`.
unfoldable pub restored : Text → Text
unfolding substitute group_text replace codes
restored filename =
    let plain = substitute flymake_suffix (λ _. codes ".h") filename in
    let here = substitute flymake_directory (λ gs. b'/' ∷ group_text 1 gs) plain in
    replace (replace here (codes "C++") (codes "cpp")) (codes "c++") (codes "cpp")

-- StripListPrefix
unfoldable pub strip_list_prefix : List Text → List Text → Option (List Text)
unfolding text_eq
strip_list_prefix lst [] = some lst
strip_list_prefix [] (p ∷ prefix) = none
strip_list_prefix (x ∷ lst) (p ∷ prefix) =
    let rest = strip_list_prefix lst prefix in if text_eq x p then rest else none

-- `os.path.join(*maybe_path)`, if there is something to join
unfoldable pub joined : OsPath → Option (List Text) → Option Text
joined os none = none
joined os (some []) = none
joined os (some (x ∷ path)) = some (os.join (x ∷ path))

-- `joined` of the one path without the other, both split; the outer `none` is for the fuel.
unfoldable pub without_prefix : OsPath → Text → Text → Option (Option Text)
without_prefix os path prefix = elim (path_split_to_list os path) [
  | none ↦ none
  | some lst ↦ elim (path_split_to_list os prefix) [
    | none ↦ none
    | some parts ↦ some (joined os (strip_list_prefix lst parts))
  ]
]

unfoldable pub fixup_path_from_root : OsPath → Text → Text → Text → Option Text
fixup_path_from_root os root fullname file_path_from_root =
    if is_set root
    then elim (without_prefix os file_path_from_root root) [
      | none ↦ none
      | some (some path) ↦ some path
      | some none ↦ elim (without_prefix os fullname (os.abspath root)) [
        | none ↦ none
        | some (some path) ↦ some path
        | some none ↦ some file_path_from_root
      ]
    ]
    else some file_path_from_root

-- `[a-zA-Z0-9]`
unfoldable pub is_alnum : ℕ → Bool
is_alnum c = (leb b'a' c && leb c b'z') || (leb b'A' c && leb c b'Z') || (leb b'0' c && leb c b'9')

-- `re.sub(r'[^a-zA-Z0-9]', '_', s)`
unfoldable pub underscored : Text → Text
unfolding is_alnum
underscored s = map (λ c. if is_alnum c then c else b'_') s

unfoldable pub get_header_guard_cpp_variable : OsPath → PathOptions → Text → Option Text
get_header_guard_cpp_variable os options filename =
    let original = restored filename in
    elim (repository_name os options original) [
      | none ↦ none
      | some path ↦ elim (fixup_path_from_root os options.root (full_name os original) path) [
        | none ↦ none
        | some from_root ↦ some (upper (underscored from_root) ++ b'_' ∷ [])
      ]
    ]
