-- ===== src/IncludeLine/Classify.antt =====
-- _DropCommonSuffixes and _ClassifyInclude.
use c_plus_server.Base.{
  ◌-◌, Bool, false, ◌&&◌, ◌||◌, not, Option, none, some, List, [], ◌∷◌, ◌++◌, ◌==◌, ltb,
  if◌then◌else◌, length, take, map, get_or,
}
use c_plus_server.Text.{Text, codes, text_eq, text_in, ends_with}
use c_plus_server.Regex.{match_re, group_of}
use c_plus_server.Extensions.{ExtensionSets, get_header_extensions, get_non_header_extensions}
use c_plus_server.FileNames.{PathOptions, repository_name, unix}
use c_plus_server.FileNames.Loops.{OsPath}
use c_plus_server.Includes.{
  HeaderType, c_sys_header, cpp_sys_header, likely_my_header, possible_my_header, other_header,
}
use c_plus_server.Reporting.{◌>>=◌}
use c_plus_server.IncludeLine.Headers.{cpp_headers, re_first_component}

-- What the checks know of the file and of the options.
pub record Setting : Type 0 where
  pub os : OsPath
  pub options : PathOptions
  pub extensions : ExtensionSets
  pub filename : Text

-- `'%s.%s' % (suffix, ext)` for all pairs
unfoldable pub suffixes : List Text → List Text → List Text
suffixes [] exts = []
suffixes (s ∷ ss) exts = map (λ ext. s ++ b'.' ∷ ext) exts ++ suffixes ss exts

-- The loop over the suffixes.
unfoldable pub without_suffix : Text → List Text → Option Text
without_suffix filename [] = none
without_suffix filename (suffix ∷ ss) =
    let cut = length filename - length suffix - 1 in
    let separator = get_or filename cut 0 in
    let rest = without_suffix filename ss in
    if ends_with filename suffix
      && ltb (length suffix) (length filename)
      && (separator == b'-' || separator == b'_')
    then some (take cut filename)
    else rest

unfoldable pub drop_common_suffixes : Setting → Text → Text
unfolding without_suffix suffixes
drop_common_suffixes st filename =
    elim (without_suffix filename (
      suffixes (codes "test" ∷ codes "regtest" ∷ codes "unittest" ∷ [])
        (get_non_header_extensions st.extensions)
      ++ suffixes (codes "inl" ∷ codes "imp" ∷ codes "internal" ∷ [])
          (get_header_extensions st.extensions))) [
            | some short ↦ short
            | none ↦ (st.os.splitext filename).0
          ]

unfoldable pub first_component : Text → Option Text
unfolding group_of
first_component base = elim (match_re re_first_component base) [
  | none ↦ none
  | some m ↦ group_of 0 m.groups
]

unfoldable pub same_component : Option Text → Option Text → Bool
same_component (some s) (some t) = text_eq s t
same_component _ _ = false

-- For a header that is not a system's, by the name of the file without its suffixes.
unfoldable pub classify_own : Setting → Text → Text → HeaderType
unfolding drop_common_suffixes first_component same_component
classify_own st target include =
    let (target_dir, target_base) = st.os.split target in
    let (include_dir, include_base) = st.os.split (drop_common_suffixes st include) in
    let target_dir_pub = unix (st.os.normpath (target_dir ++ codes "/../public")) in
    if text_eq target_base include_base
      && (text_eq include_dir target_dir || text_eq include_dir target_dir_pub)
    then likely_my_header
    else if same_component (first_component target_base) (first_component include_base)
    then possible_my_header
    else other_header

-- `['.hpp', '.hxx', '.h++']`
unfoldable pub cpp_extension : Text → Bool
cpp_extension ext = text_in ext (codes ".hpp" ∷ codes ".hxx" ∷ codes ".h++" ∷ [])

unfoldable pub classify_include : Setting → Text → Bool → Option HeaderType
unfolding classify_own cpp_extension
classify_include st include is_system =
    if is_system && not (cpp_extension (st.os.splitext include).1)
    then some (if text_in include cpp_headers then cpp_sys_header else c_sys_header)
    else do
      name ← repository_name st.os st.options st.filename
      some (classify_own st (drop_common_suffixes st name) include)
