-- ===== src/FileNames/Variable.antt =====
-- What GetHeaderGuardCPPVariable returns.
use c_plus_server.Base.{
  ℕ, ◌-◌, Bool, Bool-cases, Option-cases, subst, true, ◌&&◌, ◌||◌, ◌≡◌, refl, inl, inr, Option,
  some, none, [], ◌∷◌, ◌++◌, ◌==◌, all, arith, leb, if◌then◌else◌,
}
use c_plus_server.Text.{Text, upper}
use c_plus_server.FileNames.{
  PathOptions, full_name, repository_name, is_set, joined, strip_list_prefix, without_prefix,
  fixup_path_from_root, is_alnum, underscored, restored, get_header_guard_cpp_variable,
}
use c_plus_server.FileNames.Loops.{OsPath}
use c_plus_server.FileNames.Search.{
  Shortens, TopIsPlain, repository_name-some, path_split_to_list-some,
}

-- An upper-case letter, a digit or `_`.
abbrev pub guard_char : ℕ → Bool
guard_char c = (leb b'A' c && leb c b'Z') || (leb b'0' c && leb c b'9') || c == b'_'

-- The name of a macro in upper case, with a `_` at its end.
abbrev pub IsGuard : Text → Type 0
IsGuard v = (w : Text) × (v ≡ w ++ b'_' ∷ []) × (all guard_char w ≡ true)

upper-guard_char :
    (c : ℕ)
    → guard_char
        (let d = if is_alnum c then c else b'_' in if leb b'a' d && leb d b'z' then d - 32 else d)
      ≡ true
unfolding is_alnum
upper-guard_char c = ground arith

all-guard_char : (s : Text) → all guard_char (upper (underscored s)) ≡ true
unfolding upper underscored
all-guard_char [] = refl
all-guard_char (c ∷ s) = rw (upper-guard_char c) (all-guard_char s)

suffixed-IsGuard : (s : Text) → IsGuard (upper (underscored s) ++ b'_' ∷ [])
suffixed-IsGuard s = (upper (underscored s), refl, all-guard_char s)

without_prefix-some :
    (os : OsPath) (path prefix : Text)
    → Shortens os
    → (r : Option Text) × (without_prefix os path prefix ≡ some r)
unfolding without_prefix
without_prefix-some os path prefix s =
    let (lst, e) = path_split_to_list-some os path s in
    let (parts, f) = path_split_to_list-some os prefix s in
    (joined os (strip_list_prefix lst parts), rw (without_prefix, e, f))

fixup_path_from_root-some :
    (os : OsPath) (root fullname path : Text)
    → Shortens os
    → (r : Text) × (fixup_path_from_root os root fullname path ≡ some r)
unfolding fixup_path_from_root
fixup_path_from_root-some os root fullname path s = elim (Bool-cases (is_set root)) [
  | inr a ↦ (path, rw (fixup_path_from_root, a))
  | inl a ↦
      let (x, e) = without_prefix-some os path root s in
      let (y, f) = without_prefix-some os fullname (os.abspath root) s in
      rw (fixup_path_from_root, a, e) (choose x y f)
]
  where
    choose :
        (x y : Option Text)
        → without_prefix os fullname (os.abspath root) ≡ some y
        → (r : Text) × (◌≡◌ {A = Option Text}
            (elim x [
              | some p ↦ some p
              | none ↦ elim (without_prefix os fullname (os.abspath root)) [
                | none ↦ none
                | some (some p) ↦ some p
                | some none ↦ some path
              ]
            ])
            (some r))
    choose (some p) y f = (p, refl)
    choose none (some p) f = (p, rw f)
    choose none none f = (path, rw f)

-- If os.path shortens paths and no directory without a parent is the top of an SVN checkout,
-- GetHeaderGuardCPPVariable returns on every file name, and what it returns consists of upper-case
-- letters, digits and `_` and ends with `_`.
pub get_header_guard_cpp_variable-IsGuard :
    (os : OsPath) (options : PathOptions) (filename : Text)
    → Shortens os
    → TopIsPlain os
    → (v : Text) × (get_header_guard_cpp_variable os options filename ≡ some v) × IsGuard v
unfolding get_header_guard_cpp_variable
get_header_guard_cpp_variable-IsGuard os options filename s t =
    let original = restored filename in
    let (path, e) = repository_name-some os options original s t in
    let (r, f) = fixup_path_from_root-some os options.root (full_name os original) path s in
    (
      upper (underscored r) ++ b'_' ∷ [],
      rw (get_header_guard_cpp_variable, e, f),
      suffixed-IsGuard r,
    )

-- What is returned has that form.
pub get_header_guard_cpp_variable-form :
    (os : OsPath) (options : PathOptions) (filename v : Text)
    → get_header_guard_cpp_variable os options filename ≡ some v
    → IsGuard v
unfolding get_header_guard_cpp_variable
get_header_guard_cpp_variable-form os options filename v h =
    elim (Option-cases (repository_name os options (restored filename))) [
      | inl e ↦ absurd (let x = rw (get_header_guard_cpp_variable, e) at h in cc x)
      | inr (path, e) ↦
          elim (Option-cases
            (fixup_path_from_root os options.root (full_name os (restored filename)) path)) [
              | inl f ↦ absurd (let x = rw (get_header_guard_cpp_variable, e, f) at h in cc x)
              | inr (r, f) ↦
                  let same : upper (underscored r) ++ b'_' ∷ [] ≡ v =
                    (let x = rw (get_header_guard_cpp_variable, e, f) at h in cc x) in
                  subst IsGuard same (suffixed-IsGuard r)
            ]
    ]
