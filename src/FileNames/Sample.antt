-- ===== src/FileNames/Sample.antt =====
-- A small os.path with one file in one git repository, for tests and witnesses.
use mathlib.Core.List.{reverse-reverse}
use c_plus_server.Base.{
  ℕ, suc, ◌<◌, Bool, false, ◌||◌, ◌≡◌, ◌⊎◌, inl, inr, refl, sym, ap, ◌∙◌, some, List, [], ◌∷◌, ◌++◌,
  ◌==◌, arith, length, length-reverse, reverse, if◌then◌else◌, drop,
}
use c_plus_server.Text.{Text, codes, text_eq, replace, replace_from, starts_with, upper}
use c_plus_server.Regex.{substitute, lit, lit_codes, run, group_text, group_of}
use c_plus_server.FileNames.{
  PathOptions, full_name, unix, below, from_checkout, climb_to, after_climb, repository_name,
  restored, strip_list_prefix, joined, without_prefix, fixup_path_from_root, underscored, is_alnum,
  get_header_guard_cpp_variable,
}
use c_plus_server.FileNames.Loops.{
  OsPath, svn_root, vcs_root, has_vcs, path_split_from, path_split_to_list,
}
use c_plus_server.FileNames.Search.{Shortens, TopIsPlain}

-- What is behind the first slash.
unfoldable pub behind : Text → Text
behind [] = []
behind (c ∷ s) = if c == b'/' then s else behind s

unfoldable pub before_slash : Text → Text
before_slash [] = []
before_slash (c ∷ s) = let rest = before_slash s in if c == b'/' then [] else c ∷ rest

unfoldable pub parent : Text → Text
unfolding behind
parent p = reverse (behind (reverse p))

unfoldable pub last_part : Text → Text
unfolding before_slash
last_part p = reverse (before_slash (reverse p))

unfoldable pub glue : List Text → Text
glue [] = []
glue (p ∷ []) = p
glue (p ∷ q ∷ ps) = p ++ b'/' ∷ glue (q ∷ ps)

-- One file in one git repository.
unfoldable pub on_disk : Text → Bool
unfolding text_eq codes
on_disk p = text_eq p (codes "/w/src/my-a.h") || text_eq p (codes "/w/.git")

abbrev pub posix : OsPath
posix = record {
  exists = on_disk;
  abspath = λ p. codes "/w/" ++ p;
  dirname = parent;
  normcase = λ p. p;
  normpath = λ p. p;
  relpath = λ p q. drop (suc (length q)) p;
  commonprefix = λ p q. p;
  join = glue;
  split = λ p. (parent p, last_part p);
  splitext = λ p. (p, []);
}

behind-lt : (c : ℕ) (s : Text) → length (behind (c ∷ s)) < suc (length s)
unfolding behind
behind-lt c [] = ground arith
behind-lt c (d ∷ s) = ground (arith, behind-lt d s)

behind-shortens : (s : Text) → (s ≡ []) ⊎ (length (behind s) < length s)
behind-shortens [] = inl refl
behind-shortens (c ∷ s) = inr (behind-lt c s)

parent-shortens : (p : Text) → (p ≡ []) ⊎ (length (parent p) < length p)
unfolding parent
parent-shortens p = elim (behind-shortens (reverse p)) [
  | inl e ↦ inl (sym (reverse-reverse p) ∙ ap reverse e)
  | inr h ↦ inr (omega (arith, length-reverse p, length-reverse (behind (reverse p))))
]

parent-nil : parent [] ≡ []
unfolding parent behind
parent-nil = refl

parent-or : (p : Text) → (parent p ≡ p) ⊎ (length (parent p) < length p)
parent-or p = elim (parent-shortens p) [ inl e ↦ inl (rw e parent-nil) | inr h ↦ inr h ]

pub posix-Shortens : Shortens posix
posix-Shortens = record {
  up = parent-or;
  part = λ p. elim (parent-or p) [ inl e ↦ inl e | inr h ↦ inr (inr h) ];
}

no_svn : on_disk (glue ([] ∷ codes ".svn" ∷ [])) ≡ false
unfolding on_disk glue codes text_eq
no_svn = refl

pub posix-TopIsPlain : TopIsPlain posix
posix-TopIsPlain p e = elim (parent-shortens p) [
  | inl q ↦ rw q no_svn
  | inr h ↦ absurd (omega (arith, ap length e))
]

abbrev pub no_options : PathOptions
no_options = record { repository = []; root = [] }

abbrev pub in_src : PathOptions
in_src = record { repository = []; root = codes "src" }

pub guard : get_header_guard_cpp_variable posix in_src (codes "src/my-a.h") ≡ some (codes "MY_A_H_")
unfolding get_header_guard_cpp_variable restored substitute lit lit_codes run group_text group_of
    repository_name full_name unix replace replace_from after_climb climb_to from_checkout vcs_root
    has_vcs below on_disk parent behind glue codes text_eq starts_with svn_root last_part
    before_slash fixup_path_from_root without_prefix path_split_to_list path_split_from
    strip_list_prefix joined upper underscored is_alnum
guard = refl
