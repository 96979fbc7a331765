-- ===== src/FileNames/Search.antt =====
-- The searches of FileInfo.RepositoryName and the loop of PathSplitToList come to an end.
use c_plus_server.Base.{
  ℕ, zero, suc, ◌≤◌, ◌<◌, Bool-cases, false, ◌≡◌, ◌≢◌, ◌⊎◌, inl, inr, refl, sym, some, List, [],
  ◌∷◌, arith, length, if◌then◌else◌,
}
use c_plus_server.Text.{Text, codes, text_eq, text_eq_iff}
use c_plus_server.FileNames.{
  PathOptions, full_name, below, from_checkout, climb_to, repository_name, is_set, unix,
  after_climb,
}
use c_plus_server.FileNames.Loops.{
  OsPath, Climb, found_at, nowhere, endless, climb, svn_root, vcs_root, has_vcs, path_split_from,
  path_split_to_list,
}

-- What os.path promises: the directory of a path is shorter, unless the path has none; the first
-- part of a split is shorter, unless one of the two parts is the whole path.
pub record Shortens (os : OsPath) : Type 0 where
  pub up : (p : Text) → (os.dirname p ≡ p) ⊎ (length (os.dirname p) < length p)
  pub part :
      (p : Text) → ((os.split p).0 ≡ p) ⊎ ((os.split p).1 ≡ p) ⊎ (length (os.split p).0 < length p)

-- No directory without a parent is the top of an SVN checkout.
abbrev pub TopIsPlain : OsPath → Type 0
TopIsPlain os = (p : Text) → os.dirname p ≡ p → os.exists (os.join (p ∷ codes ".svn" ∷ [])) ≡ false

text_eq-false : (s t : Text) → text_eq s t ≡ false → s ≢ t
text_eq-false s t h e = let k = (text_eq_iff s t).1 e in cc

shorter :
    (os : OsPath) (p : Text) → Shortens os → os.dirname p ≢ p → length (os.dirname p) < length p
shorter os p s n = elim (s.up p) [ inl e ↦ absurd (n e) | inr h ↦ h ]

length-dirname : (os : OsPath) (p : Text) → Shortens os → length (os.dirname p) ≤ length p
length-dirname os p s = elim (s.up p) [ inl e ↦ rw e (omega arith) | inr h ↦ omega arith ]

climb-ne-endless :
    (os : OsPath) (f : ℕ) (repo dir : Text)
    → Shortens os
    → length dir < f
    → climb os f repo dir ≢ endless
unfolding climb
climb-ne-endless os zero repo dir s h = absurd (omega arith)
climb-ne-endless os (suc f) repo dir s h = elim (Bool-cases (os.exists dir)) [
  | inr a ↦ rw (climb, a) (λ e. cc)
  | inl a ↦ elim (Bool-cases (text_eq (os.normcase dir) (os.normcase repo))) [
    | inl b ↦ rw (climb, a, b) (λ e. cc)
    | inr b ↦ elim (Bool-cases (text_eq (os.dirname dir) dir)) [
      | inl c ↦ rw (climb, a, b, c) (λ e. cc)
      | inr c ↦
          let l = shorter os dir s (text_eq-false (os.dirname dir) dir c) in
          rw (climb, a, b, c) (climb-ne-endless os f repo (os.dirname dir) s (omega arith))
    ]
  ]
]

svn_root-some :
    (os : OsPath) (f : ℕ) (dir up : Text)
    → Shortens os
    → TopIsPlain os
    → length up < f
    → (r : Text) × (svn_root os f dir up ≡ some r)
unfolding svn_root
svn_root-some os zero dir up s t h = absurd (omega arith)
svn_root-some os (suc f) dir up s t h =
    elim (Bool-cases (os.exists (os.join (up ∷ codes ".svn" ∷ [])))) [
      | inr a ↦ (dir, rw (svn_root, a))
      | inl a ↦
          let l = shorter os up s (λ e. let b = t up e in cc) in
          let (r, e) = svn_root-some os f (os.dirname dir) (os.dirname up) s t (omega arith) in
          (r, rw (svn_root, a) e)
    ]

vcs_root-some :
    (os : OsPath) (f : ℕ) (dir current : Text)
    → Shortens os
    → length current < f
    → (r : Text) × (vcs_root os f dir current ≡ some r)
unfolding vcs_root
vcs_root-some os zero dir current s h = absurd (omega arith)
vcs_root-some os (suc f) dir current s h =
    elim (Bool-cases (text_eq current (os.dirname current))) [
      | inl a ↦ (dir, rw (vcs_root, a))
      | inr a ↦
          let l =
            shorter os current s (λ e. text_eq-false current (os.dirname current) a (sym e)) in
          let (r, e) =
            vcs_root-some os f (if has_vcs os current then current else dir) (os.dirname current) s
              (omega arith) in
          (r, rw (vcs_root, a) e)
    ]

from_checkout-some :
    (os : OsPath) (fullname dir : Text)
    → Shortens os
    → TopIsPlain os
    → (r : Text) × (from_checkout os fullname dir ≡ some r)
unfolding from_checkout
from_checkout-some os fullname dir s t =
    elim (Bool-cases (os.exists (os.join (dir ∷ codes ".svn" ∷ [])))) [
      | inl a ↦
          let l = length-dirname os dir s in
          let (r, e) = svn_root-some os (suc (length dir)) dir (os.dirname dir) s t (omega arith) in
          (below os fullname r dir, rw (from_checkout, a, e))
      | inr a ↦
          let (r, e) = vcs_root-some os (suc (length dir)) dir dir s (omega arith) in
          (if has_vcs os r then below os fullname r dir else fullname, rw (from_checkout, a, e))
    ]

climb_to-ne-endless :
    (os : OsPath) (repository dir : Text) → Shortens os → climb_to os repository dir ≢ endless
unfolding climb_to
climb_to-ne-endless os repository dir s = elim (Bool-cases (is_set repository)) [
  | inl a ↦
      rw a (climb-ne-endless os (suc (length dir)) (full_name os repository) dir s (omega arith))
  | inr a ↦ rw a (λ e. cc)
]

after_climb-some :
    (os : OsPath) (fullname dir : Text) (k : Climb)
    → Shortens os
    → TopIsPlain os
    → k ≢ endless
    → (r : Text) × (after_climb os fullname dir k ≡ some r)
unfolding after_climb
after_climb-some os fullname dir (found_at root) s t n = (unix (os.relpath fullname root), refl)
after_climb-some os fullname dir nowhere s t n = from_checkout-some os fullname dir s t
after_climb-some os fullname dir endless s t n = absurd (n refl)

-- RepositoryName returns.
pub repository_name-some :
    (os : OsPath) (options : PathOptions) (filename : Text)
    → Shortens os
    → TopIsPlain os
    → (r : Text) × (repository_name os options filename ≡ some r)
unfolding repository_name
repository_name-some os options filename s t =
    let fullname = full_name os filename in
    let dir = os.dirname fullname in
    elim (Bool-cases (os.exists fullname)) [
      | inr a ↦ (fullname, rw (repository_name, a))
      | inl a ↦
          rw (repository_name, a)
            (after_climb-some os fullname dir (climb_to os options.repository dir) s t
              (climb_to-ne-endless os options.repository dir s))
    ]

path_split_from-some :
    (os : OsPath) (f : ℕ) (path : Text) (lst : List Text)
    → Shortens os
    → length path < f
    → (r : List Text) × (path_split_from os f path lst ≡ some r)
unfolding path_split_from
path_split_from-some os zero path lst s h = absurd (omega arith)
path_split_from-some os (suc f) path lst s h =
    let head = (os.split path).0 in
    let tail = (os.split path).1 in
    elim (Bool-cases (text_eq head path)) [
      | inl a ↦ (head ∷ lst, rw (path_split_from, a))
      | inr a ↦ elim (Bool-cases (text_eq tail path)) [
        | inl b ↦ (tail ∷ lst, rw (path_split_from, a, b))
        | inr b ↦
            let (r, e) = path_split_from-some os f head (tail ∷ lst) s (elim (s.part path) [
              | inl e ↦ absurd (text_eq-false head path a e)
              | inr (inl e) ↦ absurd (text_eq-false tail path b e)
              | inr (inr l) ↦ omega arith
            ]) in
            (r, rw (path_split_from, a, b) e)
      ]
    ]

-- PathSplitToList returns.
pub path_split_to_list-some :
    (os : OsPath) (path : Text)
    → Shortens os
    → (r : List Text) × (path_split_to_list os path ≡ some r)
unfolding path_split_to_list
path_split_to_list-some os path s =
    path_split_from-some os (suc (length path)) path [] s (omega arith)
