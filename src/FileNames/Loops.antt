-- ===== src/FileNames/Loops.antt =====
-- The module os.path as a parameter, and the loops of FileInfo.RepositoryName and PathSplitToList.
use c_plus_server.Base.{
  ℕ, zero, suc, Bool, ◌||◌, Option, none, some, List, [], ◌∷◌, if◌then◌else◌, length,
}
use c_plus_server.Text.{Text, codes, text_eq}

-- os.path, with the file system that `exists` asks.
pub record OsPath : Type 0 where
  pub exists : Text → Bool
  pub abspath : Text → Text
  pub dirname : Text → Text
  pub normcase : Text → Text
  pub normpath : Text → Text
  pub relpath : Text → Text → Text
  pub commonprefix : Text → Text → Text
  pub join : List Text → Text
  pub split : Text → Text × Text
  pub splitext : Text → Text × Text

-- What the search for the directory of --repository comes to.
pub data Climb : Type 0 where
  found_at : Text → Climb
  nowhere endless : Climb

unfoldable pub climb : OsPath → ℕ → Text → Text → Climb
unfolding text_eq
climb os zero repo root_dir = endless
climb os (suc f) repo root_dir =
    let up = climb os f repo (os.dirname root_dir) in
    if os.exists root_dir
    then if text_eq (os.normcase root_dir) (os.normcase repo)
      then found_at root_dir
      else if text_eq (os.dirname root_dir) root_dir
      then nowhere
      else up
    else nowhere

-- Up to the top of the SVN checkout.
unfoldable pub svn_root : OsPath → ℕ → Text → Text → Option Text
unfolding codes
svn_root os zero root_dir one_up_dir = none
svn_root os (suc f) root_dir one_up_dir =
    let up = svn_root os f (os.dirname root_dir) (os.dirname one_up_dir) in
    if os.exists (os.join (one_up_dir ∷ codes ".svn" ∷ [])) then up else some root_dir

unfoldable pub has_vcs : OsPath → Text → Bool
unfolding codes
has_vcs os dir =
    os.exists (os.join (dir ∷ codes ".git" ∷ []))
    || os.exists (os.join (dir ∷ codes ".hg" ∷ []))
    || os.exists (os.join (dir ∷ codes ".svn" ∷ []))

-- The last directory on the way up that is a checkout's, or else `root_dir`.
unfoldable pub vcs_root : OsPath → ℕ → Text → Text → Option Text
unfolding has_vcs text_eq
vcs_root os zero root_dir current_dir = none
vcs_root os (suc f) root_dir current_dir =
    let up =
      vcs_root os f (if has_vcs os current_dir then current_dir else root_dir)
        (os.dirname current_dir) in
    if text_eq current_dir (os.dirname current_dir) then some root_dir else up

-- The loop of PathSplitToList; `lst` has its last element at the head.
unfoldable pub path_split_from : OsPath → ℕ → Text → List Text → Option (List Text)
unfolding text_eq
path_split_from os zero path lst = none
path_split_from os (suc f) path lst =
    let (head, tail) = os.split path in
    let more = path_split_from os f head (tail ∷ lst) in
    if text_eq head path
    then some (head ∷ lst)
    else if text_eq tail path
    then some (tail ∷ lst)
    else more

unfoldable pub path_split_to_list : OsPath → Text → Option (List Text)
unfolding path_split_from
path_split_to_list os path = path_split_from os (suc (length path)) path []
