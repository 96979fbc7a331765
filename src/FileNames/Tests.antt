-- ===== src/FileNames/Tests.antt =====
-- Tests of FileNames.antt on the small os.path, and its theorem at a concrete input.
use c_plus_server.Base.{◌≡◌, refl, some}
use c_plus_server.Text.{Text, codes, text_eq, replace, replace_from, starts_with}
use c_plus_server.FileNames.{
  full_name, unix, below, from_checkout, climb_to, after_climb, repository_name,
  get_header_guard_cpp_variable,
}
use c_plus_server.FileNames.Loops.{svn_root, vcs_root, has_vcs}
use c_plus_server.FileNames.Variable.{IsGuard, get_header_guard_cpp_variable-IsGuard}
use c_plus_server.FileNames.Sample.{
  posix, posix-Shortens, posix-TopIsPlain, no_options, in_src, behind, parent, glue, on_disk,
}

name : repository_name posix no_options (codes "src/my-a.h") ≡ some (codes "src/my-a.h")
unfolding repository_name full_name unix replace replace_from after_climb climb_to from_checkout
    vcs_root has_vcs below on_disk parent behind glue codes text_eq starts_with svn_root
name = refl

get_header_guard_cpp_variable-IsGuard_example :
    (v : Text) × (get_header_guard_cpp_variable posix in_src (codes "src/my-a.h") ≡ some v)
    × IsGuard v
get_header_guard_cpp_variable-IsGuard_example =
    get_header_guard_cpp_variable-IsGuard posix in_src (codes "src/my-a.h") posix-Shortens
      posix-TopIsPlain
