-- ===== src/Process/Guard.antt =====
-- CheckForHeaderGuard returns on every file.
use c_plus_server.Base.{◌||◌, not, List, [], any, get_or, Option-cases, inl, inr}
use c_plus_server.Text.{Text, text_eq}
use c_plus_server.Regex.{Cursor, searches, match_re, group_of}
use c_plus_server.Reporting.{Sink}
use c_plus_server.FileNames.{PathOptions, is_set}
use c_plus_server.FileNames.Loops.{OsPath}
use c_plus_server.FileNames.Search.{Shortens, TopIsPlain}
use c_plus_server.FileNames.Variable.{get_header_guard_cpp_variable-IsGuard}
use c_plus_server.HeaderGuard.{
  Guard, no_guard, scan_guards, nolint_guard, pragma_once, endif_comment, endif_c_comment,
  no_single_line_comments, endif_matched, endif_wrong, check_endif, check_style, check_guard,
  check_for_header_guard,
}
use c_plus_server.Process.Steps.{Signed}
use c_plus_server.Process.Safe.{Safe, some-Safe, report-Safe, parse_nolint-Safe, bind-Safe, if-Safe}

endif_matched-Safe :
    (cppvar : Text) (g : Guard) (opening closing : Text) (m : Cursor) (s : Sink)
    → Signed s
    → Safe (endif_matched cppvar g opening closing m s)
unfolding endif_matched
endif_matched-Safe cppvar g opening closing m s h = elim (Option-cases (group_of 1 m.groups)) [
  | inl e ↦ rw (endif_matched, e) (some-Safe s h)
  | inr (u, e) ↦ rw (endif_matched, e) (report-Safe _ s h)
]

endif_wrong-Safe : (cppvar : Text) (g : Guard) (s : Sink) → Signed s → Safe (endif_wrong cppvar g s)
unfolding endif_wrong
endif_wrong-Safe cppvar g s h = report-Safe _ s h

check_endif-Safe :
    (cppvar : Text) (g : Guard) (raw_lines : List Text) (s : Sink)
    → Signed s
    → Safe (check_endif cppvar g raw_lines s)
unfolding check_endif
check_endif-Safe cppvar g raw_lines s h =
    elim (Option-cases (match_re (endif_comment cppvar) g.endif)) [
      | inr (m, e) ↦ rw (check_endif, e) (endif_matched-Safe cppvar g _ _ m s h)
      | inl e ↦ elim (Option-cases (match_re (endif_c_comment cppvar) g.endif)) [
        | inr (m, f) ↦
            rw (check_endif, e, f)
              (if-Safe (no_single_line_comments raw_lines) _ _
                (endif_matched-Safe cppvar g _ _ m s h) (endif_wrong-Safe cppvar g s h))
        | inl f ↦
            rw (check_endif, e, f)
              (if-Safe (no_single_line_comments raw_lines) _ _ (endif_wrong-Safe cppvar g s h)
                (endif_wrong-Safe cppvar g s h))
      ]
    ]

check_style-Safe :
    (cppvar : Text) (g : Guard) (raw_lines : List Text) (s : Sink)
    → Signed s
    → Safe (check_style cppvar g raw_lines s)
unfolding check_style
check_style-Safe cppvar g raw_lines s h = if-Safe (text_eq g.ifndef cppvar) _ _ (some-Safe s h) (
    bind-Safe _ _ (parse_nolint-Safe (get_or raw_lines g.ifndef_linenum []) g.ifndef_linenum s h)
      (λ t k. report-Safe _ t k))

check_guard-Safe :
    (cppvar : Text) (g : Guard) (raw_lines : List Text) (s : Sink)
    → Signed s
    → Safe (check_guard cppvar g raw_lines s)
unfolding check_guard
check_guard-Safe cppvar g raw_lines s h =
    if-Safe (not (is_set g.ifndef) || not (is_set g.define) || not (text_eq g.ifndef g.define)) _ _
      (report-Safe _ s h)
      (bind-Safe _ _ (check_style-Safe cppvar g raw_lines s h) (λ t k.
        bind-Safe _ _ (parse_nolint-Safe (get_or raw_lines g.endif_linenum []) g.endif_linenum t k)
          (check_endif-Safe cppvar g raw_lines)))

-- Whatever the lines are, CheckForHeaderGuard returns and raises no error.
pub check_for_header_guard-Safe :
    (os : OsPath) (options : PathOptions) (filename : Text) (raw_lines : List Text) (s : Sink)
    → Shortens os
    → TopIsPlain os
    → Signed s
    → Safe (check_for_header_guard os options filename raw_lines s)
unfolding check_for_header_guard
check_for_header_guard-Safe os options filename raw_lines s short top h =
    let (v, e, g) = get_header_guard_cpp_variable-IsGuard os options filename short top in
    if-Safe (any (searches nolint_guard) raw_lines) _ _ (some-Safe s h) (
      if-Safe (any (searches pragma_once) raw_lines) _ _ (some-Safe s h)
        (rw e (check_guard-Safe v (scan_guards 0 raw_lines no_guard) raw_lines s h)))
