-- ===== src/MultiLine/Tests.antt =====
-- Tests of MultiLine.antt, and its theorem at a concrete input.
use c_plus_server.Base.{◌≡◌, refl, some, List, [], ◌∷◌}
use c_plus_server.Text.{Text, codes}
use c_plus_server.Report.{Report}
use c_plus_server.MultiLine.{cleared, no_end, remove_multi_line_comments}
use c_plus_server.MultiLine.Clearing.{Cleaned, remove_multi_line_comments-Cleaned}

-- The first comment ends on the second line, the other one never.
abbrev two_comments : List Text
two_comments = codes "/* a" ∷ codes "b */" ∷ codes "c" ∷ codes " /* d" ∷ []

removed :
    remove_multi_line_comments two_comments
    ≡ some (cleared ∷ cleared ∷ codes "c" ∷ codes " /* d" ∷ [], no_end 4 ∷ [])
unfolding remove_multi_line_comments c_plus_server.MultiLine.find_next_multi_line_comment_start
    c_plus_server.Text.starts_with codes c_plus_server.Text.strip c_plus_server.MultiLine.is_none
    c_plus_server.Text.find c_plus_server.MultiLine.find_next_multi_line_comment_end
    c_plus_server.Text.ends_with c_plus_server.MultiLine.remove_multi_line_comments_from_range
    c_plus_server.MultiLine.clear_line
removed = refl

remove_multi_line_comments-Cleaned_example :
    (out : List Text) × (errors : List Report) × (remove_multi_line_comments two_comments
      ≡ some (out, errors))
    × Cleaned two_comments out errors
remove_multi_line_comments-Cleaned_example = remove_multi_line_comments-Cleaned two_comments
