-- ===== src/Suppressions/Global.antt =====
-- What the directives for a whole file change.
use c_plus_server.Base.{◌&&◌, ◌||◌, ◌≡◌, refl, List, [], ◌∷◌, ◌++◌, if◌then◌else◌, arith, any}
use c_plus_server.Text.{Text, text_in}
use c_plus_server.Suppressions.{
  Suppressions, is_c_file, is_kernel_file, process_line, process_global_suppressions,
  default_c_suppressed_categories, default_kernel_suppressed_categories,
}

text_in-append :
    (t : Text) (ts us : List Text) → text_in t (ts ++ us) ≡ (text_in t ts || text_in t us)
unfolding text_in
text_in-append t [] us = refl
text_in-append t (x ∷ ts) us = ground (arith, text_in-append t ts us)

process_line-global :
    (s : Suppressions) (line category : Text)
    → text_in category (process_line s line).global ≡ (
        text_in category s.global
        || (is_c_file line && text_in category default_c_suppressed_categories)
        || (is_kernel_file line && text_in category default_kernel_suppressed_categories))
unfolding process_line text_in
process_line-global s line category = ground (
  arith,
  text_in-append category s.global (
      (if is_c_file line then default_c_suppressed_categories else [])
      ++ (if is_kernel_file line then default_kernel_suppressed_categories else [])),
)

-- After the lines of a file, a category is off for the whole file if it was before, or if some line
-- marks a C file and the category is off for those, or some line marks a kernel file likewise.
pub process_global_suppressions-global :
    (s : Suppressions) (lines : List Text) (category : Text)
    → text_in category (process_global_suppressions s lines).global ≡ (
        text_in category s.global
        || (any is_c_file lines && text_in category default_c_suppressed_categories)
        || (any is_kernel_file lines && text_in category default_kernel_suppressed_categories))
unfolding process_global_suppressions
process_global_suppressions-global s [] category = ground arith
process_global_suppressions-global s (line ∷ lines) category = ground (
  arith,
  process_global_suppressions-global (process_line s line) lines category,
  process_line-global s line category,
)
