-- ===== src/LineChecks/Tests.antt =====
-- Tests of LineChecks.antt.
use c_plus_server.Base.{some, ◌≡◌, refl, List, [], ◌∷◌}
use c_plus_server.Text.{Text, codes}
use c_plus_server.LineChecks.{line_report, check_posix_threading, check_redundant_override_or_final}
use c_plus_server.LineChecks.Features.{flag_cxx11_features, check_printf}
use c_plus_server.LineChecks.Constructs.{check_for_non_standard_constructs}
use c_plus_server.LineChecks.Virtual.{check_redundant_virtual}

called :
    check_posix_threading (codes "x = rand();" ∷ []) 0
    ≡ line_report 0
        (codes "runtime/threadsafe_fn")
        2
        (codes "Consider using rand_r(...) instead of rand(...) for improved thread safety.")
      ∷ []
unfolding check_posix_threading codes c_plus_server.Regex.search_re c_plus_server.Regex.lit
    c_plus_server.Regex.space
called = refl

both :
    check_redundant_override_or_final (codes "void f(int a) override final {" ∷ []) 0
    ≡ line_report 0
        (codes "readability/inheritance")
        4
        (codes "\"override\" is redundant since function is already declared as \"final\"")
      ∷ []
unfolding check_redundant_override_or_final codes c_plus_server.Regex.search_re
    c_plus_server.Regex.lit
both = refl

abbrev declared : List Text
declared = codes "  virtual void f(int a," ∷ codes "    int b) override;" ∷ []

redundant :
    check_redundant_virtual declared 0
    ≡ some (
        line_report 0
          (codes "readability/inheritance")
          4
          (codes "\"virtual\" is redundant since function is already declared as \"override\"")
        ∷ [])
unfolding check_redundant_virtual codes c_plus_server.Regex.search_re c_plus_server.Regex.lit
    c_plus_server.Regex.space c_plus_server.Regex.match_re c_plus_server.Regex.dot
    c_plus_server.Regex.group_text c_plus_server.Expression.close_expression
    c_plus_server.Expression.line_and_rest c_plus_server.Expression.close_from
    c_plus_server.Expression.opens_at c_plus_server.Expression.find_end_of_expression_in_line
    c_plus_server.Expression.step_forward c_plus_server.Expression.is_close
    c_plus_server.Expression.close_on c_plus_server.Expression.pop_bracket
    c_plus_server.Expression.drop_angles
redundant = refl

tr1 :
    flag_cxx11_features (codes "#include <tr1/a>" ∷ []) 0
    ≡ line_report 0
        (codes "build/c++tr1")
        5
        (codes "C++ TR1 headers such as <tr1/a> are unapproved.")
      ∷ []
unfolding flag_cxx11_features codes c_plus_server.Regex.match_re c_plus_server.Regex.space
    c_plus_server.Regex.lit c_plus_server.Text.starts_with c_plus_server.Regex.group_text
    c_plus_server.Text.text_in
tr1 = refl

size :
    check_printf (codes "snprintf(s, 8, f);" ∷ []) 0
    ≡ line_report 0
        (codes "runtime/printf")
        3
        (codes "If you can, use sizeof(s) instead of 8 as the 2nd arg to snprintf.")
      ∷ []
unfolding check_printf codes c_plus_server.Regex.search_re c_plus_server.Regex.lit
    c_plus_server.Regex.space c_plus_server.Cleanse.Patterns.is_digit c_plus_server.Text.text_eq
    c_plus_server.Regex.group_text
size = refl

old_style :
    check_for_non_standard_constructs (codes "int static a;" ∷ []) (codes "int static a;" ∷ []) 0
    ≡ line_report 0 (codes "build/storage_class") 5 (
        codes
          "Storage-class specifier (static, extern, typedef, etc) should be at the beginning of the declaration.")
      ∷ []
unfolding check_for_non_standard_constructs codes c_plus_server.Regex.search_re
    c_plus_server.Regex.lit c_plus_server.Text.replace c_plus_server.LineChecks.Constructs.one_word
    c_plus_server.Regex.space c_plus_server.Regex.match_re c_plus_server.Regex.word
    c_plus_server.Cleanse.Patterns.is_digit
old_style = refl
