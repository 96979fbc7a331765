-- ===== src/Includes/Tests.antt =====
-- Tests of Includes.antt, and its theorems at concrete inputs.
use c_plus_server.Base.{◌≡◌, ◌≢◌, ◌≤◌, refl, [], ◌∷◌, some, true, if◌then◌else◌}
use c_plus_server.Text.{Text, codes}
use c_plus_server.Includes.{
  IncludeState, new_include_state, c_sys_header, cpp_sys_header, likely_my_header, other_header,
  Section, c_sys, cpp_sys, other_h, find_header, append_include, reset_section,
  check_next_include_order, order_message, canonicalize_alphabetical_order, rank, next_section,
  opens_branch, switches_branch,
}
use c_plus_server.Includes.Order.{
  check_all, late, section_of, check_next_include_order-late, check_all-section_of,
  check_next_include_order_mono,
}
use c_plus_server.Includes.Found.{append_all, find_header-append_include, find_header-switch}

abbrev vector_seen : IncludeState
vector_seen = record {
  include_list = ((codes "vector", 3) ∷ []) ∷ [];
  section = cpp_sys;
  last_header = codes "vector";
}

canonical : canonicalize_alphabetical_order (codes "Foo-bar-inl.h") ≡ codes "foo_bar.h"
unfolding canonicalize_alphabetical_order codes c_plus_server.Text.lower c_plus_server.Text.replace
canonical = refl

late_c :
    (check_next_include_order vector_seen c_sys_header).1
    ≡ codes "Found C system header after C++ system header"
unfolding check_next_include_order next_section order_message codes c_plus_server.Includes.type_name
    c_plus_server.Includes.section_name
late_c = refl

check_next_include_order-late_example :
    (check_next_include_order
      (check_all new_include_state (cpp_sys_header ∷ likely_my_header ∷ []))
      c_sys_header).1
    ≡ (if late c_sys_header (cpp_sys_header ∷ likely_my_header ∷ [])
        then order_message c_sys_header (section_of (cpp_sys_header ∷ likely_my_header ∷ []))
        else [])
check_next_include_order-late_example =
    check_next_include_order-late new_include_state (cpp_sys_header ∷ likely_my_header ∷ [])
      c_sys_header refl

late_c_after_cpp : late c_sys_header (cpp_sys_header ∷ likely_my_header ∷ []) ≡ true
unfolding late c_plus_server.Includes.Order.is_cpp
late_c_after_cpp = refl

find_header-append_include_example :
    find_header (append_include vector_seen (codes "map") 5) (codes "map") ≡ some 5
unfolding find_header codes c_plus_server.Includes.find_in_sections c_plus_server.Includes.find_in
    c_plus_server.Text.text_eq
find_header-append_include_example =
    find_header-append_include vector_seen (codes "map") 5 (codes "map") (λ e. cc)

find_header-switch_example :
    find_header
      (reset_section
        (append_all (reset_section vector_seen (codes "ifdef")) ((codes "map", 5) ∷ []))
        (codes "else"))
      (codes "map")
    ≡ find_header vector_seen (codes "map")
unfolding opens_branch switches_branch codes c_plus_server.Text.text_in
find_header-switch_example =
    find_header-switch vector_seen (codes "ifdef") (codes "else") ((codes "map", 5) ∷ [])
      (codes "map") refl refl

abbrev after_c_sys : IncludeState
after_c_sys = record new_include_state { section = c_sys; last_header = codes "stdio.h" }

check_next_include_order_mono_example :
    (rank c_sys ≤ rank (check_next_include_order after_c_sys cpp_sys_header).0.section)
    × ((check_next_include_order after_c_sys cpp_sys_header).0.section ≢ c_sys
        → (check_next_include_order after_c_sys cpp_sys_header).0.last_header ≡ [])
    × ((check_next_include_order after_c_sys cpp_sys_header).1 ≢ []
        → (check_next_include_order after_c_sys cpp_sys_header).0.last_header ≡ [])
check_next_include_order_mono_example = check_next_include_order_mono after_c_sys cpp_sys_header
