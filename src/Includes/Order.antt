-- ===== src/Includes/Order.antt =====
-- The order that CheckNextIncludeOrder accepts, stated on the headers seen so far.
use c_plus_server.Base.{
  ◌≤◌, Bool, true, false, ◌&&◌, ◌||◌, not, ◌≡◌, ◌≢◌, ◌↔◌, refl, ap, ◌∙◌, Option, none, some, List,
  [], ◌∷◌, if◌then◌else◌, arith, any,
}
use c_plus_server.Includes.{
  HeaderType, c_sys_header, cpp_sys_header, likely_my_header, possible_my_header, other_header,
  Section, initial, my_h, c_sys, cpp_sys, other_h, rank, IncludeState, next_section,
  check_next_include_order, order_message,
}

-- The headers seen since the section was reset, the newest first.
abbrev pub History : Type 0
History = List HeaderType

unfoldable pub check_all : IncludeState → History → IncludeState
check_all s [] = s
check_all s (t ∷ ts) = (check_next_include_order (check_all s ts) t).0

unfoldable pub is_my : HeaderType → Bool
is_my likely_my_header = true
is_my possible_my_header = true
is_my _ = false

unfoldable pub is_cpp : HeaderType → Bool
is_cpp cpp_sys_header = true
is_cpp _ = false

unfoldable pub is_c : HeaderType → Bool
is_c c_sys_header = true
is_c _ = false

unfoldable pub is_other : HeaderType → Bool
is_other other_header = true
is_other _ = false

-- A header of the file's own that does not come before all the others counts as an other header.
unfoldable pub other_seen : History → Bool
unfolding is_other is_my
other_seen [] = false
other_seen (t ∷ ts) = is_other t || (is_my t && any (λ u. not (is_my u)) ts) || other_seen ts

-- The section that a history leads to, by what occurs in it.
unfoldable pub section_of : History → Section
unfolding is_cpp is_c is_my other_seen
section_of ts =
    if other_seen ts
    then other_h
    else if any is_cpp ts
    then cpp_sys
    else if any is_c ts
    then c_sys
    else if any is_my ts
    then my_h
    else initial

other_seen-foreign : (ts : History) → other_seen ts ≡ true → any (λ u. not (is_my u)) ts ≡ true
unfolding other_seen is_my is_other
other_seen-foreign [] h = cc
other_seen-foreign (c_sys_header ∷ ts) h = refl
other_seen-foreign (cpp_sys_header ∷ ts) h = refl
other_seen-foreign (other_header ∷ ts) h = refl
other_seen-foreign (t ∷ ts) h = ground (arith, other_seen-foreign ts)

foreign-cases :
    (ts : History)
    → any (λ u. not (is_my u)) ts ≡ true
    → (other_seen ts || any is_cpp ts || any is_c ts) ≡ true
unfolding other_seen is_my is_other is_cpp is_c
foreign-cases [] h = cc
foreign-cases (c_sys_header ∷ ts) h = ground arith
foreign-cases (t ∷ ts) h = ground (arith, foreign-cases ts)

is_cpp-foreign : (ts : History) → any is_cpp ts ≡ true → any (λ u. not (is_my u)) ts ≡ true
unfolding is_my is_cpp
is_cpp-foreign [] h = cc
is_cpp-foreign (cpp_sys_header ∷ ts) h = refl
is_cpp-foreign (t ∷ ts) h = ground (arith, is_cpp-foreign ts)

is_c-foreign : (ts : History) → any is_c ts ≡ true → any (λ u. not (is_my u)) ts ≡ true
unfolding is_my is_c
is_c-foreign [] h = cc
is_c-foreign (c_sys_header ∷ ts) h = refl
is_c-foreign (t ∷ ts) h = ground (arith, is_c-foreign ts)

abbrev or_stay : Option Section → Section → Section
or_stay none s = s
or_stay (some s') s = s'

-- A header moves the section of a history to that of the longer history, if it moves it at all.
next_section-section_of :
    (t : HeaderType) (ts : History)
    → or_stay (next_section t (section_of ts)) (section_of ts) ≡ section_of (t ∷ ts)
unfolding section_of next_section
next_section-section_of c_sys_header ts = ground arith
next_section-section_of t ts =
    ground (arith, other_seen-foreign ts, foreign-cases ts, is_cpp-foreign ts, is_c-foreign ts)

-- The header comes behind one that belongs after it.
unfoldable pub late : HeaderType → History → Bool
late c_sys_header ts = any is_cpp ts || other_seen ts
late cpp_sys_header ts = other_seen ts
late _ ts = false

next_section-late :
    (t : HeaderType) (ts : History) → (late t ts ≡ true) ↔ (next_section t (section_of ts) ≡ none)
unfolding section_of next_section late
next_section-late c_sys_header ts = (λ h. ground arith, λ h. ground arith)
next_section-late t ts = (λ h. ground arith, λ h. ground arith)

check_next-section :
    (s : IncludeState) (t : HeaderType)
    → (check_next_include_order s t).0.section ≡ or_stay (next_section t s.section) s.section
unfolding check_next_include_order
check_next-section s t = ground arith

-- The section depends on the headers seen by what occurs among them.
pub check_all-section_of :
    (s : IncludeState) (ts : History)
    → s.section ≡ initial
    → (check_all s ts).section ≡ section_of ts
unfolding check_all section_of
check_all-section_of s [] e = e
check_all-section_of s (t ∷ ts) e =
    check_next-section (check_all s ts) t
    ∙ ap (λ v. or_stay (next_section t v) v) (check_all-section_of s ts e)
    ∙ next_section-section_of t ts

-- CheckNextIncludeOrder, after any headers since the section was reset, complains exactly of a C
-- system header behind a C++ system header or an other header, and of a C++ system header behind
-- an other header, with the message that names the section reached. Here a header of the file's
-- own counts as an other header unless all headers before it since the reset are also the file's
-- own.
pub check_next_include_order-late :
    (s : IncludeState) (ts : History) (t : HeaderType)
    → s.section ≡ initial
    → (check_next_include_order (check_all s ts) t).1
      ≡ (if late t ts then order_message t (section_of ts) else [])
unfolding check_next_include_order
check_next_include_order-late s ts t e =
    rw (check_all-section_of s ts e) (ground (arith, next_section-late t ts))

-- A header never moves the section back, and where it moves it, or comes too late, the alphabetical
-- order starts again.
pub check_next_include_order_mono :
    (s : IncludeState) (t : HeaderType)
    → (rank s.section ≤ rank (check_next_include_order s t).0.section)
      × ((check_next_include_order s t).0.section ≢ s.section
          → (check_next_include_order s t).0.last_header ≡ [])
      × ((check_next_include_order s t).1 ≢ [] → (check_next_include_order s t).0.last_header ≡ [])
unfolding check_next_include_order next_section
check_next_include_order_mono s c_sys_header = ground arith
check_next_include_order_mono s t = ground arith
