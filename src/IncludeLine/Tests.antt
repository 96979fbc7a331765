-- ===== src/IncludeLine/Tests.antt =====
-- Tests of IncludeLine.antt on the small os.path, and its theorem at a concrete input.
use c_plus_server.Base.{true, ◌≡◌, refl, some, List, [], ◌∷◌, arith}
use c_plus_server.Text.{codes, text_eq, text_in, starts_with, ends_with, decimal}
use c_plus_server.Regex.{match_re, search_re, lit, space, dot, group_text, group_of}
use c_plus_server.Report.{Report}
use c_plus_server.Cleanse.Patterns.{re_pattern_include}
use c_plus_server.Extensions.{
  get_header_extensions, get_non_header_extensions, get_all_extensions, headers_of, default_headers,
  default_sources, or_default, difference, select,
}
use c_plus_server.FileNames.Sample.{posix, posix-Shortens, posix-TopIsPlain, no_options}
use c_plus_server.Includes.{
  IncludeState, new_include_state, find_header, find_in_sections, find_in, reset_section,
  c_sys_header, cpp_sys_header,
}
use c_plus_server.IncludeLine.Headers.{cpp_headers}
use c_plus_server.IncludeLine.Classify.{
  Setting, classify_include, cpp_extension, drop_common_suffixes, without_suffix, suffixes,
}
use c_plus_server.IncludeLine.{check_include_line, check_subdir, include_found, same_module}
use c_plus_server.IncludeLine.Once.{AtMostOnce, occurs_in, occurs, check_include_line-AtMostOnce}

abbrev setting : Setting
setting = record {
  os = posix;
  options = no_options;
  extensions = record { hpp_headers = []; valid_extensions = [] };
  filename = codes "src/my-a.h";
}

abbrev state : IncludeState
state = record new_include_state { include_list = ((codes "vector", 3) ∷ []) ∷ [] }

vector : classify_include setting (codes "vector") true ≡ some cpp_sys_header
unfolding classify_include cpp_extension text_in text_eq codes cpp_headers
vector = refl

system : classify_include setting (codes "sys/types.h") true ≡ some c_sys_header
unfolding classify_include cpp_extension text_in text_eq codes cpp_headers
system = refl

short : drop_common_suffixes setting (codes "a/b-inl.h") ≡ codes "a/b"
unfolding drop_common_suffixes without_suffix suffixes codes ends_with starts_with
    get_non_header_extensions get_header_extensions get_all_extensions headers_of default_headers
    default_sources or_default difference select text_in text_eq
short = refl

same : same_module (codes "/x/base/a") (codes "base/a") ≡ (true, codes "/x/")
unfolding same_module ends_with starts_with codes
same = refl

again :
    check_include_line setting (codes "#include <vector>") [] 9 state
    ≡ some (
      state,
      record {
        linenum = 9;
        category = codes "build/include";
        confidence = 4;
        message = codes "\"vector\" already included at src/my-a.h:3";
      }
          ∷ [],
    )
unfolding check_include_line check_subdir include_found re_pattern_include search_re match_re lit
    space dot group_text group_of find_header find_in_sections find_in text_eq codes decimal
again = refl

state-AtMostOnce : AtMostOnce state
unfolding occurs_in occurs
state-AtMostOnce h = ground arith

check_include_line-AtMostOnce_example :
    ((t : IncludeState) × (reports : List Report) × (check_include_line setting
          (codes "#include <map>")
          []
          9
          state
        ≡ some (t, reports))
      × AtMostOnce t)
    × AtMostOnce (reset_section state (codes "ifdef"))
check_include_line-AtMostOnce_example =
    check_include_line-AtMostOnce setting (codes "#include <map>") [] 9 (codes "ifdef") state
      posix-Shortens posix-TopIsPlain state-AtMostOnce
