-- ===== src/Extensions/Tests.antt =====
-- Tests of Extensions.antt, and its theorem at a concrete input.
use c_plus_server.Base.{◌≡◌, refl, [], ◌∷◌, ◌&&◌, not}
use c_plus_server.Text.{codes, split, strip, lstrip, rstrip, is_space, text_in, text_eq}
use c_plus_server.Extensions.{
  ExtensionSets, select, difference, or_default, listed, process_hpp_headers_option, has_h,
  process_extensions_option, get_header_extensions, get_non_header_extensions, headers_of,
  default_headers, default_sources, is_header_extension, get_all_extensions,
}
use c_plus_server.Extensions.Sets.{process_extensions_option-classifies}

abbrev no_options : ExtensionSets
no_options = record { hpp_headers = []; valid_extensions = [] }

headers :
    get_header_extensions (process_extensions_option no_options (codes "cc, hpp,h"))
    ≡ codes "hpp" ∷ codes "h" ∷ []
unfolding get_header_extensions process_extensions_option listed split strip lstrip rstrip is_space
    or_default headers_of select codes
headers = refl

sources : get_non_header_extensions no_options ≡ default_sources
unfolding get_header_extensions get_non_header_extensions get_all_extensions or_default headers_of
    default_headers default_sources difference select text_in text_eq codes
sources = refl

process_extensions_option-classifies_example :
    (is_header_extension
        (process_extensions_option
          (process_hpp_headers_option no_options (codes "hh"))
          (codes "cc,h"))
        (codes "h")
      ≡ text_in (codes "h") (listed (codes "hh")))
    × (is_header_extension
          (process_extensions_option (record no_options { hpp_headers = [] }) (codes "cc,h"))
          (codes "h")
        ≡ text_in (codes "h") (listed (codes "cc,h")) && has_h (codes "h"))
    × (text_in
          (codes "h")
          (get_non_header_extensions (process_extensions_option no_options (codes "cc,h")))
        ≡ text_in (codes "h") (listed (codes "cc,h"))
          && not (
              is_header_extension
                (process_extensions_option no_options (codes "cc,h"))
                (codes "h")))
process_extensions_option-classifies_example =
    process_extensions_option-classifies no_options (codes "hh") (codes "cc,h") (codes "h")
