-- ===== src/Extensions/Sets.antt =====
-- Which extensions are those of headers, and which of other files.
use c_plus_server.Base.{
  ℕ, map, Bool, Bool-cases, true, false, not, ◌&&◌, ◌||◌, ◌≡◌, refl, ap, ◌∙◌, inl, inr, List, [],
  ◌∷◌, ◌++◌, ◌==◌, arith,
}
use c_plus_server.Text.{Text, strip, text_eq, text_eq_iff, text_in, split}
use c_plus_server.Extensions.{
  ExtensionSets, select, union, difference, or_default, listed, process_hpp_headers_option,
  process_extensions_option, default_sources, has_h, headers_of, get_header_extensions,
  is_header_extension, get_all_extensions, get_non_header_extensions,
}

text_in-append : (e : Text) (a b : List Text) → text_in e (a ++ b) ≡ text_in e a || text_in e b
unfolding text_in
text_in-append e [] b = refl
text_in-append e (x ∷ a) b = ground (arith, text_in-append e a b)

text_in-select :
    (p : Text → Bool) (e : Text) (a : List Text) → text_in e (select p a) ≡ text_in e a && p e
unfolding text_in select
text_in-select p e [] = refl
text_in-select p e (x ∷ a) = elim (Bool-cases (text_eq e x)) [
  | inl h ↦
      let same : p e ≡ p x = ap p ((text_eq_iff e x).0 h) in ground (arith, text_in-select p e a)
  | inr h ↦ ground (arith, text_in-select p e a)
]

text_in-difference :
    (e : Text) (a b : List Text) → text_in e (difference a b) ≡ text_in e a && not (text_in e b)
unfolding difference
text_in-difference e a b = text_in-select (λ x. not (text_in x b)) e a

absorb : (h v : Bool) → (h || v) && not h ≡ v && not h
absorb true v = ground arith
absorb false v = ground arith

split-cons : (c : ℕ) (s : Text) → (x : Text) × (xs : List Text) × (split c s ≡ x ∷ xs)
unfolding split
split-cons c [] = ([], [], refl)
split-cons c (y ∷ s) =
    let (x, xs, e) = split-cons c s in
    elim (Bool-cases (y == c)) [
      | inl h ↦ ([], x ∷ xs, rw (h, e) refl)
      | inr h ↦ (y ∷ x, xs, rw (h, e) refl)
    ]

listed-cons : (val : Text) → (x : Text) × (xs : List Text) × (listed val ≡ x ∷ xs)
unfolding listed
listed-cons val = let (x, xs, e) = split-cons b',' val in (strip x, map strip xs, ap (map strip) e)

or_default-listed : (val : Text) (b : List Text) → or_default (listed val) b ≡ listed val
unfolding or_default
or_default-listed val b = let (x, xs, e) = listed-cons val in rw e refl

headers_of-listed : (val : Text) → headers_of (listed val) ≡ select has_h (listed val)
unfolding headers_of
headers_of-listed val = let (x, xs, e) = listed-cons val in rw e refl

non_header-listed :
    (st : ExtensionSets) (val e : Text)
    → text_in e (get_non_header_extensions (process_extensions_option st val))
      ≡ text_in e (listed val) && not (is_header_extension (process_extensions_option st val) e)
unfolding get_non_header_extensions get_all_extensions is_header_extension process_extensions_option
non_header-listed st val e =
    let headers = get_header_extensions (process_extensions_option st val) in
    let valid = or_default (listed val) default_sources in
    text_in-difference e (union headers valid) headers
    ∙ ap (λ b. b && not (text_in e headers)) (text_in-append e headers valid)
    ∙ absorb (text_in e headers) (text_in e valid)
    ∙ ap (λ v. text_in e v && not (text_in e headers)) (or_default-listed val default_sources)

-- After --headers and --extensions an extension is a header's if --headers lists it. After
-- --extensions alone it is a header's if it is listed there and has the letter h. The extensions of
-- other files are, whatever the headers, those that --extensions lists and that are no header's.
pub process_extensions_option-classifies :
    (st : ExtensionSets) (headers val e : Text)
    → (is_header_extension (process_extensions_option (process_hpp_headers_option st headers) val) e
        ≡ text_in e (listed headers))
      × (is_header_extension (process_extensions_option (record st { hpp_headers = [] }) val) e
          ≡ text_in e (listed val) && has_h e)
      × (text_in e (get_non_header_extensions (process_extensions_option st val))
          ≡ text_in e (listed val)
            && not (is_header_extension (process_extensions_option st val) e))
unfolding is_header_extension get_header_extensions process_extensions_option
    process_hpp_headers_option or_default
process_extensions_option-classifies st headers val e = (
  ap (text_in e) (or_default-listed headers (headers_of (listed val))),
  ap (text_in e) (headers_of-listed val) ∙ text_in-select has_h e (listed val),
  non_header-listed st val e,
)
