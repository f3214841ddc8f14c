-- ===== src/OpenAddresses.antt =====
-- The shard files of server/src/openaddresses.rs and the countries that their names stand for. A
-- name is the list of its characters; a code of two bytes that are letters is one of two characters
-- that are ASCII letters.
pub mod Names
pub mod Countries
pub mod Ordinal
use geocoder.Prelude.{
  ℕ, Bool, true, false, ◌&&◌, ◌||◌, List, [], ◌∷◌, ◌++◌, reverse, map, Option, none, some,
  if◌then◌else◌, ◌==◌, leb, ◌>>=◌, Text, codes, to_lower,
}

abbrev pub CountryCode : Type 0
CountryCode = ℕ × ℕ

unfoldable pub normalise_code : CountryCode → CountryCode
unfolding to_lower
normalise_code cc = (to_lower cc.0, to_lower cc.1)

unfoldable pub oa_prefix : CountryCode → Text
unfolding to_lower normalise_code
oa_prefix country_code =
    let cc = normalise_code country_code in codes "oa_" ++ to_lower cc.0 ∷ to_lower cc.1 ∷ []

-- The files that `AddressPointIndex::open_with_prefix_labeled` of server/src/address_points.rs opens
-- for a prefix, and the schema beside the first.
unfoldable pub files_with_prefix : Text → List Text
files_with_prefix prefix =
    (prefix ++ codes "_points.bin")
    ∷ (prefix ++ codes "_cells.bin")
    ∷ (prefix ++ codes "_entries.bin")
    ∷ (prefix ++ codes "_strings.bin")
    ∷ (prefix ++ codes "_points.schema.json")
    ∷ []

-- `str::strip_prefix` and `str::strip_suffix`.
unfoldable pub strip_prefix : Text → Text → Option Text
strip_prefix [] s = some s
strip_prefix (c ∷ prefix) [] = none
strip_prefix (c ∷ prefix) (d ∷ s) = if c == d then strip_prefix prefix s else none

unfoldable pub strip_suffix : Text → Text → Option Text
unfolding strip_prefix
strip_suffix suffix s = strip_prefix (reverse suffix) (reverse s) >>= λ rest. some (reverse rest)

abbrev pub suffixes : List Text
suffixes =
    codes "_points.bin"
    ∷ codes "_cells.bin"
    ∷ codes "_entries.bin"
    ∷ codes "_strings.bin"
    ∷ codes "_points.schema.json"
    ∷ []

-- The first suffix that can be taken off.
unfoldable pub strip_any : List Text → Text → Option Text
unfolding strip_suffix
strip_any [] s = none
strip_any (suffix ∷ more) s = elim (strip_suffix suffix s) [
  | some rest ↦ some rest
  | none ↦ strip_any more s
]

-- `u8::is_ascii_alphabetic`.
unfoldable pub is_letter : ℕ → Bool
is_letter c = (leb b'a' c && leb c b'z') || (leb b'A' c && leb c b'Z')

unfoldable pub two_letters : Text → Option CountryCode
unfolding is_letter to_lower
two_letters [] = none
two_letters (c ∷ []) = none
two_letters (c ∷ d ∷ []) =
    if is_letter c && is_letter d then some (to_lower c, to_lower d) else none
two_letters (c ∷ d ∷ e ∷ s) = none

unfoldable pub parse_oa_country_prefix : Text → Option CountryCode
unfolding strip_prefix strip_any two_letters
parse_oa_country_prefix filename =
    strip_prefix (codes "oa_") filename >>= (λ rest. strip_any suffixes rest >>= two_letters)

abbrev pub code_eq : CountryCode → CountryCode → Bool
code_eq (a, b) (c, d) = (a == c) && (b == d)

-- `Vec::contains`.
abbrev pub contains_code : List CountryCode → CountryCode → Bool
contains_code [] cc = false
contains_code (c ∷ cs) cc = code_eq c cc || contains_code cs cc

abbrev pub push_code : List CountryCode → CountryCode → List CountryCode
push_code country_codes cc =
    if contains_code country_codes cc then country_codes else country_codes ++ cc ∷ []

-- The loop of `open` over the names in the directory.
unfoldable pub collect_codes : List Text → List CountryCode → List CountryCode
unfolding parse_oa_country_prefix to_lower
collect_codes [] country_codes = country_codes
collect_codes (name ∷ names) country_codes = elim (parse_oa_country_prefix (map to_lower name)) [
  | none ↦ collect_codes names country_codes
  | some cc ↦ collect_codes names (push_code country_codes cc)
]
