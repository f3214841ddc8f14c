-- ===== src/Tests/Housenumbers.antt =====
-- server/src/housenumber.rs on the inputs of that file's tests.
use geocoder.Prelude.{
  ◌≡◌, ◌⊎◌, refl, true, false, [], ◌∷◌, ◌++◌, none, some, arith, codes, ◌↔◌, Lacks, Text,
  is_whitespace, trim_start, trim, split_once, eq_ignore_case,
}
use geocoder.Housenumber.{parse_hn, housenumber_matches, parse_au_unit_address}
use geocoder.Housenumber.Parse.{IsNumber}
use geocoder.Housenumber.Matching.{Overlaps, housenumber_matches_iff}
use geocoder.Housenumber.Unit.{IsUnitAddress, parse_au_unit_address_sound}

program : Unit {0}
unfolding is_whitespace trim_start trim split_once eq_ignore_case parse_hn housenumber_matches
    parse_au_unit_address
program = tt

query_in_stored_range : housenumber_matches (codes "256") (codes "255-257") ≡ true
unfolding program
query_in_stored_range = refl

suffix_discipline :
    (housenumber_matches (codes "42") (codes "42A") ≡ true)
    × (housenumber_matches (codes "1327A") (codes "1327B") ≡ false)
    × (housenumber_matches (codes "42A") (codes "42") ≡ false)
    × (housenumber_matches (codes "827a") (codes "820-830") ≡ true)
    × (housenumber_matches (codes "1327A") (codes "1320A-1340A") ≡ true)
unfolding program
suffix_discipline = (refl, refl, refl, refl, refl)

non_numeric :
    (housenumber_matches (codes "5") (codes "Lot 5") ≡ false)
    × (housenumber_matches (codes "Lot 5") (codes "lot 5") ≡ true)
unfolding program
non_numeric = (refl, refl)

parse_overflow_returns_none : parse_hn (codes "999999999999") ≡ none
unfolding program
parse_overflow_returns_none = refl

unit_pattern :
    (parse_au_unit_address (codes " 3 / 827a ") ≡ some (codes "3", codes "827a"))
    × (parse_au_unit_address (codes "Apt 3/45") ≡ none)
    × (parse_au_unit_address (codes "3/A45") ≡ none)
    × (parse_au_unit_address (codes "/45") ≡ none)
unfolding program
unit_pattern = (refl, refl, refl, refl)

parsed_range : parse_hn (codes "12-9") ≡ some (record { first = 9; last = 12; suffix = [] })
unfolding program
parsed_range = refl

parsed_single : parse_hn (codes "10") ≡ some (record { first = 10; last = 10; suffix = [] })
unfolding program
parsed_single = refl

housenumber_matches_iff_example : (housenumber_matches (codes "827a") (codes "820-830") ≡ true) ↔ (
    (eq_ignore_case (codes "827a") (codes "820-830") ≡ true)
    ⊎ Overlaps (codes "827a") (codes "820-830"))
housenumber_matches_iff_example = housenumber_matches_iff (codes "827a") (codes "820-830")

n256 : IsNumber (codes "256")
n256 = record { nonempty = cc; digits = ground arith; fits = omega arith }

n257 : IsNumber (codes "257")
n257 = record { nonempty = cc; digits = ground arith; fits = omega arith }

n255 : IsNumber (codes "255")
n255 = record { nonempty = cc; digits = ground arith; fits = omega arith }

slash : Lacks b'/' (codes "3")
slash = (omega arith, tt)

parse_au_unit_address_sound_example :
    (left right : Text) × (trim (codes "3/827a") ≡ left ++ b'/' ∷ right)
    × Lacks b'/' left
    × (trim left ≡ codes "3")
    × (trim right ≡ codes "827a")
    × IsUnitAddress (codes "3") (codes "827a")
unfolding program
parse_au_unit_address_sound_example = parse_au_unit_address_sound (codes "3/827a") refl
