-- ===== src/Tests/GeoFiles.antt =====
-- The readers of server/src/lib.rs on small files, and the automaton of server/src/autocomplete.rs.
use geocoder.Prelude.{
  ◌≡◌, ◌↔◌, ◌++◌, refl, true, false, List, [], ◌∷◌, arith, codes, to_lower, eq_ignore_case,
}
use geocoder.Bytes.{Bytes, slice, read_le, to_le, until_nul}
use geocoder.Bytes.Table.{table}
use geocoder.Bytes.Utf8.{is_utf8, from_utf8}
use geocoder.Search.{binary_search}
use geocoder.Search.Table.{find_row}
use geocoder.Postcode.Pool.{IsStorable}
use geocoder.GeoIndex.{no_data, lookup_geo_cell, lookup_admin_cell, for_each_entry, get_string}
use geocoder.GeoIndex.Cells.{GeoRow, GeoFits}
use geocoder.GeoIndex.AdminCells.{AdminRow}
use geocoder.GeoIndex.Names.{contains_ignore_ascii_case, Part, contains_ignore_ascii_case_iff}
use geocoder.Autocomplete.Automaton.{
  CountryPrefixAutomaton, starts_with, equals, need_cc1, start, is_match, can_match,
  will_always_match, run,
}
use geocoder.Autocomplete.Automaton.Language.{is_match-run}
use geocoder.Autocomplete.Automaton.Pruning.{can_match-run}

program : Unit {0}
unfolding slice read_le to_le table until_nul is_utf8 from_utf8 binary_search find_row
    lookup_geo_cell lookup_admin_cell for_each_entry get_string to_lower eq_ignore_case
    contains_ignore_ascii_case starts_with equals is_match run will_always_match
program = tt

abbrev geo_rows : List GeoRow
geo_rows =
    record { cell = 3; offsets = record { street = 0; addr = no_data; interp = no_data } }
    ∷ record { cell = 8; offsets = record { street = 6; addr = 0; interp = no_data } }
    ∷ []

geo_rows-GeoFits :
    (GeoFits
      (record { cell = 3; offsets = record { street = 0; addr = no_data; interp = no_data } }))
    × (GeoFits (record { cell = 8; offsets = record { street = 6; addr = 0; interp = no_data } })
        × Unit {0})
geo_rows-GeoFits = (
  record { cell = omega arith; street = omega arith; addr = omega arith; interp = omega arith },
  (
    record { cell = omega arith; street = omega arith; addr = omega arith; interp = omega arith },
    tt,
  ),
)

abbrev admin_rows : List AdminRow
admin_rows = (3, 0) ∷ (8, 10) ∷ (9, 14) ∷ []

high_st-IsStorable : IsStorable (codes "High St")
unfolding program
high_st-IsStorable = record { utf8 = refl; no_nul = ground arith }

contains_ignore_ascii_case_iff_example :
    (contains_ignore_ascii_case (codes "High Street") (codes "STREET") ≡ true)
    ↔ Part (codes "High Street") (codes "STREET")
contains_ignore_ascii_case_iff_example =
    contains_ignore_ascii_case_iff (codes "High Street") (codes "STREET")

street_is_part : contains_ignore_ascii_case (codes "High Street") (codes "STREET") ≡ true
unfolding program
street_is_part = refl

abbrev sydney : CountryPrefixAutomaton
sydney = starts_with (b'A', b'U') (codes "syd")

prefix_and_exact :
    (is_match sydney (run sydney (start sydney) (codes "ausydney")) ≡ true)
    × (is_match sydney (run sydney (start sydney) (codes "nzsydney")) ≡ false)
    × (is_match
          (equals (b'A', b'U') (codes "syd"))
          (run (equals (b'A', b'U') (codes "syd")) (start sydney) (codes "ausydney"))
        ≡ false)
unfolding program
prefix_and_exact = (refl, refl, refl)

is_match-run_example : (is_match sydney (run sydney (start sydney) (codes "ausydney")) ≡ true) ↔ (
    (rest : Bytes) × (codes "ausydney" ≡ (sydney.cc0 ∷ sydney.cc1 ∷ sydney.tail) ++ rest)
    × (sydney.exact ≡ true → rest ≡ []))
is_match-run_example = is_match-run sydney (codes "ausydney")

can_match-run_example :
    ((can_match sydney need_cc1 ≡ true)
      ↔ ((key : Bytes) × (is_match sydney (run sydney need_cc1 key) ≡ true)))
    × (will_always_match sydney need_cc1 ≡ true
        → (key : Bytes) → is_match sydney (run sydney need_cc1 key) ≡ true)
can_match-run_example = can_match-run sydney need_cc1 tt
