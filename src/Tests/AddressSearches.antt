-- ===== src/Tests/AddressSearches.antt =====
-- The searches of server/src/address_points.rs on a small index, with natural numbers for distances.
use geocoder.Prelude.{
  ℕ, ◌≡◌, ◌++◌, refl, [], ◌∷◌, none, some, arith, ltb, codes, done, trim, is_whitespace, trim_start,
  eq_ignore_case, split_once,
}
use geocoder.Bytes.{slice, read_le, to_le, until_nul}
use geocoder.Bytes.Utf8.{is_utf8, from_utf8, decode}
use geocoder.Search.{binary_search}
use geocoder.Search.Nearest.{IsOrder, Least, nearer}
use geocoder.Strings.Unicode.{as_bytes}
use geocoder.Housenumber.{housenumber_matches, parse_hn}
use geocoder.GeoIndex.Names.{contains_ignore_ascii_case}
use geocoder.AddressPoints.{cell_ids}
use geocoder.AddressPoints.Find.{
  AddressPoint, AddressPointIndex, Tracks, answer, find_by_housenumber, find_nearest, needle,
  hydrate, string_at,
}
use geocoder.AddressPoints.Find.Gather.{gathered, resolved}
use geocoder.AddressPoints.Find.Chosen.{has_unit, is_building, find_by_housenumber-Least}

program : Unit {0}
unfolding slice read_le to_le until_nul is_utf8 from_utf8 decode binary_search as_bytes
    housenumber_matches parse_hn is_whitespace trim_start trim split_once eq_ignore_case
    contains_ignore_ascii_case cell_ids find_by_housenumber find_nearest needle hydrate string_at
    nearer
program = tt

abbrev point : ℕ → ℕ → ℕ → ℕ → AddressPoint ℕ
point lat hn street unit = record {
  lat = lat;
  lng = 0;
  housenumber_id = hn;
  street_id = street;
  locality_id = 0;
  postcode_id = 0;
  unit_id = unit;
}

-- The pool: "" at 0, "10-14" at 1, "12" at 7, "High St" at 10, "3" at 18.
abbrev index : AddressPointIndex ℕ
index = record {
  points = point 5 1 10 0 ∷ point 9 7 10 18 ∷ point 2 7 0 0 ∷ [];
  cells = to_le 8 77 ++ to_le 4 0;
  entries = to_le 2 3 ++ (to_le 4 0 ++ (to_le 4 1 ++ to_le 4 2));
  strings =
      0 ∷ (codes "10-14" ++ 0 ∷ (codes "12" ++ 0 ∷ (codes "High St" ++ 0 ∷ (codes "3" ++ 0 ∷ []))));
}

abbrev dist : AddressPoint ℕ → ℕ
dist p = p.lat

ltb-IsOrder : IsOrder ltb
ltb-IsOrder = record {
  irrefl = λ a. ground arith;
  trans = λ a b c h k. ground arith;
  between = λ a b c h k. ground arith;
}

the_building_in_the_street :
    find_by_housenumber dist ltb index (codes " 12 ") (some (codes "high")) none (77 ∷ 78 ∷ [])
    ≡ done (some (hydrate index (point 5 1 10 0)))
unfolding program
the_building_in_the_street = refl

the_unit :
    find_by_housenumber dist ltb index
      (codes "12")
      (some (codes "high"))
      (some (codes "3"))
      (77 ∷ [])
    ≡ done (some (hydrate index (point 9 7 10 18)))
unfolding program
the_unit = refl

held : gathered index (77 ∷ 78 ∷ []) ≡ done (0 ∷ 1 ∷ 2 ∷ [])
unfolding program
held = refl

find_by_housenumber-Least_example :
    (best : Tracks (AddressPoint ℕ) ℕ) × (find_by_housenumber dist ltb index
        (codes "12")
        none
        (some (codes "3"))
        (77 ∷ 78 ∷ [])
      ≡ done (answer dist ltb index best))
    × Least dist ltb
        (has_unit dist ltb index (trim (codes "12")) (needle none) (needle (some (codes "3"))))
        (resolved index.points (0 ∷ 1 ∷ 2 ∷ []))
        best.best_unit_match
    × Least dist ltb
        (is_building dist ltb index (trim (codes "12")) (needle none) (needle (some (codes "3"))))
        (resolved index.points (0 ∷ 1 ∷ 2 ∷ []))
        best.best_fallback
unfolding program
find_by_housenumber-Least_example =
    find_by_housenumber-Least dist ltb index ltb-IsOrder (77 ∷ 78 ∷ []) (0 ∷ 1 ∷ 2 ∷ []) held
      (codes "12") none (some (codes "3")) refl
