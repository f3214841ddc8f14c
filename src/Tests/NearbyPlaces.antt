-- ===== src/Tests/NearbyPlaces.antt =====
-- `find_poi` and `find_place` of server/src/lib.rs on a small index, with natural numbers for distances.
use geocoder.Prelude.{ℕ, ◌≡◌, ◌++◌, refl, not, List, [], ◌∷◌, Option, some, ltb, codes, done, arith}
use geocoder.Bytes.{Bytes, slice, read_le, to_le, until_nul}
use geocoder.Bytes.Utf8.{is_utf8, from_utf8}
use geocoder.Search.{binary_search}
use geocoder.Search.Nearest.{IsOrder, Least, nearer}
use geocoder.GeoIndex.{lookup_admin_cell, for_each_entry, get_string}
use geocoder.GeoIndex.Places.{
  PoiPoint, PointFiles, preferred, ranked, prefer_ids, prefer_cells, poi_match, find_poi,
}
use geocoder.GeoIndex.Places.Order.{points_in, find_poi-Least}

abbrev poi : ℕ → ℕ → ℕ → PoiPoint ℕ
poi lat name rank = record {
  lat = lat;
  lng = 0;
  name_id = name;
  category_id = 6;
  rank = rank;
  importance = 0;
  parent_place_id = 0;
}

abbrev pois : List (PoiPoint ℕ)
pois = poi 3 1 20 ∷ poi 8 3 10 ∷ poi 90 1 5 ∷ []

abbrev files : PointFiles (PoiPoint ℕ)
files = record {
  points = pois;
  cells = to_le 8 77 ++ to_le 4 0;
  entries = to_le 2 3 ++ (to_le 4 0 ++ (to_le 4 1 ++ to_le 4 2));
}

-- The pool: "" at 0, "a" at 1, "bc" at 3, "cafe" at 6.
abbrev strings : Bytes
strings = 0 ∷ (codes "a" ++ 0 ∷ (codes "bc" ++ 0 ∷ (codes "cafe" ++ 0 ∷ [])))

abbrev dist : PoiPoint ℕ → ℕ
dist p = p.lat

abbrev metres : ℕ → ℕ
metres d = d

program : Unit {0}
unfolding slice read_le to_le until_nul is_utf8 from_utf8 binary_search nearer lookup_admin_cell
    for_each_entry get_string prefer_ids prefer_cells poi_match find_poi
program = tt

-- The first of the ranks is too far, and the second is the one of the lower rank.
lower_rank :
    find_poi ltb metres strings dist 30 (some files) (77 ∷ 78 ∷ [])
    ≡ done (some (record { name = codes "bc"; category = codes "cafe"; distance_m = 8 }))
unfolding program
lower_rank = refl

held :
    points_in (λ p. p.rank) dist ltb (λ p. not (ltb 30 (dist p))) files (77 ∷ 78 ∷ []) ≡ done pois
unfolding program
held = refl

less-IsOrder : IsOrder ltb
less-IsOrder = record {
  irrefl = λ a. ground arith;
  trans = λ a b c h k. ground arith;
  between = λ a b c h k. ground arith;
}

find_poi-Least_example :
    (best : Option ((ℕ × ℕ) × PoiPoint ℕ)) × (find_poi ltb metres strings dist 30
        (some files)
        (77 ∷ 78 ∷ [])
      ≡ poi_match ltb metres strings best)
    × Least (ranked (λ p. p.rank) dist) (preferred ltb) (λ p. not (ltb 30 (dist p))) pois best
find_poi-Least_example =
    find_poi-Least ltb metres strings less-IsOrder dist 30 files (77 ∷ 78 ∷ []) pois refl held
