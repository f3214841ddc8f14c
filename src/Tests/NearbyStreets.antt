-- ===== src/Tests/NearbyStreets.antt =====
-- `query_geo` of server/src/lib.rs on a small index, with natural numbers for distances.
use geocoder.Prelude.{ℕ, ◌≡◌, ◌++◌, refl, List, [], ◌∷◌, Option, some, ltb, done, min, arith}
use geocoder.Bytes.{slice, read_le, to_le}
use geocoder.Search.{binary_search}
use geocoder.Search.Nearest.{IsOrder}
use geocoder.AddressPoints.{read_ids}
use geocoder.GeoIndex.{read_offsets, lookup_geo_cell, for_each_entry}
use geocoder.GeoIndex.Streets.{
  WayHeader, GeoFiles, seen_streets_contains, visit_addrs, visit_segments, visit_streets,
  visit_interps, visit_geo_cells, query_geo,
}
use geocoder.GeoIndex.Streets.Seen.{scan_geo, query_geo-scan_geo}

abbrev way : ℕ → ℕ → ℕ → WayHeader
way offset count name = record { node_offset = offset; node_count = count; name_id = name }

-- Address points and nodes are their distances from the query; the second street runs beyond the file.
abbrev files : GeoFiles ℕ ℕ
files = record {
  geo_cells = to_le 8 77 ++ (to_le 4 0 ++ (to_le 4 0 ++ to_le 4 0));
  addr_points = 40 ∷ 30 ∷ [];
  addr_entries = to_le 2 2 ++ (to_le 4 0 ++ to_le 4 1);
  street_ways = way 0 2 11 ∷ way 3 2 12 ∷ way 1 2 13 ∷ [];
  street_nodes = 9 ∷ 8 ∷ 7 ∷ [];
  street_entries = to_le 2 4 ++ (to_le 4 0 ++ (to_le 4 1 ++ (to_le 4 0 ++ to_le 4 2)));
  interp_ways =
      record {
        node_offset = 0;
        node_count = 2;
        street_id = 5;
        start_number = 2;
        end_number = 8;
        interpolation = 2;
      }
      ∷ [];
  interp_nodes = 6 ∷ 5 ∷ [];
  interp_entries = to_le 2 1 ++ to_le 4 0;
}

abbrev segment : ℕ → ℕ → ℕ
segment a b = min a b

abbrev project : List ℕ → Option (ℕ × ℕ)
project nodes = some (5, 1)

abbrev dist : ℕ → ℕ
dist p = p

program : Unit {0}
unfolding slice read_le to_le binary_search read_ids read_offsets lookup_geo_cell for_each_entry
    seen_streets_contains visit_addrs visit_segments visit_streets visit_interps visit_geo_cells
    query_geo
program = tt

all_three :
    query_geo ltb dist segment project files 1000 (77 ∷ 78 ∷ [])
    ≡ done (
      some (30, 30),
      some (
        5,
        (
          record {
            node_offset = 0;
            node_count = 2;
            street_id = 5;
            start_number = 2;
            end_number = 8;
            interpolation = 2;
          },
          1,
        ),
      ),
      some (7, way 1 2 13),
    )
unfolding program
all_three = refl

less-IsOrder : IsOrder ltb
less-IsOrder = record {
  irrefl = λ a. ground arith;
  trans = λ a b c h k. ground arith;
  between = λ a b c h k. ground arith;
}

query_geo-scan_geo_example :
    query_geo ltb dist segment project files 1000 (77 ∷ 78 ∷ [])
    ≡ scan_geo ltb dist segment project files 1000 (77 ∷ 78 ∷ [])
query_geo-scan_geo_example =
    query_geo-scan_geo ltb dist segment project files less-IsOrder 1000 (77 ∷ 78 ∷ [])
