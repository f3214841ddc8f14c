-- ===== src/Tests/AdminAreas.antt =====
-- `find_admin` of server/src/lib.rs on a small map, with natural numbers for areas and vertices.
use geocoder.Prelude.{
  ℕ, ◌≡◌, ◌++◌, refl, Bool, true, false, List, [], ◌∷◌, none, some, leb, ltb, codes, text_eq, arith,
  Outcome, done,
}
use geocoder.Bytes.{Bytes, slice, read_le, to_le}
use geocoder.Search.{binary_search}
use geocoder.Search.Nearest.{IsOrder, Least, pick}
use geocoder.Query.Postcodes.{to_upper}
use geocoder.GeoIndex.{lookup_admin_cell, for_each_entry}
use geocoder.Admin.Config.{AdminConfig, state, county, county_if_empty, city, lookup}
use geocoder.Admin.Search.{
  AdminPolygon, Visit, BestByLevel, visit_of, visit, visit_ids, visit_cells, best_by_level,
}
use geocoder.Admin.Search.Smallest.{smaller, area_of, covers, listed, best_by_level-Least}
use geocoder.Admin.Fields.{no_fields, fill, field_of, map_levels}
use geocoder.Admin.Fields.Order.{settled, map_levels-settled}

abbrev polygon : ℕ → ℕ → ℕ → AdminPolygon ℕ
polygon level area name = record {
  vertex_offset = 0;
  vertex_count = 3;
  name_id = name;
  admin_level = level;
  area = area;
  country_code = 0;
}

-- Two polygons of level 4, the second smaller, and one of level 6.
abbrev polygons : List (AdminPolygon ℕ)
polygons = polygon 4 90 1 ∷ polygon 4 50 2 ∷ polygon 6 20 3 ∷ []

abbrev cells : Bytes
cells = to_le 8 77 ++ to_le 4 0

abbrev entries : Bytes
entries = to_le 2 3 ++ (to_le 4 0 ++ (to_le 4 1 ++ to_le 4 2))

abbrev everywhere : List ℕ → Bool
everywhere vertices = true

abbrev at_least : ℕ → ℕ → Bool
at_least a b = leb b a

abbrev visit_to : ℕ → ℕ → ℕ → ℕ → Visit ℕ
visit_to id level area name = record {
  proven = false;
  poly_id = id;
  poly = polygon level area name;
}

abbrev visits : List (Visit ℕ)
visits = visit_to 0 4 90 1 ∷ visit_to 1 4 50 2 ∷ visit_to 2 6 20 3 ∷ []

program : Unit {0}
unfolding slice read_le to_le binary_search pick text_eq to_upper lookup_admin_cell for_each_entry
    lookup visit_of visit visit_ids visit_cells best_by_level fill field_of map_levels
program = tt

seen :
    listed at_least everywhere polygons (0 ∷ 0 ∷ 0 ∷ []) cells entries 77 (77 ∷ 78 ∷ [])
    ≡ done visits
unfolding program
seen = refl

smaller-IsOrder : IsOrder (smaller {V = ℕ} at_least everywhere polygons (0 ∷ 0 ∷ 0 ∷ []))
smaller-IsOrder = record {
  irrefl = λ a. ground arith;
  trans = λ a b c h k. ground arith;
  between = λ a b c h k. ground arith;
}

best_by_level-Least_example :
    (best : BestByLevel ℕ) × (best_by_level at_least everywhere polygons
        (0 ∷ 0 ∷ 0 ∷ [])
        cells
        entries
        77
        (78 ∷ [])
      ≡ done best)
    × Least
        (area_of at_least everywhere polygons (0 ∷ 0 ∷ 0 ∷ []))
        (smaller at_least everywhere polygons (0 ∷ 0 ∷ 0 ∷ []))
        (covers at_least everywhere polygons (0 ∷ 0 ∷ 0 ∷ []) 4)
        visits
        (best 4)
best_by_level-Least_example =
    best_by_level-Least at_least everywhere polygons (0 ∷ 0 ∷ 0 ∷ []) cells entries 77
      smaller-IsOrder (78 ∷ []) visits 4 seen (omega arith)

abbrev config : AdminConfig ℕ
config = record {
  defaults =
      (4, record { field = state; max_area = none })
      ∷ (6, record { field = county; max_area = none })
      ∷ (7, record { field = county_if_empty; max_area = none })
      ∷ (8, record { field = city; max_area = some 10 })
      ∷ [];
  by_country = (codes "AU", (6, record { field = county_if_empty; max_area = none }) ∷ []) ∷ [];
}

abbrev letter_name : ℕ → Outcome Bytes
letter_name id = done (id ∷ [])

-- The city of level 8 is above its cap, and the county of level 6 comes before the one of level 7.
abbrev mapped : List (Visit ℕ)
mapped = visit_to 1 4 50 2 ∷ visit_to 2 6 20 3 ∷ visit_to 3 7 15 4 ∷ visit_to 4 8 12 5 ∷ []

map_levels-settled_example :
    map_levels (λ a b. ltb b a) config letter_name (some (codes "au")) mapped no_fields
    ≡ done (
        settled (
          (state, (2 ∷ [], 1))
          ∷ (county_if_empty, (3 ∷ [], 2))
          ∷ (county_if_empty, (4 ∷ [], 3))
          ∷ []))
unfolding program
map_levels-settled_example =
    map_levels-settled (λ a b. ltb b a) config letter_name (some (codes "au")) mapped
      ((state, (2 ∷ [], 1)) ∷ (county_if_empty, (3 ∷ [], 2)) ∷ (county_if_empty, (4 ∷ [], 3)) ∷ [])
      refl

first_county :
    map_levels (λ a b. ltb b a) config letter_name (some (codes "au")) mapped no_fields
    ≡ done (record {
      state_name = some (2 ∷ [], 1);
      county_name = some (3 ∷ [], 2);
      city_name = none;
      postcode_name = none;
    })
unfolding program
first_county = refl
