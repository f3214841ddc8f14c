-- ===== src/Admin/Fields.antt =====
-- The second half of `find_admin` in server/src/lib.rs: the smallest polygon of each level is mapped
-- to a field of the result by server/src/admin_config.rs. `name_of` is `self.get_string` and
-- `greater` is `>` on areas.
pub mod Order
use geocoder.Prelude.{
  ℕ, ◌/◌, ◌%◌, ◌^◌, Bool, true, false, not, ◌&&◌, ◌||◌, List, [], ◌∷◌, Option, none, some,
  if◌then◌else◌, ◌==◌, Text, Outcome, done, and_then, ◌>>=◌,
}
use geocoder.Bytes.{Bytes}
use geocoder.Admin.Config.{
  AdminField, AdminEntry, AdminConfig, lookup, country, state, county, county_if_empty, city,
  city_if_empty, postcode, ignore,
}
use geocoder.Admin.Search.{AdminPolygon, Visit}

-- A name with the index of its polygon.
abbrev pub Named : Type 0
Named = Bytes × ℕ

pub record AdminResult : Type 0 where
  pub state_name : Option Named
  pub county_name : Option Named
  pub city_name : Option Named
  pub postcode_name : Option Bytes

abbrev pub no_fields : AdminResult
no_fields = record { state_name = none; county_name = none; city_name = none; postcode_name = none }

-- `if result.county.is_none()`.
abbrev pub or_named : Option Named → Named → Option Named
or_named none found = some found
or_named (some old) found = some old

-- The `match entry.field`.
unfoldable pub fill : AdminField → Named → AdminResult → AdminResult
fill country found result = result
fill state found result = record {
  state_name = some found;
  county_name = result.county_name;
  city_name = result.city_name;
  postcode_name = result.postcode_name;
}
fill county found result = record {
  state_name = result.state_name;
  county_name = some found;
  city_name = result.city_name;
  postcode_name = result.postcode_name;
}
fill county_if_empty found result = record {
  state_name = result.state_name;
  county_name = or_named result.county_name found;
  city_name = result.city_name;
  postcode_name = result.postcode_name;
}
fill city found result = record {
  state_name = result.state_name;
  county_name = result.county_name;
  city_name = some found;
  postcode_name = result.postcode_name;
}
fill city_if_empty found result = record {
  state_name = result.state_name;
  county_name = result.county_name;
  city_name = or_named result.city_name found;
  postcode_name = result.postcode_name;
}
fill postcode found result = record {
  state_name = result.state_name;
  county_name = result.county_name;
  city_name = result.city_name;
  postcode_name = some found.0;
}
fill ignore found result = result

module _ {A : Type 0} (greater : A → A → Bool) (config : AdminConfig A)
    (name_of : ℕ → Outcome Bytes) where
  -- The field of a polygon that is not above the cap of its entry.
  unfoldable pub field_of : Option Text → Visit A → Option AdminField
  unfolding lookup
  field_of cc' v =
      if v.poly.admin_level == 2 then none else elim (lookup config cc' v.poly.admin_level) [
        | none ↦ none
        | some entry ↦ elim entry.max_area [
          | none ↦ some entry.field
          | some cap ↦ if greater v.poly.area cap then none else some entry.field
        ]
      ]

  -- The loop over `best_by_level`, the entries that are there in the order of the levels.
  unfoldable pub map_levels : Option Text → List (Visit A) → AdminResult → Outcome AdminResult
  unfolding field_of fill
  map_levels cc' [] result = done result
  map_levels cc' (v ∷ vs) result = elim (field_of cc' v) [
    | none ↦ map_levels cc' vs result
    | some field ↦
        and_then (name_of v.poly.name_id)
          λ name. map_levels cc' vs (fill field (name, v.poly_id) result)
  ]
