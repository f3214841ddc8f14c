-- ===== src/Admin/Country.antt =====
-- The country of `find_admin` in server/src/lib.rs and the whole of `find_admin`.
use geocoder.Prelude.{
  ℕ, ◌/◌, ◌%◌, ◌^◌, Bool, List, [], ◌∷◌, Option, none, some, if◌then◌else◌, ◌==◌, Text, Outcome,
  done, and_then, ◌>>=◌,
}
use geocoder.Bytes.{Bytes}
use geocoder.Bytes.Utf8.{from_utf8, decode}
use geocoder.Admin.Config.{AdminConfig}
use geocoder.Admin.Search.{AdminPolygon, Visit, BestByLevel, best_by_level}
use geocoder.Admin.Fields.{AdminResult, no_fields, map_levels}

pub record CountryOf : Type 0 where
  pub name : Option Bytes
  pub poly_id : Option ℕ
  pub code : Option Bytes

-- `poly.country_code`, two letters packed in 16 bits.
unfoldable pub unpack_country : ℕ → Option Bytes
unpack_country code = if code == 0 then none else some (code / 2 ^ 8 % 2 ^ 8 ∷ code % 2 ^ 8 ∷ [])

-- The country of the polygon of level 2.
unfoldable pub country_at :
    {A : Type 0} → (ℕ → Outcome Bytes) → Option (A × Visit A) → Outcome CountryOf
unfolding unpack_country
country_at name_of none = done (record { name = none; poly_id = none; code = none })
country_at name_of (some (area, v)) = and_then (name_of v.poly.name_id) λ name. done (record {
  name = some name;
  poly_id = some v.poly_id;
  code = unpack_country v.poly.country_code;
})

-- A country polygon of Who's on First, its code and its name, for a point without a code.
unfoldable pub fall_back : Option (Bytes × Bytes) → CountryOf → CountryOf
fall_back none here = here
fall_back (some (code, name)) here = elim here.code [
  | some known ↦ here
  | none ↦ record {
    name = (elim here.name [ none ↦ some name | some old ↦ some old ]);
    poly_id = here.poly_id;
    code = some code;
  }
]

-- The code as text, if it is UTF-8.
unfoldable pub code_text : CountryOf → Option Text
unfolding from_utf8 decode
code_text here = here.code >>= λ code. from_utf8 code >>= λ bytes. some (decode bytes)

abbrev pub slots : {A : Type 0} → BestByLevel A → List ℕ → List (Visit A)
slots best [] = []
slots best (level ∷ levels) = elim (best level) [
  | none ↦ slots best levels
  | some (area, v) ↦ v ∷ slots best levels
]

abbrev all_levels : List ℕ
all_levels = 0 ∷ 1 ∷ 2 ∷ 3 ∷ 4 ∷ 5 ∷ 6 ∷ 7 ∷ 8 ∷ 9 ∷ 10 ∷ 11 ∷ []

module _ {V A : Type 0} (at_least greater : A → A → Bool) (inside : List V → Bool)
    (all_polygons : List (AdminPolygon A)) (all_vertices : List V) (config : AdminConfig A)
    (name_of : ℕ → Outcome Bytes) where
  unfoldable pub admin_of :
      Option (Bytes × Bytes) → BestByLevel A → Outcome (CountryOf × AdminResult)
  unfolding country_at fall_back code_text map_levels
  admin_of wof best = and_then (country_at name_of (best 2)) λ found.
      let here = fall_back wof found in
      and_then
        (map_levels greater config name_of (code_text here) (slots best all_levels) no_fields)
        λ result. done (here, result)

  unfoldable pub find_admin :
      Bytes → Bytes → ℕ → List ℕ → Option (Bytes × Bytes) → Outcome (CountryOf × AdminResult)
  unfolding best_by_level admin_of
  find_admin admin_cells admin_entries cell neighbors wof =
      and_then
        (best_by_level at_least inside all_polygons all_vertices admin_cells admin_entries cell
          neighbors)
        λ best. admin_of wof best
