-- ===== src/Admin/Search.antt =====
-- The loop of `find_admin` in server/src/lib.rs that keeps the smallest polygon of each level around a
-- point. `V` is the type of a vertex and `A` that of an area; `at_least` is `>=` on areas, and
-- `inside` is `point_in_polygon_f64` for the point.
pub mod Smallest
use geocoder.Prelude.{
  ℕ, ◌+◌, ◌/◌, ◌%◌, ◌^◌, Bool, true, false, not, ◌&&◌, ◌||◌, List, [], ◌∷◌, ◌++◌, Option, none,
  some, if◌then◌else◌, ltb, leb, ◌==◌, length, get_elem?, take, drop, Outcome, done, and_then,
}
use geocoder.Bytes.{Bytes}
use geocoder.GeoIndex.{lookup_admin_cell, for_each_entry}

pub record AdminPolygon (A : Type 0) : Type 0 where
  pub vertex_offset : ℕ
  pub vertex_count : ℕ
  pub name_id : ℕ
  pub admin_level : ℕ
  pub area : A
  pub country_code : ℕ

-- A polygon with its index, and whether the cell of the point itself marks it as interior.
pub record Visit (A : Type 0) : Type 0 where
  pub proven : Bool
  pub poly_id : ℕ
  pub poly : AdminPolygon A

abbrev pub BestByLevel : Type 0 → Type 0
BestByLevel A = ℕ → Option (A × Visit A)

module _ {V A : Type 0} (at_least : A → A → Bool) (inside : List V → Bool)
    (all_polygons : List (AdminPolygon A)) (all_vertices : List V) where
  -- An id of an entry: its high bit is the mark for interior, the rest is the index.
  unfoldable pub visit_of : Bool → ℕ → Option (Visit A)
  visit_of is_home id =
      let poly_id = id % 2 ^ 31 in
      elim (get_elem? all_polygons poly_id) [
        | none ↦ none
        | some poly ↦
            some (record {
              proven = (id / 2 ^ 31 % 2 == 1) && is_home;
              poly_id = poly_id;
              poly = poly;
            })
      ]

  abbrev pub is_beaten : Option (A × Visit A) → Visit A → Bool
  is_beaten none v = false
  is_beaten (some (best_area, _)) v = at_least v.poly.area best_area

  -- The vertices lie in the file, and there are three of them.
  abbrev pub slice_fits : Visit A → Bool
  slice_fits v = not (
      ltb (length all_vertices) (v.poly.vertex_offset + v.poly.vertex_count)
      || ltb v.poly.vertex_count 3)

  abbrev pub contains_point : Visit A → Bool
  contains_point v =
      v.proven || inside (take v.poly.vertex_count (drop v.poly.vertex_offset all_vertices))

  abbrev pub set_level : ℕ → A × Visit A → BestByLevel A → BestByLevel A
  set_level level entry best = λ l. if level == l then some entry else best l

  unfoldable pub visit : Visit A → BestByLevel A → BestByLevel A
  visit v best =
      if leb 12 v.poly.admin_level
      then best
      else if is_beaten (best v.poly.admin_level) v
      then best
      else if not (slice_fits v)
      then best
      else if contains_point v
      then set_level v.poly.admin_level (v.poly.area, v) best
      else best

  unfoldable pub visit_ids : Bool → List ℕ → BestByLevel A → BestByLevel A
  unfolding visit_of visit
  visit_ids is_home [] best = best
  visit_ids is_home (id ∷ ids) best = elim (visit_of is_home id) [
    | none ↦ visit_ids is_home ids best
    | some v ↦ visit_ids is_home ids (visit v best)
  ]

  -- Over the cell of the point and its neighbours.
  unfoldable pub visit_cells : Bytes → Bytes → ℕ → List ℕ → BestByLevel A → Outcome (BestByLevel A)
  unfolding lookup_admin_cell for_each_entry visit_ids
  visit_cells admin_cells admin_entries cell [] best = done best
  visit_cells admin_cells admin_entries cell (c ∷ cs) best =
      and_then (lookup_admin_cell admin_cells c) λ offset.
        and_then (for_each_entry admin_entries offset)
          λ ids. visit_cells admin_cells admin_entries cell cs (visit_ids (c == cell) ids best)

  abbrev pub no_best : BestByLevel A
  no_best = λ level. none

  unfoldable pub best_by_level : Bytes → Bytes → ℕ → List ℕ → Outcome (BestByLevel A)
  unfolding visit_cells
  best_by_level admin_cells admin_entries cell neighbors =
      visit_cells admin_cells admin_entries cell (cell ∷ neighbors) no_best
