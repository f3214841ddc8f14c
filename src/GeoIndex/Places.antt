-- ===== src/GeoIndex/Places.antt =====
-- `find_place` and `find_poi` of server/src/lib.rs: among the points of the cells around a query, the
-- one of the lowest rank, and of those the nearest. `D` is the type of a distance and `less` is
-- `<`; `to_metres` is `geo::dist_sq_to_metres`.
pub mod Order
use geocoder.Prelude.{
  ℕ, Bool, true, not, ◌&&◌, ◌||◌, List, [], ◌∷◌, Option, none, some, if◌then◌else◌, ltb, ◌==◌,
  is_empty, get_elem?, Outcome, done, or_panic, and_then,
}
use geocoder.Bytes.{Bytes}
use geocoder.Search.Nearest.{nearer}
use geocoder.GeoIndex.{lookup_admin_cell, for_each_entry, get_string}

pub record PlacePoint (F : Type 0) : Type 0 where
  pub lat : F
  pub lng : F
  pub name_id : ℕ
  pub rank : ℕ
  pub importance : ℕ

pub record PoiPoint (F : Type 0) : Type 0 where
  pub lat : F
  pub lng : F
  pub name_id : ℕ
  pub category_id : ℕ
  pub rank : ℕ
  pub importance : ℕ
  pub parent_place_id : ℕ

pub record PlaceMatch (F : Type 0) : Type 0 where
  pub name : Bytes
  pub rank : ℕ
  pub lat : F
  pub lng : F

pub record PoiMatch (D : Type 0) : Type 0 where
  pub name : Bytes
  pub category : Bytes
  pub distance_m : D

-- The three files of an index of points.
pub record PointFiles (P : Type 0) : Type 0 where
  pub points : List P
  pub cells : Bytes
  pub entries : Bytes

-- Lower rank first, and the nearer of the same rank.
abbrev pub preferred : {D : Type 0} → (D → D → Bool) → ℕ × D → ℕ × D → Bool
preferred less a b = ltb a.0 b.0 || ((a.0 == b.0) && less a.1 b.1)

abbrev pub ranked : {P D : Type 0} → (P → ℕ) → (P → D) → P → ℕ × D
ranked rank dist p = (rank p, dist p)

module _ {P D : Type 0} (rank : P → ℕ) (dist : P → D) (less : D → D → Bool) (near : P → Bool)
    (files : PointFiles P) where
  -- `&all_places[id as usize]` panics beyond the end.
  unfoldable pub prefer_ids : List ℕ → Option ((ℕ × D) × P) → Outcome (Option ((ℕ × D) × P))
  unfolding nearer
  prefer_ids [] best = done best
  prefer_ids (id ∷ ids) best = and_then (or_panic (get_elem? files.points id)) λ p.
      prefer_ids ids (if near p then nearer (ranked rank dist) (preferred less) best p else best)

  unfoldable pub prefer_cells : List ℕ → Option ((ℕ × D) × P) → Outcome (Option ((ℕ × D) × P))
  unfolding lookup_admin_cell for_each_entry prefer_ids
  prefer_cells [] best = done best
  prefer_cells (c ∷ cs) best = and_then (lookup_admin_cell files.cells c) λ offset.
      and_then (for_each_entry files.entries offset)
        λ ids. and_then (prefer_ids ids best) λ best'. prefer_cells cs best'

module _ {F D : Type 0} (less : D → D → Bool) (to_metres : D → D) (strings : Bytes) where
  unfoldable pub place_match : Option ((ℕ × D) × PlacePoint F) → Outcome (Option (PlaceMatch F))
  unfolding get_string
  place_match none = done none
  place_match (some (key, p)) =
      and_then (get_string strings p.name_id)
        λ name. done (some (record { name = name; rank = p.rank; lat = p.lat; lng = p.lng }))

  unfoldable pub find_place :
      (PlacePoint F → D)
      → Option (PointFiles (PlacePoint F))
      → List ℕ
      → Outcome (Option (PlaceMatch F))
  unfolding prefer_cells place_match
  find_place dist none near_cells = done none
  find_place dist (some files) near_cells =
      if is_empty files.points
      then done none
      else and_then (prefer_cells (λ p. p.rank) dist less (λ p. true) files near_cells none)
          place_match

  unfoldable pub poi_match : Option ((ℕ × D) × PoiPoint F) → Outcome (Option (PoiMatch D))
  unfolding get_string
  poi_match none = done none
  poi_match (some (key, p)) = and_then (get_string strings p.name_id) λ name.
      and_then (get_string strings p.category_id) λ category.
        done (some (record { name = name; category = category; distance_m = to_metres key.1 }))

  -- `dist > max_dist_sq` is `less max_dist_sq dist`.
  unfoldable pub find_poi :
      (PoiPoint F → D)
      → D
      → Option (PointFiles (PoiPoint F))
      → List ℕ
      → Outcome (Option (PoiMatch D))
  unfolding prefer_cells poi_match
  find_poi dist max_dist_sq none near_cells = done none
  find_poi dist max_dist_sq (some files) near_cells =
      if is_empty files.points
      then done none
      else and_then
          (prefer_cells (λ p. p.rank) dist less (λ p. not (less max_dist_sq (dist p))) files
            near_cells none)
          poi_match
