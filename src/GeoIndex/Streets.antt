-- ===== src/GeoIndex/Streets.antt =====
-- `query_geo` of server/src/lib.rs: the nearest address point, street and interpolated way of the cells
-- around a query. `N` is the type of a node, `D` that of a distance, `T` that of a position on a way.
pub mod Segments
pub mod Seen
use geocoder.Prelude.{
  ℕ, ◌+◌, Bool, true, false, not, ◌&&◌, ◌||◌, List, [], ◌∷◌, ◌++◌, Option, none, some,
  if◌then◌else◌, ltb, ◌==◌, length, get_elem?, take, drop, Outcome, done, or_panic, and_then,
}
use geocoder.Bytes.{Bytes}
use geocoder.GeoIndex.{GeoCellOffsets, lookup_geo_cell, for_each_entry}

pub record WayHeader : Type 0 where
  pub node_offset : ℕ
  pub node_count : ℕ
  pub name_id : ℕ

pub record InterpWay : Type 0 where
  pub node_offset : ℕ
  pub node_count : ℕ
  pub street_id : ℕ
  pub start_number : ℕ
  pub end_number : ℕ
  pub interpolation : ℕ

-- The mapped files; `P` is the type of an address point.
pub record GeoFiles (P N : Type 0) : Type 0 where
  pub geo_cells : Bytes
  pub addr_points : List P
  pub addr_entries : Bytes
  pub street_ways : List WayHeader
  pub street_nodes : List N
  pub street_entries : Bytes
  pub interp_ways : List InterpWay
  pub interp_nodes : List N
  pub interp_entries : Bytes

abbrev pub seen_streets_cap : ℕ
seen_streets_cap = 256

unfoldable pub seen_streets_contains : List ℕ → ℕ → Bool
seen_streets_contains [] id = false
seen_streets_contains (s ∷ seen) id = (s == id) || seen_streets_contains seen id

-- `seen_streets[seen_streets_len] = id`, while there is room.
abbrev pub mark_seen : List ℕ → ℕ → List ℕ
mark_seen seen id = if ltb (length seen) seen_streets_cap then seen ++ id ∷ [] else seen

-- The nodes of a way, unless they lie beyond the file or are fewer than two.
abbrev pub nodes_of : {N : Type 0} → List N → ℕ → ℕ → Option (List N)
nodes_of all offset count =
    if ltb (length all) (offset + count) || ltb count 2
    then none
    else some (take count (drop offset all))

-- A best distance with what has it; it starts at the largest number.
abbrev pub BestOf : Type 0 → Type 0 → Type 0
BestOf D X = D × Option X

module _ {P N D T : Type 0} (less : D → D → Bool) (dist : P → D) (segment : N → N → D)
    (project_point_on_polyline : List N → Option (D × T)) (files : GeoFiles P N) where
  abbrev pub closer : {X : Type 0} → D → X → BestOf D X → BestOf D X
  closer d x best = if less d best.0 then (d, some x) else best

  unfoldable pub visit_addrs : List ℕ → BestOf D P → Outcome (BestOf D P)
  visit_addrs [] best = done best
  visit_addrs (id ∷ ids) best =
      and_then (or_panic (get_elem? files.addr_points id))
        λ p. visit_addrs ids (closer (dist p) p best)

  -- The segments of a way.
  unfoldable pub visit_segments : WayHeader → List N → BestOf D WayHeader → BestOf D WayHeader
  visit_segments way [] best = best
  visit_segments way (a ∷ []) best = best
  visit_segments way (a ∷ b ∷ nodes) best =
      visit_segments way (b ∷ nodes) (closer (segment a b) way best)

  abbrev pub visit_nodes : WayHeader → Option (List N) → BestOf D WayHeader → BestOf D WayHeader
  visit_nodes way none best = best
  visit_nodes way (some nodes) best = visit_segments way nodes best

  abbrev pub visit_way : WayHeader → BestOf D WayHeader → BestOf D WayHeader
  visit_way way best =
      visit_nodes way (nodes_of files.street_nodes way.node_offset way.node_count) best

  unfoldable pub visit_streets :
      List ℕ → List ℕ × BestOf D WayHeader → Outcome (List ℕ × BestOf D WayHeader)
  unfolding seen_streets_contains visit_segments
  visit_streets [] state = done state
  visit_streets (id ∷ ids) state = elim (seen_streets_contains state.0 id) [
    | true ↦ visit_streets ids state
    | false ↦
        and_then (or_panic (get_elem? files.street_ways id))
          λ way. visit_streets ids (mark_seen state.0 id, visit_way way state.1)
  ]

  -- The position on the way is kept with it.
  abbrev pub visit_interp : InterpWay → BestOf D (InterpWay × T) → BestOf D (InterpWay × T)
  visit_interp iw best =
      if (iw.start_number == 0) || (iw.end_number == 0)
      then best
      else elim (nodes_of files.interp_nodes iw.node_offset iw.node_count) [
        | none ↦ best
        | some nodes ↦ elim (project_point_on_polyline nodes) [
          | none ↦ best
          | some (d, t) ↦ closer d (iw, t) best
        ]
      ]

  unfoldable pub visit_interps :
      List ℕ → BestOf D (InterpWay × T) → Outcome (BestOf D (InterpWay × T))
  visit_interps [] best = done best
  visit_interps (id ∷ ids) best =
      and_then (or_panic (get_elem? files.interp_ways id))
        λ iw. visit_interps ids (visit_interp iw best)

  pub record GeoState : Type 0 where
    pub best_addr : BestOf D P
    pub streets : List ℕ × BestOf D WayHeader
    pub best_interp : BestOf D (InterpWay × T)

  -- `for_each_entry` with a visit of all ids.
  abbrev pub over_entries : {S : Type 0} → Bytes → ℕ → (List ℕ → S → Outcome S) → S → Outcome S
  over_entries entries offset visit_ids s =
      and_then (for_each_entry entries offset) λ ids. visit_ids ids s

  unfoldable pub visit_geo_cells : List ℕ → GeoState → Outcome GeoState
  unfolding lookup_geo_cell for_each_entry visit_addrs visit_streets visit_interps
  visit_geo_cells [] state = done state
  visit_geo_cells (c ∷ cs) state = and_then (lookup_geo_cell files.geo_cells c) λ offsets.
      and_then (over_entries files.addr_entries offsets.addr visit_addrs state.best_addr) λ addr.
        and_then (over_entries files.street_entries offsets.street visit_streets state.streets)
          λ streets.
            and_then
              (over_entries files.interp_entries offsets.interp visit_interps state.best_interp)
              λ interp.
                visit_geo_cells cs
                  (record { best_addr = addr; streets = streets; best_interp = interp })

  abbrev pub result_of : {X : Type 0} → BestOf D X → Option (D × X)
  result_of best = elim best.1 [ none ↦ none | some x ↦ some (best.0, x) ]

  -- The three results: the house number of the interpolated way is computed from its position.
  unfoldable pub query_geo :
      D → List ℕ → Outcome (Option (D × P) × Option (D × (InterpWay × T)) × Option (D × WayHeader))
  unfolding visit_geo_cells
  query_geo max_dist near =
      and_then
        (visit_geo_cells near (record {
          best_addr = (max_dist, none);
          streets = ([], (max_dist, none));
          best_interp = (max_dist, none);
        }))
        λ state.
          done (result_of state.best_addr, result_of state.best_interp, result_of state.streets.1)
