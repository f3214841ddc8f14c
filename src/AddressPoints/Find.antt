-- ===== src/AddressPoints/Find.antt =====
-- `find_by_housenumber` and `find_nearest` of server/src/address_points.rs. The cells around the
-- query, which the S2 library gives, are a list; floating-point coordinates, the distance of a point
-- and `<` on distances are parameters.
pub mod Gather
pub mod Chosen
pub mod Closest
use geocoder.Prelude.{
  ℕ, Bool, true, false, ◌&&◌, not, List, [], ◌∷◌, ◌++◌, map, Option, none, some, if◌then◌else◌, leb,
  ◌==◌, length, get_elem?, drop, is_empty, trim, eq_ignore_case, Text, Outcome, done, panic,
  no_fuel, and_then,
}
use geocoder.Bytes.{Bytes, until_nul}
use geocoder.Bytes.Utf8.{from_utf8, decode}
use geocoder.Strings.Unicode.{as_bytes}
use geocoder.Search.Nearest.{nearer}
use geocoder.Housenumber.{housenumber_matches}
use geocoder.GeoIndex.Names.{contains_ignore_ascii_case}
use geocoder.AddressPoints.{cell_ids}

pub record AddressPoint (F : Type 0) : Type 0 where
  pub lat : F
  pub lng : F
  pub housenumber_id : ℕ
  pub street_id : ℕ
  pub locality_id : ℕ
  pub postcode_id : ℕ
  pub unit_id : ℕ

pub record AddressMatch (F : Type 0) : Type 0 where
  pub lat : F
  pub lng : F
  pub housenumber : Text
  pub street : Text
  pub locality : Text
  pub postcode : Text
  pub unit : Text

-- `AddressPointIndex`, with the points that its first file holds.
pub record AddressPointIndex (F : Type 0) : Type 0 where
  pub points : List (AddressPoint F)
  pub cells : Bytes
  pub entries : Bytes
  pub strings : Bytes

-- The text of bytes that may not be UTF-8: `from_utf8(…).unwrap_or("")`.
abbrev pub text_or_empty : Option Bytes → Text
text_or_empty none = []
text_or_empty (some s) = decode s

-- `best_unit_match` and `best_fallback`.
pub record Tracks (P D : Type 0) : Type 0 where
  pub best_unit_match : Option (D × P)
  pub best_fallback : Option (D × P)

abbrev pub no_tracks : {P D : Type 0} → Tracks P D
no_tracks = record { best_unit_match = none; best_fallback = none }

-- `hint.map(str::trim).filter(|s| !s.is_empty())`
unfoldable pub needle : Option Text → Option Text
unfolding trim
needle none = none
needle (some hint) = let s = trim hint in if is_empty s then none else some s

module _ {F : Type 0} where
  unfoldable pub string_at : AddressPointIndex F → ℕ → Text
  unfolding until_nul from_utf8 decode
  string_at self offset =
      let bytes = if leb offset (length self.strings) then drop offset self.strings else [] in
      text_or_empty (from_utf8 (until_nul bytes))

  unfoldable pub hydrate : AddressPointIndex F → AddressPoint F → AddressMatch F
  unfolding string_at
  hydrate self point = record {
    lat = point.lat;
    lng = point.lng;
    housenumber = string_at self point.housenumber_id;
    street = string_at self point.street_id;
    locality = string_at self point.locality_id;
    postcode = string_at self point.postcode_id;
    unit = if point.unit_id == 0 then [] else string_at self point.unit_id;
  }

  -- The tests of `find_by_housenumber` on a point before its unit: house number and street.
  unfoldable pub is_candidate : AddressPointIndex F → Text → Option Text → AddressPoint F → Bool
  unfolding string_at housenumber_matches contains_ignore_ascii_case as_bytes
  is_candidate self hn_needle street_needle p =
      housenumber_matches hn_needle (string_at self p.housenumber_id) && elim street_needle [
        | none ↦ true
        | some street ↦
            contains_ignore_ascii_case (as_bytes (string_at self p.street_id)) (as_bytes street)
      ]

  module _ {D : Type 0} (dist : AddressPoint F → D) (less : D → D → Bool)
      (self : AddressPointIndex F) where
    -- The unit discipline for a candidate.
    unfoldable pub track :
        Option Text → AddressPoint F → Tracks (AddressPoint F) D → Tracks (AddressPoint F) D
    unfolding nearer string_at eq_ignore_case
    track none p best = record {
      best_unit_match = nearer dist less best.best_unit_match p;
      best_fallback = best.best_fallback;
    }
    track (some unit) p best =
        if p.unit_id == 0
        then record {
          best_unit_match = best.best_unit_match;
          best_fallback = nearer dist less best.best_fallback p;
        }
        else if eq_ignore_case (string_at self p.unit_id) unit
        then record {
          best_unit_match = nearer dist less best.best_unit_match p;
          best_fallback = best.best_fallback;
        }
        else best

    module _ (hn_needle : Text) (street_needle unit_needle : Option Text) where
      -- The closure that `for_each_point_in_cell` calls, for each id of a cell.
      unfoldable pub visit : List ℕ → Tracks (AddressPoint F) D → Tracks (AddressPoint F) D
      unfolding track is_candidate
      visit [] best = best
      visit (id ∷ ids) best = elim (get_elem? self.points id) [
        | none ↦ visit ids best
        | some p ↦
            visit ids (
              if is_candidate self hn_needle street_needle p
              then track unit_needle p best
              else best)
      ]

      -- The loop over the cells.
      unfoldable pub visit_cells :
          List ℕ → Tracks (AddressPoint F) D → Outcome (Tracks (AddressPoint F) D)
      unfolding cell_ids visit
      visit_cells [] best = done best
      visit_cells (cell ∷ near) best =
          and_then (cell_ids self.cells self.entries cell) λ ids. visit_cells near (visit ids best)

    -- `best.map(|(_, p)| self.hydrate(p))`
    abbrev pub hydrated : Option (D × AddressPoint F) → Option (AddressMatch F)
    hydrated none = none
    hydrated (some b) = some (hydrate self b.1)

    -- `best_unit_match.or(best_fallback).map(|(_, p)| self.hydrate(p))`
    abbrev pub answer : Tracks (AddressPoint F) D → Option (AddressMatch F)
    answer best = elim best.best_unit_match [
      | some b ↦ hydrated (some b)
      | none ↦ hydrated best.best_fallback
    ]

    unfoldable pub find_by_housenumber :
        Text → Option Text → Option Text → List ℕ → Outcome (Option (AddressMatch F))
    unfolding visit_cells needle trim hydrate
    find_by_housenumber housenumber street_hint unit_hint near =
        if is_empty (trim housenumber)
        then done none
        else if is_empty self.points
        then done none
        else and_then
            (visit_cells (trim housenumber) (needle street_hint) (needle unit_hint) near no_tracks)
            (λ best. done (answer best))

    -- `find_nearest`: the closure, the loop over the cells, and the answer.
    unfoldable pub visit_all : List ℕ → Option (D × AddressPoint F) → Option (D × AddressPoint F)
    unfolding nearer
    visit_all [] best = best
    visit_all (id ∷ ids) best = elim (get_elem? self.points id) [
      | none ↦ visit_all ids best
      | some p ↦ visit_all ids (nearer dist less best p)
    ]

    unfoldable pub visit_all_cells :
        List ℕ → Option (D × AddressPoint F) → Outcome (Option (D × AddressPoint F))
    unfolding cell_ids visit_all
    visit_all_cells [] best = done best
    visit_all_cells (cell ∷ near) best =
        and_then (cell_ids self.cells self.entries cell)
          λ ids. visit_all_cells near (visit_all ids best)

    unfoldable pub find_nearest : List ℕ → Outcome (Option (AddressMatch F))
    unfolding visit_all_cells hydrate
    find_nearest near =
        if is_empty self.points
        then done none
        else and_then (visit_all_cells near none) (λ best. done (hydrated best))
