-- ===== src/GeoIndex.antt =====
-- The readers of the main index in server/src/lib.rs: cell files, entry files and the string pool.
pub mod Entries
pub mod Cells
pub mod AdminCells
pub mod Names
pub mod Places
pub mod Streets
use geocoder.Prelude.{
  ℕ, ◌+◌, ◌*◌, ◌/◌, List, [], Option, none, some, if◌then◌else◌, ltb, leb, ◌==◌, length, drop,
  Outcome, done, panic, no_fuel, or_panic, and_then,
}
use geocoder.Bytes.{Bytes, read_le, until_nul}
use geocoder.Bytes.Utf8.{from_utf8}
use geocoder.Search.{found, absent, panicked, out_of_fuel, binary_search}
use geocoder.AddressPoints.{read_ids}

abbrev pub no_data : ℕ
no_data = 0xFFFFFFFF

pub record GeoCellOffsets : Type 0 where
  pub street : ℕ
  pub addr : ℕ
  pub interp : ℕ

abbrev pub empty_cell : GeoCellOffsets
empty_cell = record { street = no_data; addr = no_data; interp = no_data }

-- The three offsets of the row at `base`.
unfoldable pub read_offsets : Bytes → ℕ → Outcome GeoCellOffsets
read_offsets cells base = and_then (or_panic (read_le 4 cells (base + 8))) λ street.
    and_then (or_panic (read_le 4 cells (base + 12))) λ addr.
      and_then (or_panic (read_le 4 cells (base + 16)))
        λ interp. done (record { street = street; addr = addr; interp = interp })

unfoldable pub lookup_geo_cell : Bytes → ℕ → Outcome GeoCellOffsets
unfolding read_offsets
lookup_geo_cell cells cell_id =
    let count = length cells / 20 in
    if count == 0
    then done empty_cell
    else elim (binary_search (λ mid. read_le 8 cells (mid * 20)) cell_id count 0 count) [
      | found mid ↦ read_offsets cells (mid * 20)
      | absent ↦ done empty_cell
      | panicked ↦ panic
      | out_of_fuel ↦ no_fuel
    ]

unfoldable pub lookup_admin_cell : Bytes → ℕ → Outcome ℕ
lookup_admin_cell cells cell_id =
    let count = length cells / 12 in
    if count == 0
    then done no_data
    else elim (binary_search (λ mid. read_le 8 cells (mid * 12)) cell_id count 0 count) [
      | found mid ↦ or_panic (read_le 4 cells (mid * 12 + 8))
      | absent ↦ done no_data
      | panicked ↦ panic
      | out_of_fuel ↦ no_fuel
    ]

-- The ids that `f` is called with, in order.
unfoldable pub for_each_entry : Bytes → ℕ → Outcome (List ℕ)
unfolding read_ids
for_each_entry entries offset =
    if offset == no_data
    then done []
    else if ltb (length entries) (offset + 2)
    then done []
    else and_then (or_panic (read_le 2 entries offset)) λ id_count.
      if ltb (length entries) (offset + 2 + id_count * 4)
      then done []
      else read_ids entries (offset + 2) id_count 0

abbrev pub or_empty : Option Bytes → Bytes
or_empty none = []
or_empty (some s) = s

-- `&self.strings[offset..]` panics beyond the end.
unfoldable pub get_string : Bytes → ℕ → Outcome Bytes
unfolding until_nul from_utf8
get_string strings offset =
    if offset == 0
    then done []
    else if leb offset (length strings)
    then done (or_empty (from_utf8 (until_nul (drop offset strings))))
    else panic
