-- ===== src/AddressPoints.antt =====
-- server/src/address_points.rs and the writer in server/src/bin/build_openaddresses_index.rs (that
-- of build_gnaf_index.rs is the same code): the cell index of an address-point file set.
pub mod Cells
pub mod Groups
pub mod Places
pub mod RoundTrip
pub mod Find
use geocoder.Prelude.{
  ℕ, zero, suc, ◌+◌, ◌-◌, ◌*◌, ◌/◌, ◌%◌, ◌^◌, min, Bool, List, [], ◌∷◌, ◌++◌, Option, none, some,
  ltb, ◌==◌, if◌then◌else◌, length, drop, Outcome, done, panic, no_fuel, or_panic, and_then,
}
use geocoder.Bytes.{Bytes, read_le, to_le}
use geocoder.Search.{found, absent, panicked, out_of_fuel, binary_search}

-- `CELL_ENTRY_SIZE`: a u64 and a u32.
abbrev pub cell_entry_size : ℕ
cell_entry_size = 12

unfoldable pub lookup_cell_offset : Bytes → ℕ → Outcome (Option ℕ)
lookup_cell_offset cells cell_id =
    let count = length cells / cell_entry_size in
    elim (binary_search (λ mid. read_le 8 cells (mid * cell_entry_size)) cell_id count 0 count) [
      | found mid ↦ elim (read_le 4 cells (mid * cell_entry_size + 8)) [
        | none ↦ panic
        | some offset ↦ done (some offset)
      ]
      | absent ↦ done none
      | panicked ↦ panic
      | out_of_fuel ↦ no_fuel
    ]

-- `for i in 0..count`: the ids that the loop calls `f` with, `rounds` of them from `i` on.
unfoldable pub read_ids : Bytes → ℕ → ℕ → ℕ → Outcome (List ℕ)
read_ids entries ids_start zero i = done []
read_ids entries ids_start (suc rounds) i =
    and_then (or_panic (read_le 4 entries (ids_start + i * 4)))
      (λ id. and_then (read_ids entries ids_start rounds (i + 1)) (λ rest. done (id ∷ rest)))

-- The ids that `f` is called with, in order.
unfoldable pub for_each_point_in_cell : Bytes → ℕ → Outcome (List ℕ)
unfolding read_ids
for_each_point_in_cell entries off =
    if ltb (length entries) (off + 2)
    then done []
    else and_then (or_panic (read_le 2 entries off)) λ count.
      if ltb (length entries) (off + 2 + count * 4)
      then done []
      else read_ids entries (off + 2) count 0

-- The body of the loop over cells in `find_nearest` and `find_by_housenumber`: the ids of a cell.
unfoldable pub cell_ids : Bytes → Bytes → ℕ → Outcome (List ℕ)
unfolding lookup_cell_offset for_each_point_in_cell
cell_ids cells entries cell_id = and_then (lookup_cell_offset cells cell_id) λ found_offset.
    elim found_offset [ none ↦ done [] | some offset ↦ for_each_point_in_cell entries offset ]

-- The two files that the writer fills side by side.
pub record Output : Type 0 where
  pub cells : Bytes
  pub entries : Bytes

-- The inner loop: the ids of a run, each truncated to a u32.
unfoldable pub write_ids : ℕ → ℕ → Bytes
write_ids run_start zero = []
write_ids run_start (suc n) = to_le 4 (run_start % 2 ^ 32) ++ write_ids (run_start + 1) n

module _ {P : Type 0} where
  -- `run_end - run_start - 1`: the records behind the first that lie in the same cell.
  unfoldable pub run_length : ℕ → List (ℕ × P) → ℕ
  run_length cell_id [] = 0
  run_length cell_id ((c, p) ∷ records) =
      if c == cell_id then suc (run_length cell_id records) else 0

  -- The loop of `write_output` over runs of records in one cell, with the records still to come.
  -- `current_entry_offset` is a u32 and wraps. Fuel for the number of records is enough.
  unfoldable pub write_runs : ℕ → List (ℕ × P) → ℕ → ℕ → Output → Outcome Output
  write_runs fuel [] run_start offset out = done out
  write_runs zero (r ∷ records) run_start offset out = no_fuel
  write_runs (suc fuel) ((cell_id, p) ∷ records) run_start offset out =
      let n = run_length cell_id records in
      let run_len = min (suc n) 65535 in
      write_runs fuel (drop n records) (run_start + suc n) ((offset + 2 + run_len * 4) % 2 ^ 32)
        (record {
          cells = out.cells ++ (to_le 8 cell_id ++ to_le 4 offset);
          entries = out.entries ++ (to_le 2 run_len ++ write_ids run_start run_len);
        })

  -- The cell index that `write_output` writes for records in ascending order of their cells.
  unfoldable pub write_output : List (ℕ × P) → Outcome Output
  unfolding write_runs
  write_output records =
      write_runs (length records) records 0 0 (record { cells = []; entries = [] })
