-- ===== src/AddressPoints/Groups.antt =====
-- The runs that `write_output` of server/src/bin/build_openaddresses_index.rs walks, as a table of
-- rows.
use geocoder.Prelude.{
  ℕ, zero, suc, ◌+◌, ◌*◌, ◌%◌, ◌^◌, ◌≤◌, min, ◌≡◌, List, [], ◌∷◌, ◌++◌, append_assoc, append-nil,
  arith, length, length-drop, drop, done,
}
use geocoder.Bytes.{Bytes, to_le}
use geocoder.Bytes.Table.{table}
use geocoder.AddressPoints.{Output, run_length, write_ids, write_runs}

-- A cell's run: its first record, how many of its ids are written, and where.
pub record Row : Type 0 where
  pub cell : ℕ
  pub start : ℕ
  pub count : ℕ
  pub offset : ℕ

abbrev pub cell_row : Row → Bytes
cell_row r = to_le 8 r.cell ++ to_le 4 r.offset

abbrev pub entry_row : Row → Bytes
entry_row r = to_le 2 r.count ++ write_ids r.start r.count

module _ {P : Type 0} where
  -- The rows of the loop, in order.
  unfoldable pub runs : ℕ → List (ℕ × P) → ℕ → ℕ → List Row
  runs fuel [] start offset = []
  runs zero (r ∷ records) start offset = []
  runs (suc fuel) ((cell, p) ∷ records) start offset =
      let n = run_length cell records in
      let count = min (suc n) 65535 in
      record { cell = cell; start = start; count = count; offset = offset }
      ∷ runs fuel (drop n records) (start + suc n) ((offset + 2 + count * 4) % 2 ^ 32)

  -- With fuel for the records the loop ends, and has appended the rows to both files.
  pub write_runs_lem :
      (fuel : ℕ) (records : List (ℕ × P)) (start offset : ℕ) (out : Output)
      → length records ≤ fuel
      → write_runs fuel records start offset out
        ≡ done (record {
          cells = out.cells ++ table cell_row (runs fuel records start offset);
          entries = out.entries ++ table entry_row (runs fuel records start offset);
        })
  unfolding write_runs runs table
  write_runs_lem zero [] start offset out h = simp append-nil
  write_runs_lem (suc fuel) [] start offset out h = simp append-nil
  write_runs_lem zero (r ∷ records) start offset out h = absurd (omega arith)
  write_runs_lem (suc fuel) ((cell, p) ∷ records) start offset out h =
      rw
        (write_runs_lem fuel (drop (run_length cell records) records) _ _ _
          (omega (arith, length-drop (run_length cell records) records)))
        (simp append_assoc)
