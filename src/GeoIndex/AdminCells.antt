-- ===== src/GeoIndex/AdminCells.antt =====
-- `lookup_admin_cell` of server/src/lib.rs against the rows of the cell file.
use geocoder.Prelude.{
  ℕ, ◌+◌, ◌*◌, ◌/◌, ◌^◌, ◌<◌, ◌≡◌, refl, List, [], ◌∷◌, ◌++◌, append-nil, Option, none, some, arith,
  inl, inr, ◌==◌, length, length-append, get_elem?, All, All-get_elem?, done, false,
}
use geocoder.Bytes.{Bytes, to_le, read_le}
use geocoder.Bytes.Layout.{length-to_le}
use geocoder.Bytes.Table.{table, length-table, table_field}
use geocoder.Search.Table.{find_row, Rises}
use geocoder.Search.File.{search_file}
use geocoder.GeoIndex.{no_data, lookup_admin_cell}

-- A row of `admin_cells.bin`: a cell and the offset of its entry.
abbrev pub AdminRow : Type 0
AdminRow = ℕ × ℕ

abbrev pub admin_bytes : AdminRow → Bytes
admin_bytes r = to_le 8 r.0 ++ to_le 4 r.1

abbrev pub AdminFits : AdminRow → Type 0
AdminFits r = (r.0 < 2 ^ 64) × (r.1 < 2 ^ 32)

abbrev pub admin_offset : Option AdminRow → ℕ
admin_offset none = no_data
admin_offset (some r) = r.1

admin_bytes-length : (r : AdminRow) → length (admin_bytes r) ≡ 12
admin_bytes-length r =
    omega (arith, length-append (to_le 8 r.0) (to_le 4 r.1), length-to_le 8 r.0, length-to_le 4 r.1)

offset_at :
    (rows : List AdminRow) (i : ℕ) {r : AdminRow}
    → get_elem? rows i ≡ some r
    → AdminFits r
    → read_le 4 (table admin_bytes rows) (i * 12 + 8) ≡ some r.1
offset_at rows i {r} h fits = rw (length-to_le 8 r.0) at (
    table_field admin_bytes 12 rows i 4 r.1 (to_le 8 r.0) [] admin_bytes-length h
      (rw (append-nil (to_le 4 r.1)) refl) fits.1)

All-cells : (rows : List AdminRow) → All AdminFits rows → All (λ r. r.0 < 2 ^ 64) rows
All-cells [] h = tt
All-cells (r ∷ rows) (f, h) = (f.0, All-cells rows h)

-- In a file of rows in strictly ascending order of cells whose numbers fit their fields, the lookup
-- of a cell finds the offset in the cell's row, and no data when it has none.
pub lookup_admin_cell_lem :
    (rows : List AdminRow)
    → Rises (λ r. r.0) rows
    → All AdminFits rows
    → (cell_id : ℕ)
    → lookup_admin_cell (table admin_bytes rows) cell_id
      ≡ done (admin_offset (find_row (λ r. r.0) cell_id rows))
unfolding lookup_admin_cell table find_row
lookup_admin_cell_lem [] rises fits cell_id = refl
lookup_admin_cell_lem (row ∷ rows) rises fits cell_id =
    let all = row ∷ rows in
    let count : length (table admin_bytes all) / 12 ≡ length all =
      omega (arith, length-table admin_bytes 12 all admin_bytes-length) in
    let some_row : (length all == 0) ≡ false = ground arith in
    elim (search_file admin_bytes (λ r. r.0) (λ r. to_le 4 r.1) 12 admin_bytes-length (λ r. refl)
      all rises (All-cells all fits) cell_id) [
        | inl (i, r, e, h, f) ↦
            rw (count, some_row, e, f, offset_at all i h (All-get_elem? AdminFits all i fits h))
        | inr (e, f) ↦ rw (count, some_row, e, f)
      ]
