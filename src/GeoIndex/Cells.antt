-- ===== src/GeoIndex/Cells.antt =====
-- `lookup_geo_cell` and `lookup_admin_cell` of server/src/lib.rs against the rows of the cell file,
-- as docs/binary-format.md lays them out.
use geocoder.Prelude.{
  ℕ, ◌+◌, ◌*◌, ◌/◌, ◌^◌, ◌<◌, ◌≡◌, refl, List, [], ◌∷◌, ◌++◌, append_assoc, append-nil, Option,
  none, some, arith, inl, inr, ◌==◌, length, length-append, get_elem?, All, All-get_elem?, done,
  false,
}
use geocoder.Bytes.{Bytes, to_le, read_le}
use geocoder.Bytes.Layout.{length-to_le}
use geocoder.Bytes.Table.{table, length-table, table_field}
use geocoder.Search.Table.{find_row, Rises}
use geocoder.Search.File.{search_file}
use geocoder.GeoIndex.{GeoCellOffsets, empty_cell, read_offsets, lookup_geo_cell}

-- A row of `geo_cells.bin`.
pub record GeoRow : Type 0 where
  pub cell : ℕ
  pub offsets : GeoCellOffsets

abbrev pub geo_rest : GeoRow → Bytes
geo_rest r = to_le 4 r.offsets.street ++ (to_le 4 r.offsets.addr ++ to_le 4 r.offsets.interp)

abbrev pub geo_bytes : GeoRow → Bytes
geo_bytes r = to_le 8 r.cell ++ geo_rest r

pub record GeoFits (r : GeoRow) : Type 0 where
  pub cell : r.cell < 2 ^ 64
  pub street : r.offsets.street < 2 ^ 32
  pub addr : r.offsets.addr < 2 ^ 32
  pub interp : r.offsets.interp < 2 ^ 32

-- The offsets of a row, or no data.
abbrev pub offsets_of : Option GeoRow → GeoCellOffsets
offsets_of none = empty_cell
offsets_of (some r) = r.offsets

geo_bytes-length : (r : GeoRow) → length (geo_bytes r) ≡ 20
geo_bytes-length r = omega (
  arith,
  length-append (to_le 8 r.cell) (geo_rest r),
  length-append (to_le 4 r.offsets.street) (to_le 4 r.offsets.addr ++ to_le 4 r.offsets.interp),
  length-append (to_le 4 r.offsets.addr) (to_le 4 r.offsets.interp),
  length-to_le 8 r.cell,
  length-to_le 4 r.offsets.street,
  length-to_le 4 r.offsets.addr,
  length-to_le 4 r.offsets.interp,
)

module _ (rows : List GeoRow) (i : ℕ) {r : GeoRow} (h : get_elem? rows i ≡ some r)
    (fits : GeoFits r) where
  abbrev file : Bytes
  file = table geo_bytes rows

  street_at : read_le 4 file (i * 20 + 8) ≡ some r.offsets.street
  street_at = rw (length-to_le 8 r.cell) at (
      table_field geo_bytes 20 rows i 4 r.offsets.street (to_le 8 r.cell)
        (to_le 4 r.offsets.addr ++ to_le 4 r.offsets.interp) geo_bytes-length h refl fits.street)

  addr_at : read_le 4 file (i * 20 + 12) ≡ some r.offsets.addr
  addr_at =
      let before = to_le 8 r.cell ++ to_le 4 r.offsets.street in
      let place : length before ≡ 12 = omega (
        arith,
        length-append (to_le 8 r.cell) (to_le 4 r.offsets.street),
        length-to_le 8 r.cell,
        length-to_le 4 r.offsets.street,
      ) in
      rw place at (
        table_field geo_bytes 20 rows i 4 r.offsets.addr before (to_le 4 r.offsets.interp)
          geo_bytes-length h (simp append_assoc) fits.addr)

  interp_at : read_le 4 file (i * 20 + 16) ≡ some r.offsets.interp
  interp_at =
      let before = to_le 8 r.cell ++ (to_le 4 r.offsets.street ++ to_le 4 r.offsets.addr) in
      let place : length before ≡ 16 = omega (
        arith,
        length-append (to_le 8 r.cell) (to_le 4 r.offsets.street ++ to_le 4 r.offsets.addr),
        length-append (to_le 4 r.offsets.street) (to_le 4 r.offsets.addr),
        length-to_le 8 r.cell,
        length-to_le 4 r.offsets.street,
        length-to_le 4 r.offsets.addr,
      ) in
      rw place at (
        table_field geo_bytes 20 rows i 4 r.offsets.interp before [] geo_bytes-length h
          (rw (append-nil (to_le 4 r.offsets.interp)) (simp append_assoc)) fits.interp)

  read_offsets_lem : read_offsets file (i * 20) ≡ done r.offsets
  unfolding read_offsets
  read_offsets_lem = rw (street_at, addr_at, interp_at) refl

All-cells : (rows : List GeoRow) → All GeoFits rows → All (λ r. r.cell < 2 ^ 64) rows
All-cells [] h = tt
All-cells (r ∷ rows) (f, h) = (f.cell, All-cells rows h)

-- In a file of rows in strictly ascending order of cells whose numbers fit their fields, the lookup
-- of a cell finds the offsets of the cell's row, and no data when it has none.
pub lookup_geo_cell_lem :
    (rows : List GeoRow)
    → Rises (λ r. r.cell) rows
    → All GeoFits rows
    → (cell_id : ℕ)
    → lookup_geo_cell (table geo_bytes rows) cell_id
      ≡ done (offsets_of (find_row (λ r. r.cell) cell_id rows))
unfolding lookup_geo_cell table find_row
lookup_geo_cell_lem [] rises fits cell_id = refl
lookup_geo_cell_lem (row ∷ rows) rises fits cell_id =
    let all = row ∷ rows in
    let count : length (table geo_bytes all) / 20 ≡ length all =
      omega (arith, length-table geo_bytes 20 all geo_bytes-length) in
    let some_row : (length all == 0) ≡ false = ground arith in
    elim (search_file geo_bytes (λ r. r.cell) geo_rest 20 geo_bytes-length (λ r. refl) all rises
      (All-cells all fits) cell_id) [
        | inl (i, r, e, h, f) ↦
            rw (count, some_row, e, f)
              (read_offsets_lem all i h (All-get_elem? GeoFits all i fits h))
        | inr (e, f) ↦ rw (count, some_row, e, f)
      ]
