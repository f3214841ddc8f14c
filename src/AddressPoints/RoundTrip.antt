-- ===== src/AddressPoints/RoundTrip.antt =====
-- The cell index that `write_output` writes, read by the query side.
use native.Mathlib.Nat.{add-zero}
use geocoder.Prelude.{
  ℕ, zero, suc, ◌+◌, ◌*◌, ◌/◌, ◌%◌, ◌^◌, ◌≤◌, ◌<◌, min, ◌≡◌, refl, ap, sym, ◌∙◌, subst, List, [],
  ◌∷◌, ◌++◌, append_assoc, append-nil, Option, none, some, arith, ◌==◌, length, length-append,
  length-drop, drop, take, get_elem?, All, All-drop, done, Bool-cases, inl, inr,
}
use geocoder.Bytes.{Bytes, to_le, read_le}
use geocoder.Bytes.Layout.{length-to_le}
use geocoder.Bytes.Table.{table, length-table, table_field}
use geocoder.Search.{Probe, found, absent, panicked, out_of_fuel, binary_search}
use geocoder.Search.Table.{find_row, Rises, search_table, Reports}
use geocoder.AddressPoints.{
  Output, run_length, write_ids, write_output, lookup_cell_offset, for_each_point_in_cell, cell_ids,
}
use geocoder.AddressPoints.Cells.{count_up, length-write_ids, for_each_point_in_cell_lem}
use geocoder.AddressPoints.Groups.{Row, cell_row, entry_row, runs, write_runs_lem}
use geocoder.AddressPoints.Places.{positions, IsSorted, runs-Rises, Places, find_row-Places}

-- Where a row's entries stand, and the bounds of its numbers.
record Stands (base limit : ℕ) (rows : List Row) (row : Row) : Type 0 where
  pre : Bytes
  post : Bytes
  spelled : table entry_row rows ≡ pre ++ (entry_row row ++ post)
  place : base + length pre ≡ row.offset
  few : row.count ≤ 65535
  low : row.offset < 2 ^ 32
  narrow : row.cell < 2 ^ 64
  within : row.start + row.count ≤ limit

length-entry_row : (r : Row) → length (entry_row r) ≡ 2 + r.count * 4
length-entry_row r = omega (
  arith,
  length-append (to_le 2 r.count) (write_ids r.start r.count),
  length-to_le 2 r.count,
  length-write_ids r.start r.count,
)

module _ {P : Type 0} where
  run_length-le : (cell : ℕ) (records : List (ℕ × P)) → run_length cell records ≤ length records
  unfolding run_length
  run_length-le cell [] = omega arith
  run_length-le cell ((c, p) ∷ records) = ground (arith, run_length-le cell records)

  runs-Stands :
      (fuel : ℕ) (records : List (ℕ × P)) (start offset i : ℕ) {row : Row}
      → length records ≤ fuel
      → offset + length records * 6 < 2 ^ 32
      → All (λ r. r.0 < 2 ^ 64) records
      → get_elem? (runs fuel records start offset) i ≡ some row
      → Stands offset (start + length records) (runs fuel records start offset) row
  unfolding runs table
  runs-Stands zero [] start offset i le small wide e = absurd (cc)
  runs-Stands (suc fuel) [] start offset i le small wide e = absurd (cc)
  runs-Stands zero (r ∷ records) start offset i le small wide e = absurd (omega arith)
  runs-Stands (suc fuel) ((cell, p) ∷ records) start offset zero {row} le small (w, _) e =
      let n = run_length cell records in
      let head : Row = record {
        cell = cell;
        start = start;
        count = min (suc n) 65535;
        offset = offset;
      } in
      let rest =
        table entry_row
          (runs fuel (drop n records) (start + suc n) ((offset + 2 + head.count * 4) % 2 ^ 32)) in
      let q : head ≡ row = cc in
      subst (Stands offset (start + suc (length records)) _) q (record {
        pre = [];
        post = rest;
        spelled = refl;
        place = omega arith;
        few = omega arith;
        low = omega arith;
        narrow = w;
        within = omega (arith, run_length-le cell records);
      })
  runs-Stands (suc fuel) ((cell, p) ∷ records) start offset (suc i) {row} le small (_, wide) e =
      let n = run_length cell records in
      let head : Row = record {
        cell = cell;
        start = start;
        count = min (suc n) 65535;
        offset = offset;
      } in
      let next = (offset + 2 + head.count * 4) % 2 ^ 32 in
      let fits : next ≡ offset + 2 + head.count * 4 = omega (arith, run_length-le cell records) in
      let later : Stands next (start + suc n + length (drop n records))
          (runs fuel (drop n records) (start + suc n) next) row =
        runs-Stands fuel (drop n records) (start + suc n) next i
          (omega (arith, length-drop n records))
          (omega (arith, length-drop n records, run_length-le cell records))
          (All-drop (λ r. r.0 < 2 ^ 64) n records wide) e in
      record {
        pre = entry_row head ++ later.pre;
        post = later.post;
        spelled =
            ap (λ t. entry_row head ++ t) later.spelled
            ∙ sym (append_assoc (entry_row head) later.pre (entry_row row ++ later.post));
        place =
            omega
              (arith, later.place, length-append (entry_row head) later.pre, length-entry_row head);
        few = later.few;
        low = later.low;
        narrow = later.narrow;
        within = omega (arith, later.within, length-drop n records, run_length-le cell records);
      }

cell_row-length : (r : Row) → length (cell_row r) ≡ 12
cell_row-length r = omega (
  arith,
  length-append (to_le 8 r.cell) (to_le 4 r.offset),
  length-to_le 8 r.cell,
  length-to_le 4 r.offset,
)

module _ (rows : List Row) (i : ℕ) {row : Row} (h : get_elem? rows i ≡ some row) where
  read_cell : row.cell < 2 ^ 64 → read_le 8 (table cell_row rows) (i * 12) ≡ some row.cell
  read_cell narrow = rw add-zero at (
      table_field cell_row 12 rows i 8 row.cell [] (to_le 4 row.offset) cell_row-length h refl
        narrow)

  read_offset : row.offset < 2 ^ 32 → read_le 4 (table cell_row rows) (i * 12 + 8) ≡ some row.offset
  read_offset low = rw (length-to_le 8 row.cell) at (
      table_field cell_row 12 rows i 4 row.offset (to_le 8 row.cell) [] cell_row-length h
        (ap (λ b. to_le 8 row.cell ++ b) (sym (append-nil (to_le 4 row.offset)))) low)

-- What the search of the cells file gives for a cell, by the row that the file has for it.
abbrev sought : Option Row → Option ℕ
sought none = none
sought (some row) = some row.offset

module _ (rows : List Row) (c : ℕ) (rises : Rises (λ r. r.cell) rows)
    (narrow : (i : ℕ) (row : Row) → get_elem? rows i ≡ some row → row.cell < 2 ^ 64)
    (low : (i : ℕ) (row : Row) → get_elem? rows i ≡ some row → row.offset < 2 ^ 32) where
  abbrev cells : Bytes
  cells = table cell_row rows

  abbrev key_at : ℕ → Option ℕ
  key_at mid = read_le 8 cells (mid * 12)

  cells_count : length cells / 12 ≡ length rows
  cells_count = omega (arith, length-table cell_row 12 rows cell_row-length)

  lookup_probe :
      (p : Probe)
      → binary_search key_at c (length rows) 0 (length rows) ≡ p
      → Reports (λ r. r.cell) key_at c rows rises (λ i r e. read_cell rows i e (narrow i r e)) p
      → lookup_cell_offset cells c ≡ done (sought (find_row (λ r. r.cell) c rows))
  unfolding lookup_cell_offset
  lookup_probe (found i) e (r, h, same, f) =
      rw (lookup_cell_offset, cells_count, e, read_offset rows i h (low i r h), f)
  lookup_probe absent e f = rw (lookup_cell_offset, cells_count, e, f)
  lookup_probe panicked e f = elim f [ ]
  lookup_probe out_of_fuel e f = elim f [ ]

  lookup_table : lookup_cell_offset cells c ≡ done (sought (find_row (λ r. r.cell) c rows))
  lookup_table =
      lookup_probe _ refl (
        search_table (λ r. r.cell) key_at c rows rises (λ i r e. read_cell rows i e (narrow i r e)))

module _ {P : Type 0} (records : List (ℕ × P)) (c : ℕ) (sorted : IsSorted records)
    (wide : All (λ r. r.0 < 2 ^ 64) records) (small : length records * 6 < 2 ^ 32) where
  abbrev rows : List Row
  rows = runs (length records) records 0 0

  stands :
      (i : ℕ) (row : Row) → get_elem? rows i ≡ some row → Stands 0 (0 + length records) rows row
  stands i row e = runs-Stands (length records) records 0 0 i (omega arith) (omega arith) wide e

  find_row-index :
      (rows' : List Row) {row : Row}
      → find_row (λ r. r.cell) c rows' ≡ some row
      → (i : ℕ) × (get_elem? rows' i ≡ some row)
  unfolding find_row
  find_row-index [] e = absurd (cc)
  find_row-index (x ∷ xs) e = elim (Bool-cases (x.cell == c)) [
    | inl same ↦ (0, rw same at e)
    | inr other ↦ let (i, h) = find_row-index xs (rw other at e) in (suc i, h)
  ]

  read_row :
      (o : Option Row)
      → find_row (λ r. r.cell) c rows ≡ o
      → Places o (positions c 0 records)
      → cell_ids (table cell_row rows) (table entry_row rows) c
        ≡ done (take 65535 (positions c 0 records))
  unfolding cell_ids
  read_row none e h = rw (
    lookup_table rows c (runs-Rises (length records) records 0 0 sorted)
        (λ i r e. (stands i r e).narrow) (λ i r e. (stands i r e).low),
    e,
    h,
  )
  read_row (some row) e h =
      let (i, f) = find_row-index rows e in
      let s = stands i row f in
      let entries : for_each_point_in_cell (table entry_row rows) row.offset
          ≡ done (count_up row.start row.count) =
        let at : length s.pre ≡ row.offset = omega (arith, s.place) in
        rw (s.spelled, ← at)
          (for_each_point_in_cell_lem row.count row.start s.pre s.post s.few
            (omega (arith, s.within))) in
      rw (
        lookup_table rows c (runs-Rises (length records) records 0 0 sorted)
            (λ i r e. (stands i r e).narrow) (λ i r e. (stands i r e).low),
        e,
        h,
        entries,
      )

  -- The reader, given the two files that the writer makes of records in ascending order of cells,
  -- visits for every cell the ids of exactly that cell's records, in order and at most 65535 of
  -- them, when the cell ids fit a u64 and there are fewer than 2 ^ 32 / 6 records.
  pub cell_ids-write_output :
      (out : Output) × (write_output records ≡ done out)
      × (cell_ids out.cells out.entries c ≡ done (take 65535 (positions c 0 records)))
  unfolding write_output
  cell_ids-write_output = (
    record { cells = table cell_row rows; entries = table entry_row rows },
    write_runs_lem (length records) records 0 0 (record { cells = []; entries = [] }) (omega arith),
    read_row _ refl (find_row-Places c (length records) records 0 0 (omega arith) sorted),
  )
