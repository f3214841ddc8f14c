-- ===== src/Search/File.antt =====
-- The search in a file of rows that begin with a key of eight bytes.
use native.Mathlib.Nat.{add-zero}
use geocoder.Prelude.{
  ℕ, ◌*◌, ◌^◌, ◌<◌, ◌≡◌, refl, List, [], ◌++◌, Option, none, some, ◌⊎◌, inl, inr, length, get_elem?,
  All, All-get_elem?,
}
use geocoder.Bytes.{Bytes, to_le, read_le}
use geocoder.Bytes.Table.{table, table_field}
use geocoder.Search.{Probe, found, absent, panicked, out_of_fuel, binary_search}
use geocoder.Search.Table.{find_row, Rises, search_table, Reports}

module _ {R : Type 0} (row : R → Bytes) (id : R → ℕ) (rest : R → Bytes) (stride : ℕ)
    (even : (r : R) → length (row r) ≡ stride) (keyed : (r : R) → row r ≡ to_le 8 (id r) ++ rest r)
    (rows : List R) (rises : Rises id rows) (wide : All (λ r. id r < 2 ^ 64) rows) where
  abbrev pub key_at : ℕ → Option ℕ
  key_at mid = read_le 8 (table row rows) (mid * stride)

  keys : (i : ℕ) (r : R) → get_elem? rows i ≡ some r → key_at i ≡ some (id r)
  keys i r h = rw add-zero at (
      table_field row stride rows i 8 (id r) [] (rest r) even h (keyed r)
        (All-get_elem? (λ s. id s < 2 ^ 64) rows i wide h))

  -- What the search reports, for each of the two outcomes of a scan.
  abbrev pub Searched : ℕ → Type 0
  Searched key =
      ((i : ℕ) × (r : R) × (binary_search key_at key (length rows) 0 (length rows) ≡ found i)
        × (get_elem? rows i ≡ some r)
        × (find_row id key rows ≡ some r))
      ⊎ ((binary_search key_at key (length rows) 0 (length rows) ≡ absent)
          × (find_row id key rows ≡ none))

  searched :
      (key : ℕ) (p : Probe)
      → binary_search key_at key (length rows) 0 (length rows) ≡ p
      → Reports id key_at key rows rises keys p
      → Searched key
  searched key (found i) e (r, h, same, f) = inl (i, r, e, h, f)
  searched key absent e f = inr (e, f)
  searched key panicked e f = elim f [ ]
  searched key out_of_fuel e f = elim f [ ]

  pub search_file : (key : ℕ) → Searched key
  search_file key = searched key _ refl (search_table id key_at key rows rises keys)
