-- ===== src/Postcode/RoundTrip.antt =====
-- The two files that the builder writes, read by the lookup.
use native.Mathlib.Nat.{add-zero}
use geocoder.Prelude.{
  ℕ, ◌+◌, ◌*◌, ◌/◌, ◌^◌, ◌<◌, ◌≡◌, refl, ap, ◌∙◌, List, [], ◌++◌, Option, some, arith, length,
  length-append, All, get_elem?, All-get_elem?, done,
}
use geocoder.Bytes.{Bytes, to_le, read_le}
use geocoder.Bytes.Layout.{length-to_le}
use geocoder.Bytes.Table.{table, length-table, table_field}
use geocoder.Search.{Probe, found, absent, panicked, out_of_fuel, binary_search}
use geocoder.Search.Table.{find_row, Rises, search_table, Reports}
use geocoder.Search.Sort.{
  sort_by_key, find_row-sort_by_key, IsDistinct, All-sort_by_key, sort_by_key-Rises,
}
use geocoder.Postcode.{PostcodeLookup, RawEntry, Interned, to_le_bytes, emit, build, postcode_at}
use geocoder.Postcode.Emit.{
  Best, pool_size, Emitted, emit-Emitted, Fits, answer, read, Serves-Fits, Serves-IsDistinct,
  Serves-answer,
}
use geocoder.Postcode.Pool.{IsStorable}

to_le_bytes-length : (e : RawEntry) → length (to_le_bytes e) ≡ 16
unfolding to_le_bytes
to_le_bytes-length e = omega (
  arith,
  length-append (to_le 8 e.key_hash) (to_le 4 e.postcode_offset ++ to_le 4 e.pad),
  length-append (to_le 4 e.postcode_offset) (to_le 4 e.pad),
  length-to_le 8 e.key_hash,
  length-to_le 4 e.postcode_offset,
  length-to_le 4 e.pad,
)

module _ (rows : List RawEntry) (i : ℕ) {e : RawEntry} (h : get_elem? rows i ≡ some e) where
  read_key : Fits e → read_le 8 (table to_le_bytes rows) (i * 16) ≡ some e.key_hash
  unfolding to_le_bytes
  read_key fits = rw add-zero at (
      table_field to_le_bytes 16 rows i 8 e.key_hash [] (to_le 4 e.postcode_offset ++ to_le 4 e.pad)
        to_le_bytes-length h refl fits.0)

  read_offset : Fits e → read_le 4 (table to_le_bytes rows) (i * 16 + 8) ≡ some e.postcode_offset
  unfolding to_le_bytes
  read_offset fits = rw (length-to_le 8 e.key_hash) at (
      table_field to_le_bytes 16 rows i 4 e.postcode_offset (to_le 8 e.key_hash) (to_le 4 e.pad)
        to_le_bytes-length h refl fits.1)

module _ (rows : List RawEntry) (strings : Bytes) (key : ℕ) (rises : Rises (λ e. e.key_hash) rows)
    (fits : All Fits rows) where
  abbrev index : PostcodeLookup
  index = record { entries = table to_le_bytes rows; strings = strings }

  abbrev key_at : ℕ → Option ℕ
  key_at mid = read_le 8 index.entries (mid * 16)

  keys : (i : ℕ) (e : RawEntry) → get_elem? rows i ≡ some e → key_at i ≡ some e.key_hash
  keys i e h = read_key rows i h (All-get_elem? Fits rows i fits h)

  count : length index.entries / 16 ≡ length rows
  count = omega (arith, length-table to_le_bytes 16 rows to_le_bytes-length)

  probe :
      (p : Probe)
      → binary_search key_at key (length rows) 0 (length rows) ≡ p
      → Reports (λ e. e.key_hash) key_at key rows rises keys p
      → postcode_at index key ≡ done (read strings (find_row (λ e. e.key_hash) key rows))
  unfolding postcode_at
  probe (found i) e (r, h, same, f) =
      rw (postcode_at, count, e, read_offset rows i h (All-get_elem? Fits rows i fits h), f)
  probe absent e f = rw (postcode_at, count, e, f)
  probe panicked e f = elim f [ ]
  probe out_of_fuel e f = elim f [ ]

  postcode_at_table :
      postcode_at index key ≡ done (read strings (find_row (λ e. e.key_hash) key rows))
  postcode_at_table = probe _ refl (search_table (λ e. e.key_hash) key_at key rows rises keys)

-- Keys are distinct u64s, postcodes can be stored, and the pool stays below 2 ^ 32 bytes.
pub record IsBuildable (best : Best) : Type 0 where
  pub distinct : IsDistinct (λ b. b.0) best
  pub wide : All (λ b. b.0 < 2 ^ 64) best
  pub storable : All (λ b. IsStorable b.1) best
  pub small : pool_size best < 2 ^ 32

module _ (best : Best) (buildable : IsBuildable best) where
  abbrev nothing_interned : Interned
  nothing_interned = record { strings = []; offsets = [] }

  abbrev entries : List RawEntry
  entries = (emit best nothing_interned).0

  abbrev pool : Bytes
  pool = (emit best nothing_interned).1.strings

  emitted : Emitted best nothing_interned entries (emit best nothing_interned).1
  emitted = emit-Emitted best nothing_interned tt (omega (arith, buildable.small))

  pool-small : length pool < 2 ^ 32
  pool-small = omega (arith, emitted.size, buildable.small)

  pub postcode_at-build :
      (key : ℕ) → postcode_at (build best) key ≡ done (answer (find_row (λ b. b.0) key best))
  unfolding build
  postcode_at-build key =
      let distinct =
        Serves-IsDistinct pool pool-small best entries emitted.serves buildable.distinct in
      postcode_at_table (sort_by_key (λ e. e.key_hash) entries) pool key
        (sort_by_key-Rises (λ e. e.key_hash) entries distinct)
        (All-sort_by_key (λ e. e.key_hash) Fits entries
          (Serves-Fits pool pool-small best entries emitted.serves buildable.wide))
      ∙ ap (λ r. done (read pool r)) (find_row-sort_by_key (λ e. e.key_hash) key entries)
      ∙ ap done (Serves-answer pool pool-small key best entries emitted.serves buildable.storable)
