-- ===== src/Postcode.antt =====
-- server/src/postcode.rs and the emitting pass of server/src/bin/build_postcode_lookup.rs: a table
-- of hashed (state, locality) keys and a pool of NUL-terminated postcodes. Strings are their bytes.
pub mod Normalise
pub mod Pool
pub mod Emit
pub mod RoundTrip
pub mod Query
pub mod Modal
use Prim.Native.Nat.{bit_xor}
use geocoder.Prelude.{
  ℕ, ◌+◌, ◌*◌, ◌/◌, ◌%◌, ◌^◌, ◌<◌, Bool, true, false, ◌||◌, List, [], ◌∷◌, ◌++◌, map, Option, none,
  some, if◌then◌else◌, length, drop, leb, is_empty, text_eq, Text, Outcome, done, panic, no_fuel,
}
use geocoder.Bytes.{Bytes, read_le, to_le, until_nul}
use geocoder.Bytes.Table.{table}
use geocoder.Bytes.Utf8.{from_utf8}
use Normalise.{normalise_locality}
use geocoder.Strings.Unicode.{CharTables, as_bytes}
use geocoder.Search.{found, absent, panicked, out_of_fuel, binary_search}
use geocoder.Search.Sort.{sort_by_key}

abbrev pub fnv_offset : ℕ
fnv_offset = 0xcbf29ce484222325

abbrev pub fnv_prime : ℕ
fnv_prime = 0x00000100000001b3

-- `hash ^= b; hash = hash.wrapping_mul(FNV_PRIME)` for each byte.
unfoldable pub fnv1a : ℕ → Bytes → ℕ
fnv1a hash [] = hash
fnv1a hash (b ∷ bytes) = fnv1a (bit_xor hash b * fnv_prime % 2 ^ 64) bytes

-- The tables of the standard library are an argument.
module _ (tables : CharTables) where
  unfoldable pub lookup_hash : Text → Text → ℕ
  unfolding fnv1a
  lookup_hash state_abbr locality =
      let state = normalise_locality tables state_abbr in
      let loc = normalise_locality tables locality in
      fnv1a (fnv1a (fnv1a fnv_offset (as_bytes state)) (b'|' ∷ [])) (as_bytes loc)

-- `read_cstr`: `get(offset..)`, the bytes up to the first NUL, `from_utf8(…).ok()`.
unfoldable pub read_cstr : Bytes → ℕ → Option Bytes
unfolding until_nul from_utf8
read_cstr pool offset =
    if leb offset (length pool) then from_utf8 (until_nul (drop offset pool)) else none

-- `PostcodeLookup`: the two mapped files.
pub record PostcodeLookup : Type 0 where
  pub entries : Bytes
  pub strings : Bytes

abbrev pub entry_size : ℕ
entry_size = 16

-- The search of `postcode` for a key.
unfoldable pub postcode_at : PostcodeLookup → ℕ → Outcome (Option Bytes)
unfolding read_cstr
postcode_at index key =
    let count = length index.entries / entry_size in
    elim (binary_search (λ mid. read_le 8 index.entries (mid * entry_size)) key count 0 count) [
      | found mid ↦ elim (read_le 4 index.entries (mid * entry_size + 8)) [
        | none ↦ panic
        | some str_offset ↦ done (read_cstr index.strings str_offset)
      ]
      | absent ↦ done none
      | panicked ↦ panic
      | out_of_fuel ↦ no_fuel
    ]

module _ (tables : CharTables) where
  unfoldable pub postcode : PostcodeLookup → Text → Text → Outcome (Option Bytes)
  unfolding postcode_at
  postcode index state_abbr locality =
      if is_empty state_abbr || is_empty locality
      then done none
      else postcode_at index (lookup_hash tables state_abbr locality)

pub record RawEntry : Type 0 where
  pub key_hash : ℕ
  pub postcode_offset : ℕ
  pub pad : ℕ

-- `RawEntry::to_le_bytes`.
unfoldable pub to_le_bytes : RawEntry → Bytes
to_le_bytes e = to_le 8 e.key_hash ++ (to_le 4 e.postcode_offset ++ to_le 4 e.pad)

-- The closure `intern`: the pool so far, and the offset of each string in it.
pub record Interned : Type 0 where
  pub strings : Bytes
  pub offsets : List (Bytes × ℕ)

unfoldable pub offset_of : Bytes → List (Bytes × ℕ) → Option ℕ
unfolding text_eq
offset_of s [] = none
offset_of s ((t, o) ∷ offsets) = if text_eq t s then some o else offset_of s offsets

unfoldable pub intern : Bytes → Interned → ℕ × Interned
unfolding offset_of
intern s pool = elim (offset_of s pool.offsets) [
  | some o ↦ (o, pool)
  | none ↦
      let offset = length pool.strings % 2 ^ 32 in
      (
        offset,
        record { strings = pool.strings ++ (s ++ 0 ∷ []); offsets = (s, offset) ∷ pool.offsets },
      )
]

-- The loop that pushes an entry for each key and interns its postcode.
unfoldable pub emit : List (ℕ × Bytes) → Interned → List RawEntry × Interned
unfolding intern
emit [] pool = ([], pool)
emit ((key, postcode) ∷ best) pool =
    let (offset, pool') = intern postcode pool in
    let (entries, pool'') = emit best pool' in
    (record { key_hash = key; postcode_offset = offset; pad = 0 } ∷ entries, pool'')

-- The pass that writes both files from the best postcode of each key. The order in which the hash
-- map `best` is walked is that of the list.
unfoldable pub build : List (ℕ × Bytes) → PostcodeLookup
unfolding emit sort_by_key table to_le_bytes
build best =
    let (entries, pool) = emit best (record { strings = []; offsets = [] }) in
    record {
      entries = table to_le_bytes (sort_by_key (λ e. e.key_hash) entries);
      strings = pool.strings;
    }
