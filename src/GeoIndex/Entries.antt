-- ===== src/GeoIndex/Entries.antt =====
-- `for_each_entry` and `get_string` of server/src/lib.rs.
use geocoder.Prelude.{
  ℕ, ◌+◌, ◌*◌, ◌^◌, ◌≤◌, ◌<◌, ◌≡◌, refl, List, [], ◌∷◌, ◌++◌, append_assoc, some, arith, leb,
  le→ltb, length, length-append, drop, done, All, if◌then◌else◌, ◌==◌, Bool-cases, true, inl, inr,
}
use geocoder.Bytes.{Bytes, read_le, to_le, until_nul}
use geocoder.Bytes.Layout.{read_le_lem, length-to_le}
use geocoder.Bytes.Table.{table, length-table}
use geocoder.Bytes.Utf8.{from_utf8}
use geocoder.AddressPoints.{read_ids}
use geocoder.Postcode.Pool.{IsStorable, Holds, Holds-lt, read_cstr_lem}
use geocoder.Postcode.{read_cstr}
use geocoder.GeoIndex.{no_data, for_each_entry, get_string}

abbrev pub id_bytes : ℕ → Bytes
id_bytes id = to_le 4 id

-- An entry: the number of ids and the ids.
abbrev pub entry_bytes : List ℕ → Bytes
entry_bytes ids = to_le 2 (length ids) ++ table id_bytes ids

read_ids-table :
    (ids : List ℕ) (i ids_start : ℕ) (pre post : Bytes)
    → All (λ id. id < 2 ^ 32) ids
    → length pre ≡ ids_start + i * 4
    → read_ids (pre ++ (table id_bytes ids ++ post)) ids_start (length ids) i ≡ done ids
unfolding read_ids table
read_ids-table [] i ids_start pre post wide e = refl
read_ids-table (id ∷ ids) i ids_start pre post (w, wide) e =
    let here : read_le 4 (pre ++ ((to_le 4 id ++ table id_bytes ids) ++ post)) (ids_start + i * 4)
        ≡ some id =
      rw (← e, append_assoc) (read_le_lem 4 id pre (table id_bytes ids ++ post) w) in
    let regroup : pre ++ ((to_le 4 id ++ table id_bytes ids) ++ post)
        ≡ (pre ++ to_le 4 id) ++ (table id_bytes ids ++ post) =
      simp append_assoc in
    let later : read_ids (pre ++ ((to_le 4 id ++ table id_bytes ids) ++ post)) ids_start
          (length ids) (i + 1)
        ≡ done ids =
      rw regroup (
        read_ids-table ids (i + 1) ids_start (pre ++ to_le 4 id) post wide
          (omega (arith, e, length-append pre (to_le 4 id), length-to_le 4 id))) in
    rw (here, later)

-- An entry of at most 65535 u32 ids is read back wherever it stands, unless its offset is the
-- mark for no data; at that mark nothing is read.
pub for_each_entry_lem :
    (ids : List ℕ) (pre post : Bytes)
    → length ids ≤ 65535
    → All (λ id. id < 2 ^ 32) ids
    → for_each_entry (pre ++ (entry_bytes ids ++ post)) (length pre)
      ≡ done (if length pre == no_data then [] else ids)
unfolding for_each_entry
for_each_entry_lem ids pre post few wide =
    let file = pre ++ (entry_bytes ids ++ post) in
    let count : read_le 2 file (length pre) ≡ some (length ids) =
      rw append_assoc (read_le_lem 2 (length ids) pre (table id_bytes ids ++ post) (omega arith)) in
    let size : length file ≡ length pre + 2 + length ids * 4 + length post = omega (
      arith,
      length-append pre (entry_bytes ids ++ post),
      length-append (entry_bytes ids) post,
      length-append (to_le 2 (length ids)) (table id_bytes ids),
      length-to_le 2 (length ids),
      length-table id_bytes 4 ids (length-to_le 4),
    ) in
    let regroup : file ≡ (pre ++ to_le 2 (length ids)) ++ (table id_bytes ids ++ post) =
      simp append_assoc in
    let read : read_ids file (length pre + 2) (length ids) 0 ≡ done ids = rw regroup (
      read_ids-table ids 0 (length pre + 2) (pre ++ to_le 2 (length ids)) post wide
        (omega (arith, length-append pre (to_le 2 (length ids)), length-to_le 2 (length ids)))) in
    elim (Bool-cases (length pre == no_data)) [
      | inl mark ↦ rw mark
      | inr other ↦ rw (
        other,
        le→ltb (length file) (length pre + 2) (omega arith),
        count,
        le→ltb (length file) (length pre + 2 + length ids * 4) (omega arith),
        read,
      )
    ]

-- At every offset but zero, `get_string` reads the string that the pool holds there.
pub get_string_lem :
    (strings s : Bytes) (offset : ℕ)
    → IsStorable s
    → Holds strings s offset
    → get_string strings offset ≡ done (if offset == 0 then [] else s)
unfolding get_string read_cstr
get_string_lem strings s offset ok h =
    let fits : leb offset (length strings) ≡ true = ground (arith, Holds-lt strings s offset h) in
    let text : from_utf8 (until_nul (drop offset strings)) ≡ some s =
      rw fits at (read_cstr_lem strings s offset ok h) in
    elim (Bool-cases (offset == 0)) [
      | inl zero_mark ↦ rw zero_mark
      | inr other ↦ rw (other, fits, text)
    ]
