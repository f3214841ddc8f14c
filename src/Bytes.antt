-- ===== src/Bytes.antt =====
-- Byte slices of the memory-mapped index files, and the little-endian integers in them:
-- `from_le_bytes` and `to_le_bytes` of `u16`, `u32` and `u64`. A read outside the slice panics.
pub mod Layout
pub mod Table
pub mod Utf8
use geocoder.Prelude.{
  ℕ, zero, suc, ◌+◌, ◌*◌, ◌/◌, ◌%◌, List, [], ◌∷◌, Option, none, some, leb, if◌then◌else◌, length,
  take, drop, is_empty, ◌==◌, ◌>>=◌,
}

abbrev pub Bytes : Type 0
Bytes = List ℕ

-- `&data[offset..offset + n]`.
unfoldable pub slice : Bytes → ℕ → ℕ → Option Bytes
slice bytes offset n =
    if leb (offset + n) (length bytes) then some (take n (drop offset bytes)) else none

unfoldable pub from_le : Bytes → ℕ
from_le [] = 0
from_le (b ∷ bs) = b + 256 * from_le bs

-- The `n` bytes of a number below `256 ^ n`.
unfoldable pub to_le : ℕ → ℕ → Bytes
to_le zero v = []
to_le (suc n) v = (v % 256) ∷ to_le n (v / 256)

-- `read_u16`, `read_u32` and `read_u64` of server/src/lib.rs, at two, four and eight bytes.
unfoldable pub read_le : ℕ → Bytes → ℕ → Option ℕ
unfolding from_le
read_le n bytes offset = do bs ← slice bytes offset n; some (from_le bs)

-- The bytes before the first NUL, or all: `iter().position(|&b| b == 0)` and the slice up to it.
unfoldable pub until_nul : Bytes → Bytes
until_nul [] = []
until_nul (b ∷ bs) = if b == 0 then [] else b ∷ until_nul bs
