-- ===== src/Search.antt =====
-- The binary search that server/src writes out in `lookup_cell_offset` (address_points.rs),
-- `lookup_geo_cell` and `lookup_admin_cell` (lib.rs) and `postcode` (postcode.rs):
-- `while lo < hi { let mid = lo + (hi - lo) / 2; … }`. `key_at` is the read of the key at an index,
-- `none` where it panics. `lo + (hi - lo) / 2` and `mid + 1` are at most `hi`, so no sum overflows.
pub mod Correct
pub mod Table
pub mod Sort
pub mod File
pub mod Nearest
use geocoder.Prelude.{ℕ, zero, suc, ◌+◌, ◌-◌, ◌/◌, Option, none, some, ltb, ◌==◌, if◌then◌else◌}

pub data Probe : Type 0 where
  found : ℕ → Probe
  absent panicked out_of_fuel : Probe

unfoldable pub binary_search : (ℕ → Option ℕ) → ℕ → ℕ → ℕ → ℕ → Probe
binary_search key_at key zero lo hi = if ltb lo hi then out_of_fuel else absent
binary_search key_at key (suc fuel) lo hi =
    let mid = lo + (hi - lo) / 2 in
    let right = binary_search key_at key fuel (mid + 1) hi in
    let left = binary_search key_at key fuel lo mid in
    let round : Probe = elim (key_at mid) [
      | none ↦ panicked
      | some k ↦ if k == key then found mid else if ltb k key then right else left
    ] in
    if ltb lo hi then round else absent
