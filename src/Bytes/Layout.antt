-- ===== src/Bytes/Layout.antt =====
-- Reading what was written: single integers, and fields of the records of a file.
use native.Mathlib.Nat.{pow-suc}
use geocoder.Prelude.{
  ℕ, zero, suc, ◌/◌, ◌^◌, ◌<◌, ◌≡◌, refl, ap, List, [], ◌∷◌, ◌++◌, some, arith, length, take,
  length-append, drop-append,
}
use geocoder.Bytes.{Bytes, slice, from_le, to_le, read_le}

pub length-to_le : (n v : ℕ) → length (to_le n v) ≡ n
unfolding to_le
length-to_le zero v = refl
length-to_le (suc n) v = ap suc (length-to_le n (v / 256))

pub from_le-to_le : (n v : ℕ) → v < 256 ^ n → from_le (to_le n v) ≡ v
unfolding from_le to_le
from_le-to_le zero v h = omega arith
from_le-to_le (suc n) v h =
    omega (arith, pow-suc 256 n, from_le-to_le n (v / 256) (omega (arith, pow-suc 256 n)))

take-length {ℓ} : {A : Type ℓ} (xs ys : List A) → take (length xs) (xs ++ ys) ≡ xs
take-length [] ys = refl
take-length (x ∷ xs) ys = ap (λ r. x ∷ r) (take-length xs ys)

slice_lem :
    (pre mid post : Bytes) → slice (pre ++ (mid ++ post)) (length pre) (length mid) ≡ some mid
unfolding slice
slice_lem pre mid post =
    rw
      (
        length-append pre (mid ++ post),
        length-append mid post,
        drop-append pre (mid ++ post),
        take-length mid post,
      )
      (ground arith)

-- An integer is read back where it was written.
pub read_le_lem :
    (n v : ℕ) (pre post : Bytes)
    → v < 256 ^ n
    → read_le n (pre ++ (to_le n v ++ post)) (length pre) ≡ some v
unfolding read_le
read_le_lem n v pre post h =
    let e : slice (pre ++ (to_le n v ++ post)) (length pre) n ≡ some (to_le n v) =
      rw (length-to_le n v) at (slice_lem pre (to_le n v) post) in
    rw (e, from_le-to_le n v h)
