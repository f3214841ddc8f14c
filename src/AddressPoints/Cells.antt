-- ===== src/AddressPoints/Cells.antt =====
-- Reading one run of entries, and the behaviour of the readers on files that hold no such run.
use geocoder.Prelude.{
  ℕ, zero, suc, ◌+◌, ◌*◌, ◌%◌, ◌^◌, ◌≤◌, ◌≡◌, refl, List, [], ◌∷◌, ◌++◌, append_assoc, some, arith,
  length, length-append, done, le→ltb,
}
use geocoder.Bytes.{Bytes, read_le, to_le}
use geocoder.Bytes.Layout.{read_le_lem, length-to_le}
use geocoder.AddressPoints.{read_ids, for_each_point_in_cell, write_ids}

-- `n` numbers from `start` on.
abbrev pub count_up : ℕ → ℕ → List ℕ
count_up start zero = []
count_up start (suc n) = start ∷ count_up (start + 1) n

pub length-write_ids : (start n : ℕ) → length (write_ids start n) ≡ n * 4
unfolding write_ids
length-write_ids start zero = refl
length-write_ids start (suc n) = omega (
  arith,
  length-append (to_le 4 (start % 2 ^ 32)) (write_ids (start + 1) n),
  length-to_le 4 (start % 2 ^ 32),
  length-write_ids (start + 1) n,
)

read_ids_lem :
    (n start i ids_start : ℕ) (pre post : Bytes)
    → start + n ≤ 2 ^ 32
    → length pre ≡ ids_start + i * 4
    → read_ids (pre ++ (write_ids start n ++ post)) ids_start n i ≡ done (count_up start n)
unfolding read_ids write_ids
read_ids_lem zero start i ids_start pre post small e = refl
read_ids_lem (suc n) start i ids_start pre post small e =
    let id : start % 2 ^ 32 ≡ start = omega arith in
    let here : read_le 4 (pre ++ ((to_le 4 (start % 2 ^ 32) ++ write_ids (start + 1) n) ++ post))
          (ids_start + i * 4)
        ≡ some start =
      rw (id, ← e, append_assoc)
        (read_le_lem 4 start pre (write_ids (start + 1) n ++ post) (omega arith)) in
    let regroup : pre ++ ((to_le 4 (start % 2 ^ 32) ++ write_ids (start + 1) n) ++ post)
        ≡ (pre ++ to_le 4 (start % 2 ^ 32)) ++ (write_ids (start + 1) n ++ post) =
      simp append_assoc in
    let later : read_ids (pre ++ ((to_le 4 (start % 2 ^ 32) ++ write_ids (start + 1) n) ++ post))
          ids_start n (i + 1)
        ≡ done (count_up (start + 1) n) =
      rw regroup (
        read_ids_lem n (start + 1) (i + 1) ids_start (pre ++ to_le 4 (start % 2 ^ 32)) post
          (omega arith)
          (omega (
            arith,
            length-append pre (to_le 4 (start % 2 ^ 32)),
            length-to_le 4 (start % 2 ^ 32),
          ))) in
    rw (here, later)

-- A run of entries is read back where it stands.
pub for_each_point_in_cell_lem :
    (n start : ℕ) (pre post : Bytes)
    → n ≤ 65535
    → start + n ≤ 2 ^ 32
    → for_each_point_in_cell (pre ++ ((to_le 2 n ++ write_ids start n) ++ post)) (length pre)
      ≡ done (count_up start n)
unfolding for_each_point_in_cell
for_each_point_in_cell_lem n start pre post few small =
    let file = pre ++ ((to_le 2 n ++ write_ids start n) ++ post) in
    let count : read_le 2 file (length pre) ≡ some n =
      rw append_assoc (read_le_lem 2 n pre (write_ids start n ++ post) (omega arith)) in
    let size : length file ≡ length pre + 2 + n * 4 + length post = omega (
      arith,
      length-append pre ((to_le 2 n ++ write_ids start n) ++ post),
      length-append (to_le 2 n ++ write_ids start n) post,
      length-append (to_le 2 n) (write_ids start n),
      length-to_le 2 n,
      length-write_ids start n,
    ) in
    let regroup : file ≡ (pre ++ to_le 2 n) ++ (write_ids start n ++ post) = simp append_assoc in
    let ids : read_ids file (length pre + 2) n 0 ≡ done (count_up start n) = rw regroup (
      read_ids_lem n start 0 (length pre + 2) (pre ++ to_le 2 n) post small
        (omega (arith, length-append pre (to_le 2 n), length-to_le 2 n))) in
    rw (
      le→ltb (length file) (length pre + 2) (omega arith),
      count,
      le→ltb (length file) (length pre + 2 + n * 4) (omega arith),
      ids,
    )
