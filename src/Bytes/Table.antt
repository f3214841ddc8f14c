-- ===== src/Bytes/Table.antt =====
-- A file of records of one length: where each record and each of its fields stands.
use geocoder.Prelude.{
  ℕ, zero, suc, ◌+◌, ◌*◌, ◌^◌, ◌<◌, ◌≡◌, sym, ap, ◌∙◌, List, [], ◌∷◌, ◌++◌, append_assoc, some,
  arith, length, length-append, get_elem?,
}
use geocoder.Bytes.{Bytes, to_le, read_le}
use geocoder.Bytes.Layout.{read_le_lem}

module _ {ℓ} {R : Type ℓ} (row : R → Bytes) where
  -- The records one behind the other.
  unfoldable pub table : List R → Bytes
  table [] = []
  table (r ∷ rows) = row r ++ table rows

  pub table_get :
      (stride : ℕ) (rows : List R) (i : ℕ) {r : R}
      → ((r : R) → length (row r) ≡ stride)
      → get_elem? rows i ≡ some r
      → (pre post : Bytes) × (table rows ≡ pre ++ (row r ++ post)) × (length pre ≡ i * stride)
  unfolding table
  table_get stride [] i even h = absurd (cc)
  table_get stride (x ∷ rows) zero {r} even h =
      ([], table rows, ap (λ o. row o ++ table rows) (cc), omega arith)
  table_get stride (x ∷ rows) (suc i) {r} even h =
      let (pre, post, e, l) = table_get stride rows i even h in
      (
        row x ++ pre,
        post,
        ap (λ t. row x ++ t) e ∙ sym (append_assoc (row x) pre (row r ++ post)),
        omega (arith, length-append (row x) pre, even x),
      )

  pub length-table :
      (stride : ℕ) (rows : List R)
      → ((r : R) → length (row r) ≡ stride)
      → length (table rows) ≡ length rows * stride
  unfolding table
  length-table stride [] even = omega arith
  length-table stride (x ∷ rows) even =
      omega (arith, length-append (row x) (table rows), even x, length-table stride rows even)

  -- The field of `n` bytes behind `before` in record `i`.
  pub table_field :
      (stride : ℕ) (rows : List R) (i n v : ℕ) {r : R} (before after : Bytes)
      → ((r : R) → length (row r) ≡ stride)
      → get_elem? rows i ≡ some r
      → row r ≡ before ++ (to_le n v ++ after)
      → v < 256 ^ n
      → read_le n (table rows) (i * stride + length before) ≡ some v
  table_field stride rows i n v {r} before after even h e fits =
      let (pre, post, t, l) = table_get stride rows i even h in
      let spelled : table rows ≡ (pre ++ before) ++ (to_le n v ++ (after ++ post)) =
        t ∙ ap (λ b. pre ++ (b ++ post)) e ∙ simp append_assoc in
      let place : i * stride + length before ≡ length (pre ++ before) =
        omega (arith, l, length-append pre before) in
      rw (spelled, place) (read_le_lem n v (pre ++ before) (after ++ post) fits)
