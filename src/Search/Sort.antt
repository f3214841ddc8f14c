-- ===== src/Search/Sort.antt =====
-- `sort_by_key` of a slice, which is stable: a row goes before the rows with the same key that
-- stood behind it.
use geocoder.Prelude.{
  ℕ, ◌<◌, ◌≡◌, ◌≢◌, refl, List, [], ◌∷◌, some, inl, inr, arith, leb, ◌==◌, if◌then◌else◌, All,
  Bool-cases,
}
use geocoder.Search.Table.{find_row, Rises}

module _ {R : Type 0} (id : R → ℕ) where
  unfoldable pub insert : R → List R → List R
  insert r [] = r ∷ []
  insert r (s ∷ rows) = if leb (id r) (id s) then r ∷ s ∷ rows else s ∷ insert r rows

  unfoldable pub sort_by_key : List R → List R
  unfolding insert
  sort_by_key [] = []
  sort_by_key (r ∷ rows) = insert r (sort_by_key rows)

  find_row-insert :
      (key : ℕ) (r : R) (rows : List R)
      → find_row id key (insert r rows) ≡ (if id r == key then some r else find_row id key rows)
  unfolding insert find_row
  find_row-insert key r [] = refl
  find_row-insert key r (s ∷ rows) = ground (arith, find_row-insert key r rows)

  -- Sorting does not change which row a scan finds.
  pub find_row-sort_by_key :
      (key : ℕ) (rows : List R) → find_row id key (sort_by_key rows) ≡ find_row id key rows
  unfolding sort_by_key find_row
  find_row-sort_by_key key [] = refl
  find_row-sort_by_key key (r ∷ rows) =
      rw (find_row-insert key r (sort_by_key rows), find_row-sort_by_key key rows)

  -- No two rows have the same key.
  abbrev pub IsDistinct : List R → Type 0
  IsDistinct [] = Unit
  IsDistinct (r ∷ rows) = All (λ s. id r ≢ id s) rows × IsDistinct rows

  module _ {κ} (P : R → Type κ) where
    All-insert : (r : R) (rows : List R) → P r → All P rows → All P (insert r rows)
    unfolding insert
    All-insert r [] hr h = (hr, tt)
    All-insert r (s ∷ rows) hr (hs, h) = elim (Bool-cases (leb (id r) (id s))) [
      | inl le ↦ rw le (hr, (hs, h))
      | inr gt ↦ rw gt (hs, All-insert r rows hr h)
    ]

    pub All-sort_by_key : (rows : List R) → All P rows → All P (sort_by_key rows)
    unfolding sort_by_key
    All-sort_by_key [] h = tt
    All-sort_by_key (r ∷ rows) (hr, h) = All-insert r (sort_by_key rows) hr (All-sort_by_key rows h)

  below-All :
      (a b : ℕ) (rows : List R) → a < b → All (λ s. b < id s) rows → All (λ s. a < id s) rows
  below-All a b [] lt h = tt
  below-All a b (s ∷ rows) lt (hs, h) = (omega arith, below-All a b rows lt h)

  insert-Rises :
      (r : R) (rows : List R)
      → All (λ s. id r ≢ id s) rows
      → Rises id rows
      → Rises id (insert r rows)
  unfolding insert
  insert-Rises r [] ne h = (tt, tt)
  insert-Rises r (s ∷ rows) (n, ne) (hs, h) = elim (Bool-cases (leb (id r) (id s))) [
    | inl le ↦
        let lt : id r < id s = ground arith in
        rw le ((lt, below-All (id r) (id s) rows lt hs), (hs, h))
    | inr gt ↦
        rw gt (All-insert (λ t. id s < id t) r rows (ground arith) hs, insert-Rises r rows ne h)
  ]

  -- With distinct keys the sorted rows rise strictly.
  pub sort_by_key-Rises : (rows : List R) → IsDistinct rows → Rises id (sort_by_key rows)
  unfolding sort_by_key
  sort_by_key-Rises [] h = tt
  sort_by_key-Rises (r ∷ rows) (ne, h) =
      insert-Rises r (sort_by_key rows) (All-sort_by_key (λ s. id r ≢ id s) rows ne)
        (sort_by_key-Rises rows h)
