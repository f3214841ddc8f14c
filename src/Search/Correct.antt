-- ===== src/Search/Correct.antt =====
-- The search ends, never panics on readable keys, and finds a key of an ascending table exactly
-- when the table has it.
use geocoder.Prelude.{
  ℕ, zero, suc, ◌+◌, ◌-◌, ◌/◌, ◌≤◌, ◌<◌, ◌≡◌, ◌≢◌, Option, none, some, arith, Option-cases, inl,
  inr,
}
use geocoder.Search.{found, absent, panicked, out_of_fuel, binary_search}

module _ (key_at : ℕ → Option ℕ) (key : ℕ) where
  -- What a found index is.
  pub binary_search-found :
      (fuel lo hi : ℕ) {i : ℕ}
      → binary_search key_at key fuel lo hi ≡ found i
      → (lo ≤ i) × (i < hi) × (key_at i ≡ some key)
  unfolding binary_search
  binary_search-found zero lo hi h = ground arith
  binary_search-found (suc fuel) lo hi {i} h =
      let mid = lo + (hi - lo) / 2 in
      ground (
        arith,
        binary_search-found fuel (mid + 1) hi {i = i},
        binary_search-found fuel lo mid {i = i},
      )

  -- With keys to read in the range and fuel for its length the search ends without a panic.
  pub binary_search-ends :
      (fuel lo hi : ℕ)
      → hi - lo ≤ fuel
      → ((i : ℕ) → i < hi → key_at i ≢ none)
      → (binary_search key_at key fuel lo hi ≢ panicked)
        × (binary_search key_at key fuel lo hi ≢ out_of_fuel)
  unfolding binary_search
  binary_search-ends zero lo hi h readable = ground arith
  binary_search-ends (suc fuel) lo hi h readable =
      let mid = lo + (hi - lo) / 2 in
      ground
        (arith, readable mid, binary_search-ends fuel (mid + 1) hi, binary_search-ends fuel lo mid)

-- The keys below `n` are in ascending order.
abbrev pub IsAscending : (ℕ → Option ℕ) → ℕ → Type 0
IsAscending key_at n = (i j a b : ℕ) → i ≤ j → j < n → key_at i ≡ some a → key_at j ≡ some b → a ≤ b

module _ (key_at : ℕ → Option ℕ) (key : ℕ) (n : ℕ) (ascending : IsAscending key_at n) where
  -- A search that gives up has passed over no index with the key.
  pub binary_search-absent :
      (fuel lo hi i : ℕ)
      → hi ≤ n
      → binary_search key_at key fuel lo hi ≡ absent
      → lo ≤ i
      → i < hi
      → key_at i ≢ some key
  unfolding binary_search
  binary_search-absent zero lo hi i small h below above e = ground arith
  binary_search-absent (suc fuel) lo hi i small h below above e =
      elim (Option-cases (key_at (lo + (hi - lo) / 2))) [
        | inl x ↦ ground (arith, x)
        | inr (k, x) ↦
            let mid = lo + (hi - lo) / 2 in
            ground (
              arith,
              x,
              ascending i mid key k,
              ascending mid i k key,
              binary_search-absent fuel (mid + 1) hi i,
              binary_search-absent fuel lo mid i,
            )
      ]
