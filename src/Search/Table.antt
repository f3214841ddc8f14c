-- ===== src/Search/Table.antt =====
-- The search over the rows of a table with one key each, against a linear scan.
use geocoder.Prelude.{
  ℕ, zero, suc, ◌≤◌, ◌<◌, ◌≡◌, ◌≢◌, refl, ap, List, [], ◌∷◌, Option, none, some, arith, ◌==◌,
  if◌then◌else◌, length, get_elem?, get_elem?-lt, lt_of_get_elem?, All, ==_refl, ne→==,
}
use geocoder.Search.{Probe, found, absent, panicked, out_of_fuel, binary_search}
use geocoder.Search.Correct.{
  binary_search-found, binary_search-ends, IsAscending, binary_search-absent,
}

module _ {R : Type 0} (id : R → ℕ) where
  -- The first row with a key.
  unfoldable pub find_row : ℕ → List R → Option R
  find_row key [] = none
  find_row key (r ∷ rows) = if id r == key then some r else find_row key rows

  -- The keys rise strictly from row to row.
  abbrev pub Rises : List R → Type 0
  Rises [] = Unit
  Rises (r ∷ rows) = All (λ s. id r < id s) rows × Rises rows

  All-get :
      (a : ℕ) (rows : List R) (i : ℕ) {r : R}
      → All (λ s. a < id s) rows
      → get_elem? rows i ≡ some r
      → a < id r
  All-get a [] i h e = absurd (cc)
  All-get a (x ∷ rows) zero {r} (hx, h) e = let q : x ≡ r = cc in rw (ap id q) at hx
  All-get a (x ∷ rows) (suc i) (hx, h) e = All-get a rows i h e

  find_row-get :
      (rows : List R) (i : ℕ) {r : R}
      → Rises rows
      → get_elem? rows i ≡ some r
      → find_row (id r) rows ≡ some r
  unfolding find_row
  find_row-get [] i h e = absurd (cc)
  find_row-get (x ∷ rows) zero {r} h e = let q : x ≡ r = cc in rw (q, ==_refl (id r))
  find_row-get (x ∷ rows) (suc i) {r} (hx, h) e =
      let below : id x < id r = All-get (id x) rows i hx e in
      rw (ne→== (id x) (id r) (omega arith)) (find_row-get rows i h e)

  find_row-none :
      (key : ℕ) (rows : List R)
      → ((i : ℕ) (r : R) → get_elem? rows i ≡ some r → id r ≢ key)
      → find_row key rows ≡ none
  unfolding find_row
  find_row-none key [] h = refl
  find_row-none key (x ∷ rows) h =
      rw (ne→== (id x) key (h 0 x refl)) (find_row-none key rows (λ i r e. h (suc i) r e))

  keys_ascend :
      (rows : List R) (i j : ℕ) {r s : R}
      → Rises rows
      → i ≤ j
      → get_elem? rows i ≡ some r
      → get_elem? rows j ≡ some s
      → id r ≤ id s
  keys_ascend [] i j h le e f = absurd (cc)
  keys_ascend (x ∷ rows) zero zero {r} {s} h le e f = let q : r ≡ s = cc in rw q (omega arith)
  keys_ascend (x ∷ rows) zero (suc j) {r} {s} (hx, h) le e f =
      let q : x ≡ r = cc in
      let below : id x < id s = All-get (id x) rows j hx f in rw (← q) (omega arith)
  keys_ascend (x ∷ rows) (suc i) zero h le e f = absurd (omega arith)
  keys_ascend (x ∷ rows) (suc i) (suc j) (hx, h) le e f = keys_ascend rows i j h (omega arith) e f

  module _ (key_at : ℕ → Option ℕ) (key : ℕ) (rows : List R) (rises : Rises rows)
      (keys : (i : ℕ) (r : R) → get_elem? rows i ≡ some r → key_at i ≡ some (id r)) where
    readable : (i : ℕ) → i < length rows → key_at i ≢ none
    readable i h = let (r, e) = get_elem?-lt rows i h in λ n. cc (keys i r e)

    ascending : IsAscending key_at (length rows)
    ascending i j a b le h p q =
        let (r, e) = get_elem?-lt rows i (omega arith) in
        let (s, f) = get_elem?-lt rows j h in
        let at_i : a ≡ id r = cc (keys i r e) in
        let at_j : b ≡ id s = cc (keys j s f) in omega (arith, keys_ascend rows i j rises le e f)

    -- A hit names the row that a linear scan finds; a miss means that the scan finds none.
    abbrev pub Reports : Probe → Type 0
    Reports (found i) =
        (r : R) × (get_elem? rows i ≡ some r) × (id r ≡ key) × (find_row key rows ≡ some r)
    Reports absent = find_row key rows ≡ none
    Reports panicked = ⊥
    Reports out_of_fuel = ⊥

    reports : (p : Probe) → binary_search key_at key (length rows) 0 (length rows) ≡ p → Reports p
    reports (found i) e =
        let (lo, hi, k) = binary_search-found key_at key (length rows) 0 (length rows) e in
        let (r, f) = get_elem?-lt rows i hi in
        let same : id r ≡ key = cc (keys i r f) in
        (r, f, same, rw (← same) (find_row-get rows i rises f))
    reports absent e = find_row-none key rows λ i r f same.
        binary_search-absent key_at key (length rows) ascending (length rows) 0 (length rows) i
          (omega arith) e (omega arith) (lt_of_get_elem? rows i f) (rw (← same) (keys i r f))
    reports panicked e =
        (binary_search-ends key_at key (length rows) 0 (length rows) (omega arith) readable).0 e
    reports out_of_fuel e =
        (binary_search-ends key_at key (length rows) 0 (length rows) (omega arith) readable).1 e

    pub search_table : Reports (binary_search key_at key (length rows) 0 (length rows))
    search_table = reports _ refl
