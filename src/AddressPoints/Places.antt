-- ===== src/AddressPoints/Places.antt =====
-- The rows of the runs against the places of the records of each cell, for sorted records.
use geocoder.Prelude.{
  ℕ, subst, zero, suc, ◌+◌, ◌≤◌, ◌<◌, min, ◌≡◌, ◌≢◌, refl, ap, sym, ◌∙◌, List, [], ◌∷◌, Option,
  none, some, arith, ◌==◌, if◌then◌else◌, length, length-drop, drop, take, All, Bool-cases, inl,
  inr, ==_iff, ne→==,
}
use geocoder.Search.Table.{find_row, Rises}
use geocoder.AddressPoints.{run_length}
use geocoder.AddressPoints.Cells.{count_up}
use geocoder.AddressPoints.Groups.{Row, runs}

take-count_up : (k i n : ℕ) → take k (count_up i n) ≡ count_up i (min n k)
take-count_up zero i n = let e : min n 0 ≡ 0 = omega arith in rw e
take-count_up (suc k) i zero = let e : min 0 (suc k) ≡ 0 = omega arith in rw e
take-count_up (suc k) i (suc n) =
    let e : min (suc n) (suc k) ≡ suc (min n k) = omega arith in
    rw e (ap (λ r. i ∷ r) (take-count_up k (i + 1) n))

-- What the row of a cell, or its absence, tells about the places of the cell's records.
abbrev pub Places : Option Row → List ℕ → Type 0
Places none ps = ps ≡ []
Places (some r) ps = take 65535 ps ≡ count_up r.start r.count

module _ {P : Type 0} where
  -- The places of the records of a cell, `i` being that of the first.
  unfoldable pub positions : ℕ → ℕ → List (ℕ × P) → List ℕ
  positions c i [] = []
  positions c i ((d, p) ∷ records) =
      let rest = positions c (i + 1) records in if d == c then i ∷ rest else rest

  abbrev pub Above : ℕ → List (ℕ × P) → Type 0
  Above a = All (λ s. a < s.0)

  -- The cells do not fall from record to record.
  abbrev pub IsSorted : List (ℕ × P) → Type 0
  IsSorted [] = Unit
  IsSorted (r ∷ records) = All (λ s. r.0 ≤ s.0) records × IsSorted records

  IsSorted-drop : (n : ℕ) (records : List (ℕ × P)) → IsSorted records → IsSorted (drop n records)
  IsSorted-drop zero records h = h
  IsSorted-drop (suc n) [] h = tt
  IsSorted-drop (suc n) (r ∷ records) (_, h) = IsSorted-drop n records h

  Above-mono :
      (a b : ℕ) (records : List (ℕ × P)) → a < b → All (λ s. b ≤ s.0) records → Above a records
  Above-mono a b [] lt h = tt
  Above-mono a b (r ∷ records) lt (hr, h) = (omega arith, Above-mono a b records lt h)

  -- Behind the run of a cell every record lies in a later one.
  Above-drop :
      (d : ℕ) (records : List (ℕ × P))
      → All (λ s. d ≤ s.0) records
      → IsSorted records
      → Above d (drop (run_length d records) records)
  unfolding run_length
  Above-drop d [] h s = tt
  Above-drop d ((e, p) ∷ records) (he, h) (hs, s) = elim (Bool-cases (e == d)) [
    | inl same ↦ rw same (Above-drop d records h s)
    | inr other ↦ let lt : d < e = ground arith in rw other (lt, Above-mono d e records lt hs)
  ]

  positions-none : (c i : ℕ) (records : List (ℕ × P)) → Above c records → positions c i records ≡ []
  unfolding positions
  positions-none c i [] h = refl
  positions-none c i ((e, p) ∷ records) (he, h) = ground (arith, positions-none c (i + 1) records h)

  positions-run :
      (d i : ℕ) (records : List (ℕ × P))
      → All (λ s. d ≤ s.0) records
      → IsSorted records
      → positions d i records ≡ count_up i (run_length d records)
  unfolding positions run_length
  positions-run d i [] h s = refl
  positions-run d i ((e, p) ∷ records) (he, h) (hs, s) = elim (Bool-cases (e == d)) [
    | inl same ↦ rw (same, positions-run d (i + 1) records h s)
    | inr other ↦
        let lt : d < e = ground arith in
        rw (other, positions-none d (i + 1) records (Above-mono d e records lt hs))
  ]

  positions-skip :
      (c d i j : ℕ) (records : List (ℕ × P))
      → d ≢ c
      → j ≡ i + run_length d records
      → positions c i records ≡ positions c j (drop (run_length d records) records)
  unfolding positions run_length
  positions-skip c d i j [] ne e = refl
  positions-skip c d i j ((f, p) ∷ records) ne e = elim (Bool-cases (f == d)) [
    | inl same ↦
        let eq : f ≡ d = (==_iff f d).0 same in
        let later : positions c (i + 1) records
            ≡ positions c j (drop (run_length d records) records) =
          positions-skip c d (i + 1) j records ne
            (let e' : j ≡ i + suc (run_length d records) = rw same at e in omega arith) in
        rw (same, ne→== f c (λ q. ne (sym eq ∙ q))) later
    | inr other ↦
        let stay : i ≡ j = let e' : j ≡ i + 0 = rw other at e in omega arith in rw (other, stay)
  ]

  runs-All :
      (a fuel : ℕ) (records : List (ℕ × P)) (start offset : ℕ)
      → Above a records
      → All (λ r. a < r.cell) (runs fuel records start offset)
  unfolding runs
  runs-All a zero [] start offset h = tt
  runs-All a (suc fuel) [] start offset h = tt
  runs-All a zero (r ∷ records) start offset h = tt
  runs-All a (suc fuel) ((cell, p) ∷ records) start offset (hr, h) = (
    hr,
    runs-All a fuel (drop (run_length cell records) records) _ _
        (Above-cut (run_length cell records) records h),
  )
    where
      Above-cut : (n : ℕ) (records : List (ℕ × P)) → Above a records → Above a (drop n records)
      Above-cut zero records h = h
      Above-cut (suc n) [] h = tt
      Above-cut (suc n) (r ∷ records) (_, h) = Above-cut n records h

  -- The cells of the rows rise strictly.
  pub runs-Rises :
      (fuel : ℕ) (records : List (ℕ × P)) (start offset : ℕ)
      → IsSorted records
      → Rises (λ r. r.cell) (runs fuel records start offset)
  unfolding runs
  runs-Rises zero [] start offset h = tt
  runs-Rises (suc fuel) [] start offset h = tt
  runs-Rises zero (r ∷ records) start offset h = tt
  runs-Rises (suc fuel) ((cell, p) ∷ records) start offset (h, s) =
      let n = run_length cell records in
      (
        runs-All cell fuel (drop n records) _ _ (Above-drop cell records h s),
        runs-Rises fuel (drop n records) _ _ (IsSorted-drop n records s),
      )

  pub find_row-Places :
      (c fuel : ℕ) (records : List (ℕ × P)) (start offset : ℕ)
      → length records ≤ fuel
      → IsSorted records
      → Places
          (find_row (λ r. r.cell) c (runs fuel records start offset))
          (positions c start records)
  unfolding runs find_row positions
  find_row-Places c zero [] start offset le h = refl
  find_row-Places c (suc fuel) [] start offset le h = refl
  find_row-Places c zero (r ∷ records) start offset le h = absurd (omega arith)
  find_row-Places c (suc fuel) ((cell, p) ∷ records) start offset le (h, s) =
      let n = run_length cell records in
      elim (Bool-cases (cell == c)) [
        | inl same ↦
            let eq : cell ≡ c = (==_iff cell c).0 same in
            let whole : positions c (start + 1) records ≡ count_up (start + 1) n =
              subst (λ x. positions x (start + 1) records ≡ count_up (start + 1) n) eq
                (positions-run cell (start + 1) records h s) in
            rw (same, whole) (take-count_up 65535 start (suc n))
        | inr other ↦
            let ne : cell ≢ c = λ q. cc ((==_iff cell c).1 q) in
            rw (other, positions-skip c cell (start + 1) (start + suc n) records ne (omega arith))
              (find_row-Places c fuel (drop n records) (start + suc n) _
                (omega (arith, length-drop n records)) (IsSorted-drop n records s))
      ]
