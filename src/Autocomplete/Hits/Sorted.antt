-- ===== src/Autocomplete/Hits/Sorted.antt =====
-- What the searches of server/src/autocomplete.rs return is sorted and no longer than asked for.
use geocoder.Prelude.{
  ℕ, zero, suc, ◌≤◌, ◌≡◌, refl, ap, ◌∙◌, true, false, List, [], ◌∷◌, if◌then◌else◌, ◌==◌, is_empty,
  length, get_elem?, take, Text, Bool-cases, Option-cases, inl, inr, arith,
}
use geocoder.Bytes.{Bytes}
use geocoder.Strings.Unicode.{CharTables}
use geocoder.Autocomplete.Countries.{Code, lower}
use geocoder.Autocomplete.Ranking.{Item, fst_walk_cap, walk}
use geocoder.Autocomplete.Ranking.Best.{walk-Best}
use geocoder.Autocomplete.Hits.{
  Hit, Records, bytes_le, hit_le, insert_hit, sort_hits, hits_of, heap_into_sorted_hits, rank_at,
  top_hits, UnifiedAutocomplete, AutocompleteCountry, Autocomplete, normalise_prefix,
  unified_starts_with, country_starts_with, country_search, country_of, all_hits, search,
  search_any,
}

bytes_le_total : (s t : Bytes) → bytes_le s t ≡ false → bytes_le t s ≡ true
unfolding bytes_le
bytes_le_total [] t h = cc
bytes_le_total (c ∷ s) [] h = refl
bytes_le_total (c ∷ s) (d ∷ t) h = ground (arith, bytes_le_total s t)

module _ {F : Type 0} where
  hit_le_total : (a b : Hit F) → hit_le a b ≡ false → hit_le b a ≡ true
  hit_le_total a b h = ground (arith, bytes_le_total a.name b.name)

  abbrev pub Before : Hit F → List (Hit F) → Type 0
  Before h [] = Unit {0}
  Before h (k ∷ hits) = hit_le h k ≡ true

  -- Each hit comes before the next in the order of ranks and names.
  abbrev pub IsSorted : List (Hit F) → Type 0
  IsSorted [] = Unit {0}
  IsSorted (h ∷ hits) = Before h hits × IsSorted hits

  insert_hit-Before :
      (k h : Hit F) (hits : List (Hit F))
      → hit_le k h ≡ true
      → Before k hits
      → Before k (insert_hit h hits)
  unfolding insert_hit
  insert_hit-Before k h [] le b = le
  insert_hit-Before k h (x ∷ hits) le b = elim (Bool-cases (hit_le h x)) [
    | inl e ↦ rw e le
    | inr e ↦ rw e b
  ]

  insert_hit-IsSorted :
      (h : Hit F) (hits : List (Hit F)) → IsSorted hits → IsSorted (insert_hit h hits)
  unfolding insert_hit
  insert_hit-IsSorted h [] a = (tt, tt)
  insert_hit-IsSorted h (k ∷ hits) (b, a) = elim (Bool-cases (hit_le h k)) [
    | inl le ↦ rw le (le, (b, a))
    | inr gt ↦
        rw gt (insert_hit-Before k h hits (hit_le_total h k gt) b, insert_hit-IsSorted h hits a)
  ]

  sort_hits-IsSorted : (hits : List (Hit F)) → IsSorted (sort_hits hits)
  unfolding sort_hits
  sort_hits-IsSorted [] = tt
  sort_hits-IsSorted (h ∷ hits) = insert_hit-IsSorted h (sort_hits hits) (sort_hits-IsSorted hits)

  take-Before : (n : ℕ) (h : Hit F) (hits : List (Hit F)) → Before h hits → Before h (take n hits)
  take-Before zero h hits b = tt
  take-Before (suc n) h [] b = tt
  take-Before (suc n) h (k ∷ hits) b = b

  take-IsSorted : (n : ℕ) (hits : List (Hit F)) → IsSorted hits → IsSorted (take n hits)
  take-IsSorted zero hits a = tt
  take-IsSorted (suc n) [] a = tt
  take-IsSorted (suc n) (h ∷ hits) (b, a) = (take-Before n h hits b, take-IsSorted n hits a)

  length-insert_hit :
      (h : Hit F) (hits : List (Hit F)) → length (insert_hit h hits) ≡ suc (length hits)
  unfolding insert_hit
  length-insert_hit h [] = refl
  length-insert_hit h (k ∷ hits) = elim (Bool-cases (hit_le h k)) [
    | inl le ↦ rw le refl
    | inr gt ↦ rw gt (ap suc (length-insert_hit h hits))
  ]

  length-sort_hits : (hits : List (Hit F)) → length (sort_hits hits) ≡ length hits
  unfolding sort_hits
  length-sort_hits [] = refl
  length-sort_hits (h ∷ hits) =
      length-insert_hit h (sort_hits hits) ∙ ap suc (length-sort_hits hits)

  length-hits_of :
      (records : Records F) (heap : List Item) → length (hits_of records heap) ≤ length heap
  unfolding hits_of
  length-hits_of records [] = omega arith
  length-hits_of records ((rank, id) ∷ heap) = elim (Option-cases (get_elem? records.entries id)) [
    | inl e ↦ rw (hits_of, e) (omega (arith, length-hits_of records heap))
    | inr (entry, e) ↦ rw (hits_of, e) (omega (arith, length-hits_of records heap))
  ]

  -- At most `limit` hits in order.
  abbrev pub IsAnswer : ℕ → List (Hit F) → Type 0
  IsAnswer limit hits = IsSorted hits × (length hits ≤ limit)

  top_hits-IsAnswer :
      (records : Records F) (ids : List ℕ) (limit : ℕ) → IsAnswer limit (top_hits records ids limit)
  unfolding top_hits heap_into_sorted_hits
  top_hits-IsAnswer records ids limit =
      let heap = walk (rank_at records) limit fst_walk_cap ids [] in
      (
        sort_hits-IsSorted (hits_of records heap),
        omega (
          arith,
          length-sort_hits (hits_of records heap),
          length-hits_of records heap,
          (walk-Best (rank_at records) limit fst_walk_cap ids).few,
        ),
      )

  module _ (tables : CharTables) where
    country_starts_with-IsAnswer :
        (country : AutocompleteCountry F) (q : Text) (limit : ℕ)
        → IsAnswer limit (country_starts_with tables country q limit)
    unfolding country_starts_with
    country_starts_with-IsAnswer country q limit = elim (Bool-cases (limit == 0)) [
      | inl h ↦ rw h (tt, omega arith)
      | inr h ↦ elim (Bool-cases (is_empty q)) [
        | inl e ↦ rw (h, e) (tt, omega arith)
        | inr e ↦ rw (h, e) (top_hits-IsAnswer country.records (country.starting q) limit)
      ]
    ]

    unified_starts_with-IsAnswer :
        (u : UnifiedAutocomplete F) (cc' : Code) (q : Text) (limit : ℕ)
        → IsAnswer limit (unified_starts_with tables u cc' q limit)
    unfolding unified_starts_with
    unified_starts_with-IsAnswer u cc' q limit = elim (Bool-cases (limit == 0)) [
      | inl h ↦ rw h (tt, omega arith)
      | inr h ↦ elim (Bool-cases (is_empty (normalise_prefix tables q))) [
        | inl e ↦ rw (h, e) (tt, omega arith)
        | inr e ↦
            rw (h, e)
              (top_hits-IsAnswer u.records (u.starting cc' (normalise_prefix tables q)) limit)
      ]
    ]

    country_search-IsAnswer :
        (self : Autocomplete F) (cc' : Code) (q : Text) (limit : ℕ)
        → IsAnswer limit (country_search tables self cc' q limit)
    unfolding country_search
    country_search-IsAnswer self cc' q limit =
        elim (Option-cases (country_of tables self.per_country (lower cc'))) [
          | inl e ↦ rw (country_search, e) (tt, omega arith)
          | inr (country, e) ↦
              rw (country_search, e)
                (country_starts_with-IsAnswer country (normalise_prefix tables q) limit)
        ]

    chosen-IsAnswer :
        (limit : ℕ) (hits others : List (Hit F))
        → IsAnswer limit hits
        → IsAnswer limit others
        → IsAnswer limit (if is_empty hits then others else hits)
    chosen-IsAnswer limit [] others a b = b
    chosen-IsAnswer limit (h ∷ hits) others a b = a

    -- Whatever the maps hold, a search for a prefix in a country returns at most as many hits as are
    -- asked for, in the order of their ranks and, of one rank, of their names.
    pub search-IsAnswer :
        (self : Autocomplete F) (country_code : Code) (q : Text) (limit : ℕ)
        → IsAnswer limit (search tables self country_code q limit)
    unfolding search
    search-IsAnswer self cc' q limit = elim (Option-cases self.unified) [
      | inl e ↦ rw (search, e) (country_search-IsAnswer self cc' q limit)
      | inr (u, e) ↦
          rw (search, e)
            (chosen-IsAnswer limit (unified_starts_with tables u cc' q limit)
              (country_search tables self cc' q limit) (unified_starts_with-IsAnswer u cc' q limit)
              (country_search-IsAnswer self cc' q limit))
    ]

    length-take : (n : ℕ) (hits : List (Hit F)) → length (take n hits) ≤ n
    length-take zero hits = omega arith
    length-take (suc n) [] = omega arith
    length-take (suc n) (h ∷ hits) = omega (arith, length-take n hits)

    -- So does a search over all countries with a map of their own.
    pub search_any-IsAnswer :
        (self : Autocomplete F) (q : Text) (limit : ℕ)
        → IsAnswer limit (search_any tables self q limit)
    unfolding search_any
    search_any-IsAnswer self q limit =
        let hits = all_hits tables self.per_country (normalise_prefix tables q) limit in
        (
          take-IsSorted limit (sort_hits hits) (sort_hits-IsSorted hits),
          length-take limit (sort_hits hits),
        )
