-- ===== src/Postcode/Modal/Votes.antt =====
-- The first loop of `modal_postcodes_by_key` of server/src/bin/build_postcode_lookup.rs: the
-- localities that share a key pool their counts.
use geocoder.Prelude.{
  ℕ, ◌+◌, ◌%◌, ◌^◌, ◌≤◌, max, ◌≡◌, refl, sym, ap, subst, ◌∙◌, ==_refl, Bool, true, false, ◌&&◌,
  List, [], ◌∷◌, Option, none, some, inl, inr, if◌then◌else◌, arith, ◌==◌, Bool-cases, Option-cases,
  Text, text_eq,
}
use geocoder.Bytes.{Bytes}
use geocoder.Strings.Unicode.{CharTables}
use geocoder.Postcode.Pool.{text_eq-eq}
use geocoder.Postcode.Modal.{add_count, key_of, merge_counts}

text_eq_refl : (s : Text) → text_eq s s ≡ true
unfolding text_eq
text_eq_refl [] = refl
text_eq_refl (c ∷ s) = rw (==_refl c) (text_eq_refl s)

module _ (key : ℕ) (postcode : Bytes) where
  abbrev pub is_for : ℕ → Bytes → Bool
  is_for k pc = (k == key) && text_eq pc postcode

  -- The sum of the counts that the entries have for the key and the postcode.
  abbrev pub votes : List ((ℕ × Bytes) × ℕ) → ℕ
  votes [] = 0
  votes (((k, pc), n) ∷ counts) = (if is_for k pc then n else 0) + votes counts

  -- The count of the first entry for the key and the postcode, and the number of such entries.
  abbrev pub count_of : List ((ℕ × Bytes) × ℕ) → ℕ
  count_of [] = 0
  count_of (((k, pc), n) ∷ counts) = if is_for k pc then n else count_of counts

  abbrev pub entries : List ((ℕ × Bytes) × ℕ) → ℕ
  entries [] = 0
  entries (((k, pc), n) ∷ counts) = (if is_for k pc then 1 else 0) + entries counts

  no_votes : (counts : List ((ℕ × Bytes) × ℕ)) → entries counts ≡ 0 → votes counts ≡ 0
  no_votes [] none_there = refl
  no_votes (((k, pc), n) ∷ counts) none_there = elim (Bool-cases (is_for k pc)) [
    | inl y ↦ absurd (omega (arith, rw y at none_there))
    | inr f ↦
        let none_left : 0 + entries counts ≡ 0 = rw f at none_there in
        rw f (omega (arith, no_votes counts (omega (arith, none_left))))
  ]

  count_of-votes :
      (counts : List ((ℕ × Bytes) × ℕ)) → entries counts ≤ 1 → count_of counts ≡ votes counts
  count_of-votes [] few = refl
  count_of-votes (((k, pc), n) ∷ counts) few = elim (Bool-cases (is_for k pc)) [
    | inl y ↦
        let few' : 1 + entries counts ≤ 1 = rw y at few in
        rw y (omega (arith, no_votes counts (omega (arith, few'))))
    | inr f ↦
        let few' : 0 + entries counts ≤ 1 = rw f at few in
        rw f (omega (arith, count_of-votes counts (omega (arith, few'))))
  ]

  same_entry :
      (j k : ℕ) (p pc : Bytes) → ((j == k) && text_eq p pc) ≡ true → is_for j p ≡ is_for k pc
  same_entry j k p pc h =
      let e : j ≡ k = ground arith in
      let t : text_eq p pc ≡ true = ground arith in rw (e, text_eq-eq p pc t) refl

  pooled :
      (b : Bool) (m n v : ℕ)
      → ((if b then (m + n) % 2 ^ 32 else 0) + v) % 2 ^ 32
        ≡ ((if b then m else 0) + v + (if b then n else 0)) % 2 ^ 32
  pooled true m n v = omega arith
  pooled false m n v = omega arith

  votes-add_count :
      (k : ℕ) (pc : Bytes) (n : ℕ) (counts : List ((ℕ × Bytes) × ℕ))
      → votes (add_count k pc n counts) % 2 ^ 32
        ≡ (votes counts + (if is_for k pc then n else 0)) % 2 ^ 32
  unfolding add_count
  votes-add_count k pc n [] = omega arith
  votes-add_count k pc n (((j, p), m) ∷ counts) = elim (Bool-cases ((j == k) && text_eq p pc)) [
    | inl same ↦
        rw (add_count, same, same_entry j k p pc same) (pooled (is_for k pc) m n (votes counts))
    | inr other ↦ rw (add_count, other) (omega (arith, votes-add_count k pc n counts))
  ]

  both_same :
      (j k : ℕ) (p pc : Bytes)
      → is_for j p ≡ true
      → is_for k pc ≡ true
      → ((j == k) && text_eq p pc) ≡ true
  both_same j k p pc hj hk =
      let e : j ≡ k = ground arith in
      let tj : text_eq p postcode ≡ true = ground arith in
      let tk : text_eq pc postcode ≡ true = ground arith in
      let same_text : p ≡ pc = text_eq-eq p postcode tj ∙ sym (text_eq-eq pc postcode tk) in
      let equal : text_eq p pc ≡ true =
        subst (λ q. text_eq q pc ≡ true) (sym same_text) (text_eq_refl pc) in
      rw (e, ==_refl k, equal) refl

  one_entry :
      (b : Bool) (e : ℕ)
      → (if b then 1 else 0) + e
        ≡ (if b then max 1 ((if b then 1 else 0) + e) else (if b then 1 else 0) + e)
  one_entry true e = omega arith
  one_entry false e = refl

  -- An entry for what has one already is no new entry.
  entries-add_count :
      (k : ℕ) (pc : Bytes) (n : ℕ) (counts : List ((ℕ × Bytes) × ℕ))
      → entries (add_count k pc n counts)
        ≡ (if is_for k pc then max 1 (entries counts) else entries counts)
  unfolding add_count
  entries-add_count k pc n [] = elim (Bool-cases (is_for k pc)) [
    | inl y ↦ rw y (omega arith)
    | inr f ↦ rw f refl
  ]
  entries-add_count k pc n (((j, p), m) ∷ counts) = elim (Bool-cases ((j == k) && text_eq p pc)) [
    | inl same ↦
        rw (add_count, same, same_entry j k p pc same) (one_entry (is_for k pc) (entries counts))
    | inr other ↦
        rw (add_count, other)
          (elim (Bool-cases (is_for k pc)) [
            | inl y ↦ elim (Bool-cases (is_for j p)) [
              | inl z ↦ absurd (cc (both_same j k p pc z y))
              | inr z ↦ rw (y, z) (omega (arith, rw y at (entries-add_count k pc n counts)))
            ]
            | inr f ↦ rw f (
                ap (λ e. (if is_for j p then 1 else 0) + e)
                  (rw f at (entries-add_count k pc n counts)))
          ])
  ]

  add_count-apart :
      (k : ℕ) (pc : Bytes) (n : ℕ) (counts : List ((ℕ × Bytes) × ℕ))
      → entries counts ≤ 1
      → entries (add_count k pc n counts) ≤ 1
  add_count-apart k pc n counts few = elim (Bool-cases (is_for k pc)) [
    | inl y ↦ omega (arith, rw y at (entries-add_count k pc n counts))
    | inr f ↦ omega (arith, rw f at (entries-add_count k pc n counts))
  ]

  module _ (tables : CharTables) (localities : Text → Option (Text × Text))
      (state_abbrevs : Text → Option Text) where
    -- The sum of the counts of all localities whose names have the key, for the postcode.
    abbrev pub total : List ((Text × Bytes) × ℕ) → ℕ
    total [] = 0
    total (((locality_pid, pc), n) ∷ postcode_counts) =
        elim (key_of tables localities state_abbrevs locality_pid) [
          | none ↦ 0
          | some k ↦ if is_for k pc then n else 0
        ]
        + total postcode_counts

    votes-merge_counts_from :
        (postcode_counts : List ((Text × Bytes) × ℕ)) (counts : List ((ℕ × Bytes) × ℕ))
        → votes (merge_counts tables localities state_abbrevs postcode_counts counts) % 2 ^ 32
          ≡ (votes counts + total postcode_counts) % 2 ^ 32
    unfolding merge_counts
    votes-merge_counts_from [] counts = omega arith
    votes-merge_counts_from (((pid, pc), n) ∷ postcode_counts) counts =
        elim (Option-cases (key_of tables localities state_abbrevs pid)) [
          | inl e ↦
              rw (merge_counts, e) (omega (arith, votes-merge_counts_from postcode_counts counts))
          | inr (k, e) ↦
              rw (merge_counts, e)
                (omega (
                  arith,
                  votes-merge_counts_from postcode_counts (add_count k pc n counts),
                  votes-add_count k pc n counts,
                ))
        ]

    merge_counts-apart :
        (postcode_counts : List ((Text × Bytes) × ℕ)) (counts : List ((ℕ × Bytes) × ℕ))
        → entries counts ≤ 1
        → entries (merge_counts tables localities state_abbrevs postcode_counts counts) ≤ 1
    unfolding merge_counts
    merge_counts-apart [] counts few = few
    merge_counts-apart (((pid, pc), n) ∷ postcode_counts) counts few =
        elim (Option-cases (key_of tables localities state_abbrevs pid)) [
          | inl e ↦ rw (merge_counts, e) (merge_counts-apart postcode_counts counts few)
          | inr (k, e) ↦
              rw (merge_counts, e)
                (merge_counts-apart postcode_counts (add_count k pc n counts)
                  (add_count-apart k pc n counts few))
        ]

    -- For each key and postcode the merged counts have one entry at most, and it counts, modulo
    -- 2 ^ 32, as often as all localities whose names have the key do together; without an entry
    -- that sum is zero.
    pub votes-merge_counts :
        (postcode_counts : List ((Text × Bytes) × ℕ))
        → (entries (merge_counts tables localities state_abbrevs postcode_counts []) ≤ 1)
          × (count_of (merge_counts tables localities state_abbrevs postcode_counts []) % 2 ^ 32
              ≡ total postcode_counts % 2 ^ 32)
    votes-merge_counts postcode_counts =
        let merged = merge_counts tables localities state_abbrevs postcode_counts [] in
        let few : entries merged ≤ 1 = merge_counts-apart postcode_counts [] (omega arith) in
        (few, omega (arith, votes-merge_counts_from postcode_counts [], count_of-votes merged few))
