-- ===== src/Postcode/Modal.antt =====
-- `modal_postcodes_by_key` of server/src/bin/build_postcode_lookup.rs. A hash map that the code
-- walks is the list of its entries in the order of the walk; one that it only asks is a function.
pub mod Order
pub mod Pick
pub mod Votes
pub mod Index
use geocoder.Prelude.{
  ℕ, ◌+◌, ◌%◌, ◌^◌, ◌<◌, ◌≡◌, refl, Bool, true, false, ◌&&◌, ◌||◌, List, [], ◌∷◌, map, Option, none,
  some, if◌then◌else◌, ltb, ◌==◌, text_eq, Text,
}
use geocoder.Bytes.{Bytes}
use geocoder.Strings.Unicode.{CharTables}
use geocoder.Postcode.{lookup_hash}

-- `<` on `String`: byte by byte, a proper prefix first.
unfoldable pub text_ltb : Bytes → Bytes → Bool
text_ltb s [] = false
text_ltb [] (d ∷ t) = true
text_ltb (c ∷ s) (d ∷ t) = ltb c d || ((c == d) && text_ltb s t)

abbrev pub Counted : Type 0
Counted = Bytes × ℕ

-- `count > *existing_count || (count == *existing_count && postcode < *existing_pc)`
unfoldable pub beats : Counted → Counted → Bool
unfolding text_ltb
beats (postcode, count) (existing_pc, existing_count) =
    ltb existing_count count || ((count == existing_count) && text_ltb postcode existing_pc)

-- `best.entry(key).and_modify(…).or_insert((postcode, count))`
unfoldable pub update_best : ℕ → Counted → List (ℕ × Counted) → List (ℕ × Counted)
unfolding beats
update_best key counted [] = (key, counted) ∷ []
update_best key counted ((k, existing) ∷ best) =
    let rest = update_best key counted best in
    if k == key
    then (k, if beats counted existing then counted else existing) ∷ best
    else (k, existing) ∷ rest

unfoldable pub pick_best : List ((ℕ × Bytes) × ℕ) → List (ℕ × Counted) → List (ℕ × Counted)
unfolding update_best
pick_best [] best = best
pick_best (((key, postcode), count) ∷ counts) best =
    pick_best counts (update_best key (postcode, count) best)

-- `*counts.entry((key, postcode)).or_default() += count`, which wraps without overflow checks.
unfoldable pub add_count : ℕ → Bytes → ℕ → List ((ℕ × Bytes) × ℕ) → List ((ℕ × Bytes) × ℕ)
unfolding text_eq
add_count key postcode count [] = ((key, postcode), count) ∷ []
add_count key postcode count (((k, pc), n) ∷ counts) =
    let rest = add_count key postcode count counts in
    if (k == key) && text_eq pc postcode
    then ((k, pc), (n + count) % 2 ^ 32) ∷ counts
    else ((k, pc), n) ∷ rest

module _ (tables : CharTables) (localities : Text → Option (Text × Text))
    (state_abbrevs : Text → Option Text) where
  -- The key that the names of a locality have, if both are known.
  unfoldable pub key_of : Text → Option ℕ
  key_of locality_pid = elim (localities locality_pid) [
    | none ↦ none
    | some (locality_name, state_pid) ↦ elim (state_abbrevs state_pid) [
      | none ↦ none
      | some state_abbr ↦ some (lookup_hash tables state_abbr locality_name)
    ]
  ]

  -- The first loop.
  unfoldable pub merge_counts :
      List ((Text × Bytes) × ℕ) → List ((ℕ × Bytes) × ℕ) → List ((ℕ × Bytes) × ℕ)
  unfolding key_of add_count
  merge_counts [] counts = counts
  merge_counts (((locality_pid, postcode), count) ∷ postcode_counts) counts =
      elim (key_of locality_pid) [
        | none ↦ merge_counts postcode_counts counts
        | some key ↦ merge_counts postcode_counts (add_count key postcode count counts)
      ]

  unfoldable pub modal_postcodes_by_key : List ((Text × Bytes) × ℕ) → List (ℕ × Counted)
  unfolding merge_counts pick_best
  modal_postcodes_by_key postcode_counts = pick_best (merge_counts postcode_counts []) []
