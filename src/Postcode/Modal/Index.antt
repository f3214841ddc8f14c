-- ===== src/Postcode/Modal/Index.antt =====
-- The index that server/src/bin/build_postcode_lookup.rs makes of counts: a lookup in it answers
-- the modal postcode.
use geocoder.Prelude.{
  ℕ, ◌^◌, ◌<◌, ◌≡◌, ◌≢◌, refl, ap, ◌∙◌, List, [], ◌∷◌, map, Option, none, some, inl, inr, ◌==◌, All,
  Bool-cases, done,
}
use geocoder.Bytes.{Bytes}
use geocoder.Search.Table.{find_row}
use geocoder.Search.Sort.{IsDistinct}
use geocoder.Postcode.{build, postcode_at}
use geocoder.Postcode.Pool.{IsStorable}
use geocoder.Postcode.Emit.{pool_size, answer}
use geocoder.Postcode.RoundTrip.{IsBuildable, postcode_at-build}
use geocoder.Postcode.Modal.{Counted, pick_best}
use geocoder.Postcode.Modal.Pick.{kept_for, IsModal, pick_best-IsModal, pick_best-IsDistinct}

-- `for (key, (postcode, _)) in best`
abbrev pub drop_counts : List (ℕ × Counted) → List (ℕ × Bytes)
drop_counts best = map (λ b. (b.0, b.1.0)) best

abbrev pub postcode_of : Option Counted → Option Bytes
postcode_of none = none
postcode_of (some c) = some c.0

fresh-drop_counts :
    (a : ℕ) (best : List (ℕ × Counted))
    → All (λ b. a ≢ b.0) best
    → All (λ b. a ≢ b.0) (drop_counts best)
fresh-drop_counts a [] h = tt
fresh-drop_counts a (b ∷ best) (n, h) = (n, fresh-drop_counts a best h)

IsDistinct-drop_counts :
    (best : List (ℕ × Counted))
    → IsDistinct (λ b. b.0) best
    → IsDistinct (λ b. b.0) (drop_counts best)
IsDistinct-drop_counts [] h = tt
IsDistinct-drop_counts (b ∷ best) (n, h) =
    (fresh-drop_counts b.0 best n, IsDistinct-drop_counts best h)

answer-drop_counts :
    (key : ℕ) (best : List (ℕ × Counted))
    → answer (find_row (λ b. b.0) key (drop_counts best)) ≡ postcode_of (kept_for key best)
unfolding find_row
answer-drop_counts key [] = refl
answer-drop_counts key (b ∷ best) = elim (Bool-cases (b.0 == key)) [
  | inl e ↦ rw e refl
  | inr e ↦ rw e (answer-drop_counts key best)
]

-- For every key, the index made of the counts answers a postcode that occurs among the counts for
-- the key and that none of them beats, and nothing only for a key without counts: when the keys
-- are u64s, the postcodes are UTF-8 without NUL, and the pool stays below 2 ^ 32 bytes.
pub postcode_at-pick_best :
    (counts : List ((ℕ × Bytes) × ℕ))
    → All (λ b. b.0 < 2 ^ 64) (drop_counts (pick_best counts []))
    → All (λ b. IsStorable b.1) (drop_counts (pick_best counts []))
    → pool_size (drop_counts (pick_best counts [])) < 2 ^ 32
    → (key : ℕ)
    → (r : Option Counted) × (postcode_at (build (drop_counts (pick_best counts []))) key
        ≡ done (postcode_of r))
      × IsModal key counts r
postcode_at-pick_best counts wide storable small key =
    let best = pick_best counts [] in
    let buildable : IsBuildable (drop_counts best) = record {
      distinct = IsDistinct-drop_counts best (pick_best-IsDistinct counts [] tt);
      wide = wide;
      storable = storable;
      small = small;
    } in
    (
      kept_for key best,
      postcode_at-build (drop_counts best) buildable key ∙ ap done (answer-drop_counts key best),
      pick_best-IsModal counts key,
    )
