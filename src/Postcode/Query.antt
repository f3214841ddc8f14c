-- ===== src/Postcode/Query.antt =====
-- `PostcodeLookup::postcode` of server/src/postcode.rs, by names.
use geocoder.Prelude.{
  ◌≡◌, refl, ◌||◌, [], ◌∷◌, map, none, if◌then◌else◌, is_empty, to_lower, Text, done,
}
use geocoder.Strings.Unicode.{CharTables, IsAsciiCorrect}
use geocoder.Search.Table.{find_row}
use geocoder.Postcode.{PostcodeLookup, build, lookup_hash, postcode}
use geocoder.Postcode.Emit.{Best, answer}
use geocoder.Postcode.RoundTrip.{IsBuildable, postcode_at-build}
use geocoder.Postcode.Normalise.Case.{normalise_locality-to_lower}

module _ (tables : CharTables) where
  -- In the files that are built from `best`, the postcode of a state and a locality, when both
  -- names are non-empty, is the one that `best` has for the hash of the names, and none when it
  -- lacks the hash; it is none for an empty name. The keys of `best` are distinct u64s, its
  -- postcodes are UTF-8 without NUL, and the pool stays below 2 ^ 32 bytes.
  pub postcode-build :
      (best : Best)
      → IsBuildable best
      → (state_abbr locality : Text)
      → postcode tables (build best) state_abbr locality
        ≡ done (
            if is_empty state_abbr || is_empty locality
            then none
            else answer (find_row (λ b. b.0) (lookup_hash tables state_abbr locality) best))
  unfolding postcode
  postcode-build best buildable [] locality = refl
  postcode-build best buildable (c ∷ s) [] = refl
  postcode-build best buildable (c ∷ s) (d ∷ t) =
      postcode_at-build best buildable (lookup_hash tables (c ∷ s) (d ∷ t))

  -- Names that differ in the case of ASCII letters have the same postcode in every index, when
  -- the tables say of ASCII characters what the documentation says.
  pub postcode-to_lower :
      IsAsciiCorrect tables
      → (index : PostcodeLookup) (state_abbr locality : Text)
      → postcode tables index (map to_lower state_abbr) (map to_lower locality)
        ≡ postcode tables index state_abbr locality
  unfolding postcode lookup_hash
  postcode-to_lower correct index [] locality = refl
  postcode-to_lower correct index (c ∷ s) [] = refl
  postcode-to_lower correct index (c ∷ s) (d ∷ t) =
      rw
        (
          normalise_locality-to_lower tables correct (c ∷ s),
          normalise_locality-to_lower tables correct (d ∷ t),
        )
        refl
