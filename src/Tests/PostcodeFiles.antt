-- ===== src/Tests/PostcodeFiles.antt =====
-- The postcode index, built and asked; the keys of names.
use geocoder.Prelude.{
  ℕ, ◌<◌, ◌≤◌, ◌^◌, ◌%◌, ◌≡◌, ◌≢◌, text_eq, ◌||◌, if◌then◌else◌, refl, true, List, [], ◌∷◌, Option,
  none, some, arith, done, codes, Text, to_lower, All,
}
use geocoder.Bytes.{until_nul, to_le, slice, read_le, Bytes}
use geocoder.Bytes.Utf8.{is_utf8, from_utf8}
use geocoder.Search.Table.{find_row}
use geocoder.Search.{binary_search}
use geocoder.Strings.Unicode.{ascii_tables, as_bytes, is_ascii_alphanumeric}
use geocoder.Postcode.{build, lookup_hash, postcode, postcode_at, fnv1a}
use geocoder.Postcode.Emit.{Best, pool_size}
use geocoder.Postcode.RoundTrip.{IsBuildable}
use geocoder.Postcode.Pool.{IsStorable}
use geocoder.Postcode.Query.{postcode-build}
use geocoder.Postcode.Normalise.{normalise_locality}
use geocoder.Postcode.Normalise.Words.{LowersToLetters}
use geocoder.Postcode.Modal.{Counted, pick_best, merge_counts}
use geocoder.Postcode.Modal.Pick.{IsModal}
use geocoder.Postcode.Modal.Votes.{count_of, entries, total, votes-merge_counts}
use geocoder.Postcode.Modal.Index.{drop_counts, postcode_of, postcode_at-pick_best}

program : Unit {0}
unfolding build postcode lookup_hash normalise_locality until_nul to_le slice read_le is_utf8
    from_utf8 binary_search as_bytes find_row pick_best merge_counts to_lower
program = tt

punctuation_and_case :
    (normalise_locality ascii_tables (codes "St. Kilda") ≡ codes "st kilda")
    × (normalise_locality ascii_tables (codes "ST KILDA ") ≡ codes "st kilda")
    × (normalise_locality ascii_tables (codes "Zoë's") ≡ codes "zoe s")
unfolding program
punctuation_and_case = (refl, refl, refl)

fnv1a_of_a : fnv1a 0xcbf29ce484222325 (codes "a") ≡ 0xaf63dc4c8601ec8c
unfolding program
fnv1a_of_a = refl

abbrev best : Best
best =
    (lookup_hash ascii_tables (codes "VIC") (codes "BRUNSWICK"), codes "3056")
    ∷ (lookup_hash ascii_tables (codes "VIC") (codes "ST KILDA"), codes "3182")
    ∷ (lookup_hash ascii_tables (codes "VIC") (codes "BRUNSWICK WEST"), codes "3056")
    ∷ []

found_by_name :
    postcode ascii_tables (build best) (codes "Vic") (codes "St. Kilda")
    ≡ done (some (codes "3182"))
unfolding program
found_by_name = refl

IsStorable-3056 : IsStorable (codes "3056")
unfolding program
IsStorable-3056 = record { utf8 = refl; no_nul = ground arith }

IsStorable-3182 : IsStorable (codes "3182")
unfolding program
IsStorable-3182 = record { utf8 = refl; no_nul = ground arith }

best-IsBuildable : IsBuildable best
unfolding program
best-IsBuildable = record {
  distinct = ground arith;
  wide = ground arith;
  storable = (IsStorable-3056, (IsStorable-3182, (IsStorable-3056, tt)));
  small = omega arith;
}

postcode-build_example :
    postcode ascii_tables (build best) (codes "Vic") (codes "brunswick west")
    ≡ done (some (codes "3056"))
unfolding program
postcode-build_example =
    postcode-build ascii_tables best best-IsBuildable (codes "Vic") (codes "brunswick west")

lowercase_letter : (c : ℕ) → is_ascii_alphanumeric c ≡ true → to_lower c ≢ b' '
unfolding program
lowercase_letter c h = ground arith

ascii_tables-LowersToLetters : LowersToLetters ascii_tables
ascii_tables-LowersToLetters = record {
  letters = λ c h. (to_lower c, [], refl, (lowercase_letter c h, tt));
}

abbrev counts : List ((ℕ × Bytes) × ℕ)
counts =
    ((7, codes "3000"), 4)
    ∷ ((7, codes "3056"), 9)
    ∷ ((8, codes "3182"), 2)
    ∷ ((7, codes "3055"), 9)
    ∷ []

the_most_frequent_and_then_the_smallest :
    pick_best counts [] ≡ (7, (codes "3055", 9)) ∷ (8, (codes "3182", 2)) ∷ []
unfolding program
the_most_frequent_and_then_the_smallest = refl

counts-wide : All (λ b. b.0 < 2 ^ 64) (drop_counts (pick_best counts []))
unfolding program
counts-wide = ground arith

counts-IsStorable : All (λ b. IsStorable b.1) (drop_counts (pick_best counts []))
unfolding program
counts-IsStorable = (record { utf8 = refl; no_nul = ground arith }, (IsStorable-3182, tt))

counts-small : pool_size (drop_counts (pick_best counts [])) < 2 ^ 32
unfolding program
counts-small = omega arith

postcode_at-pick_best_example :
    (r : Option Counted) × (postcode_at (build (drop_counts (pick_best counts []))) 7
      ≡ done (postcode_of r))
    × IsModal 7 counts r
postcode_at-pick_best_example =
    postcode_at-pick_best counts counts-wide counts-IsStorable counts-small 7

abbrev localities : Text → Option (Text × Text)
localities pid =
    if text_eq pid (codes "loc1") || text_eq pid (codes "loc2")
    then some (codes "Perth", codes "5")
    else none

abbrev state_abbrevs : Text → Option Text
state_abbrevs pid = if text_eq pid (codes "5") then some (codes "WA") else none

abbrev locality_counts : List ((Text × Bytes) × ℕ)
locality_counts = ((codes "loc1", codes "6000"), 3) ∷ ((codes "loc2", codes "6000"), 4) ∷ []

votes-merge_counts_example :
    (entries 7
        (codes "6000")
        (merge_counts ascii_tables localities state_abbrevs locality_counts [])
      ≤ 1)
    × (count_of 7
            (codes "6000")
            (merge_counts ascii_tables localities state_abbrevs locality_counts [])
          % 2 ^ 32
        ≡ total 7 (codes "6000") ascii_tables localities state_abbrevs locality_counts % 2 ^ 32)
votes-merge_counts_example =
    votes-merge_counts 7 (codes "6000") ascii_tables localities state_abbrevs locality_counts
