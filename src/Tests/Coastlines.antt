-- ===== src/Tests/Coastlines.antt =====
-- `simplify_dp` of tools/wof-importer/src/main.rs on points with heights above a line.
use geocoder.Prelude.{ℕ, ◌≡◌, refl, Bool, List, [], ◌∷◌, ltb, done}
use geocoder.Importer.Simplify.{flagged, farthest, split_between, split_all, simplify_dp}
use geocoder.Importer.Simplify.Stops.{IsPart, first_of, last_of, simplify_dp-IsPart}

-- The third is the height of the point alone.
abbrev height : ℕ → ℕ → ℕ → ℕ
height a b p = p

abbrev above : ℕ → ℕ → Bool
above d e = ltb e d

abbrev line : List ℕ
line = 0 ∷ 1 ∷ 9 ∷ 2 ∷ 4 ∷ 0 ∷ []

low_ones_dropped : simplify_dp height above 0 line 3 ≡ done (0 ∷ 9 ∷ 4 ∷ 0 ∷ [])
unfolding flagged farthest split_between split_all simplify_dp
low_ones_dropped = refl

simplify_dp-IsPart_example :
    (out : List ℕ) × (simplify_dp height above 0 line 3 ≡ done out)
    × IsPart out line
    × (first_of out ≡ first_of line)
    × (last_of out ≡ last_of line)
simplify_dp-IsPart_example = simplify_dp-IsPart height above 0 line 3 refl
