-- ===== src/Tests/Autocompletions.antt =====
-- The ranking and the folding of server/src/autocomplete.rs on small inputs.
use geocoder.Prelude.{ℕ, ◌≡◌, refl, List, [], ◌∷◌, Option, codes, split, get_elem?}
use geocoder.Autocomplete.Ranking.{walk, fst_walk_cap}
use geocoder.Autocomplete.Ranking.Best.{Best, visited, walk-Best}
use geocoder.Autocomplete.Abbreviations.{fold_place_abbreviations}

program : Unit {0}
unfolding walk split fold_place_abbreviations
program = tt

abbrev rank_of : ℕ → Option ℕ
rank_of id = get_elem? (4 ∷ 2 ∷ 9 ∷ 2 ∷ []) id

abbrev ids : List ℕ
ids = 0 ∷ 1 ∷ 7 ∷ 2 ∷ 3 ∷ []

the_two_best : walk rank_of 2 fst_walk_cap ids [] ≡ (2, 3) ∷ (2, 1) ∷ []
unfolding program
the_two_best = refl

cap_of_two : walk rank_of 2 2 ids [] ≡ (4, 0) ∷ (2, 1) ∷ []
unfolding program
cap_of_two = refl

walk-Best_example : Best 2 (visited rank_of fst_walk_cap ids) (walk rank_of 2 fst_walk_cap ids [])
walk-Best_example = walk-Best rank_of 2 fst_walk_cap ids

leading_and_trailing_st :
    (fold_place_abbreviations (codes "saint kilda st") ≡ codes "st kilda street")
    × (fold_place_abbreviations (codes "mount gambier") ≡ codes "mt gambier")
    × (fold_place_abbreviations (codes "st") ≡ codes "st")
unfolding program
leading_and_trailing_st = (refl, refl, refl)
