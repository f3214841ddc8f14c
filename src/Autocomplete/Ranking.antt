-- ===== src/Autocomplete/Ranking.antt =====
-- The bounded heap by which server/src/autocomplete.rs ranks the keys that a walk visits. A
-- `BinaryHeap` is the list of its items in descending order, so that `pop` takes the first.
pub mod Kept
pub mod Best
use geocoder.Prelude.{
  ℕ, zero, suc, Bool, ◌&&◌, ◌||◌, List, [], ◌∷◌, Option, none, some, if◌then◌else◌, ltb, leb, ◌==◌,
  length, get_elem?,
}

-- A rank and an id.
abbrev pub Item : Type 0
Item = ℕ × ℕ

-- `≤` on `(u8, u64)`.
abbrev pub leq : Item → Item → Bool
leq a b = ltb a.0 b.0 || ((a.0 == b.0) && leb a.1 b.1)

unfoldable pub heap_push : Item → List Item → List Item
heap_push x [] = x ∷ []
heap_push x (k ∷ heap) = let rest = heap_push x heap in if leq k x then x ∷ k ∷ heap else k ∷ rest

abbrev pub heap_pop : List Item → List Item
heap_pop [] = []
heap_pop (k ∷ heap) = heap

unfoldable pub heap_push_bounded : List Item → Item → ℕ → List Item
unfolding heap_push
heap_push_bounded heap x limit =
    let pushed = heap_push x heap in if ltb limit (length pushed) then heap_pop pushed else pushed

abbrev pub fst_walk_cap : ℕ
fst_walk_cap = 10000

-- The loop of `starts_with` over the ids that the walk yields: at most `cap` of them are visited,
-- and one beyond the records is skipped. `rank_of` reads the rank of a record.
unfoldable pub walk : (ℕ → Option ℕ) → ℕ → ℕ → List ℕ → List Item → List Item
unfolding heap_push_bounded
walk rank_of limit cap [] heap = heap
walk rank_of limit zero (id ∷ ids) heap = heap
walk rank_of limit (suc cap) (id ∷ ids) heap = elim (rank_of id) [
  | none ↦ walk rank_of limit cap ids heap
  | some rank ↦ walk rank_of limit cap ids (heap_push_bounded heap (rank, id) limit)
]
