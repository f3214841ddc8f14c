-- ===== src/Autocomplete/Ranking/Best.antt =====
-- The walk of server/src/autocomplete.rs returns the best `limit` of the items that it visits.
use mathlib.Core.List.{Perm, perm_middle}
use mathlib.Core.List.Perm
use geocoder.Prelude.{
  ℕ, zero, suc, ◌≤◌, ◌<◌, ◌≡◌, refl, subst, ◌⊎◌, inl, inr, List, [], ◌∷◌, ◌++◌, append-nil, Option,
  none, some, arith, ltb, ltb→lt, length, All, Bool-cases, Option-cases,
}
use geocoder.Autocomplete.Ranking.{Item, heap_push, heap_pop, heap_push_bounded, walk}
use geocoder.Autocomplete.Ranking.Kept.{
  Below, Descends, Stays, heap_push-Descends, heap_push-Perm, length-heap_push, heap_push-Stays,
}

-- A heap has the best `limit` of the items seen: the others are dropped, and only when it is full.
pub record Best (limit : ℕ) (seen heap : List Item) : Type 0 where
  pub dropped : List Item
  pub perm : Perm (heap ++ dropped) seen
  pub below : All (λ d. Below d heap) dropped
  pub descends : Descends heap
  pub few : length heap ≤ limit
  pub full : (length heap ≡ limit) ⊎ (dropped ≡ [])

module _ (limit : ℕ) (x : Item) (seen heap : List Item) (best : Best limit seen heap) where
  pushed_perm : (p : List Item) → Perm p (x ∷ heap) → Perm (p ++ best.dropped) (x ∷ seen)
  pushed_perm p h = Perm.trans (Perm.append_right best.dropped h) (Perm.cons x best.perm)

  popped :
      (p : List Item)
      → Perm p (x ∷ heap)
      → Descends p
      → Stays best.dropped p
      → length p ≡ suc (length heap)
      → limit < length p
      → Best limit (x ∷ seen) (heap_pop p)
  popped [] h d s l lt = elim s [ ]
  popped (m ∷ t) h (hm, d) (sm, s) l lt = record {
    dropped = m ∷ best.dropped;
    perm = Perm.trans (perm_middle t best.dropped) (pushed_perm (m ∷ t) h);
    below = (sm, s);
    descends = d;
    few = omega (arith, l, best.few);
    full = inl (omega (arith, l, lt, best.few));
  }

  pub heap_push_bounded-Best : Best limit (x ∷ seen) (heap_push_bounded heap x limit)
  unfolding heap_push_bounded
  heap_push_bounded-Best =
      let p = heap_push x heap in
      let h = heap_push-Perm x heap in
      let d = heap_push-Descends x heap best.descends in
      elim (Bool-cases (ltb limit (length p))) [
        | inl over ↦ rw over (
            popped p h d (heap_push-Stays x heap best.dropped best.descends best.below)
              (length-heap_push x heap) (ltb→lt limit (length p) over))
        | inr room ↦
            let space : length p ≤ limit = ground arith in
            let q : best.dropped ≡ [] = elim best.full [
              | inl f ↦ absurd (omega (arith, f, space, length-heap_push x heap))
              | inr e ↦ e
            ] in
            rw room (record {
              dropped = [];
              perm = subst (λ r. Perm (p ++ r) (x ∷ seen)) q (pushed_perm p h);
              below = tt;
              descends = d;
              few = space;
              full = inr refl;
            })
      ]

-- The items that the walk visits: those of the first `cap` ids that have a record.
abbrev pub visited : (ℕ → Option ℕ) → ℕ → List ℕ → List Item
visited rank_of cap [] = []
visited rank_of zero (id ∷ ids) = []
visited rank_of (suc cap) (id ∷ ids) = elim (rank_of id) [
  | none ↦ visited rank_of cap ids
  | some rank ↦ (rank, id) ∷ visited rank_of cap ids
]

Best-reorder :
    (limit : ℕ) (seen seen' heap : List Item)
    → Perm seen seen'
    → Best limit seen heap
    → Best limit seen' heap
Best-reorder limit seen seen' heap p b = record {
  dropped = b.dropped;
  perm = Perm.trans b.perm p;
  below = b.below;
  descends = b.descends;
  few = b.few;
  full = b.full;
}

walk-Best_from :
    (rank_of : ℕ → Option ℕ) (limit cap : ℕ) (ids : List ℕ) (seen heap : List Item)
    → Best limit seen heap
    → Best limit (visited rank_of cap ids ++ seen) (walk rank_of limit cap ids heap)
unfolding walk
walk-Best_from rank_of limit cap [] seen heap b = b
walk-Best_from rank_of limit zero (id ∷ ids) seen heap b = b
walk-Best_from rank_of limit (suc cap) (id ∷ ids) seen heap b = elim (Option-cases (rank_of id)) [
  | inl e ↦ rw (visited, walk, e) (walk-Best_from rank_of limit cap ids seen heap b)
  | inr (rank, e) ↦
      rw (visited, walk, e)
        (Best-reorder limit (visited rank_of cap ids ++ (rank, id) ∷ seen)
          ((rank, id) ∷ (visited rank_of cap ids ++ seen)) _
          (perm_middle (visited rank_of cap ids) seen)
          (walk-Best_from rank_of limit cap ids ((rank, id) ∷ seen)
            (heap_push_bounded heap (rank, id) limit)
            (heap_push_bounded-Best limit (rank, id) seen heap b)))
]

-- The heap at the end of the walk holds the best of the items visited, in descending order and at
-- most `limit` of them: every other item visited is no better than any that it holds, and there is
-- such an item only when the heap is full.
pub walk-Best :
    (rank_of : ℕ → Option ℕ) (limit cap : ℕ) (ids : List ℕ)
    → Best limit (visited rank_of cap ids) (walk rank_of limit cap ids [])
walk-Best rank_of limit cap ids =
    subst (λ s. Best limit s (walk rank_of limit cap ids [])) (append-nil (visited rank_of cap ids))
      (walk-Best_from rank_of limit cap ids [] [] (record {
        dropped = [];
        perm = Perm.refl [];
        below = tt;
        descends = tt;
        few = omega arith;
        full = inr refl;
      }))
