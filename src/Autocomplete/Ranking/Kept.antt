-- ===== src/Autocomplete/Ranking/Kept.antt =====
-- The heap of server/src/autocomplete.rs keeps the best of the items that are visited.
use mathlib.Core.List.{Perm}
use mathlib.Core.List.Perm
use geocoder.Prelude.{
  suc, ◌≡◌, refl, ap, true, false, inl, inr, List, [], ◌∷◌, arith, length, All, Bool-cases,
}
use geocoder.Autocomplete.Ranking.{Item, leq, heap_push}

leq_trans : (a b c : Item) → leq a b ≡ true → leq b c ≡ true → leq a c ≡ true
leq_trans (r, i) (s, j) (t, k) h g = ground arith

leq_total : (a b : Item) → leq a b ≡ false → leq b a ≡ true
leq_total (r, i) (s, j) h = ground arith

leq_refl : (a : Item) → leq a a ≡ true
leq_refl (r, i) = ground arith

-- No item is above a bound.
abbrev pub Below : Item → List Item → Type 0
Below b = All (λ x. leq x b ≡ true)

-- The first item is the greatest, and so on.
abbrev pub Descends : List Item → Type 0
Descends [] = Unit
Descends (k ∷ heap) = Below k heap × Descends heap

Below-trans : (a b : Item) (heap : List Item) → leq a b ≡ true → Below a heap → Below b heap
Below-trans a b [] h g = tt
Below-trans a b (x ∷ heap) h (gx, g) = (leq_trans x a b gx h, Below-trans a b heap h g)

heap_push-Below :
    (b x : Item) (heap : List Item) → leq x b ≡ true → Below b heap → Below b (heap_push x heap)
unfolding heap_push
heap_push-Below b x [] hx h = (hx, tt)
heap_push-Below b x (k ∷ heap) hx (hk, h) = elim (Bool-cases (leq k x)) [
  | inl t ↦ rw t (hx, (hk, h))
  | inr f ↦ rw f (hk, heap_push-Below b x heap hx h)
]

pub heap_push-Descends : (x : Item) (heap : List Item) → Descends heap → Descends (heap_push x heap)
unfolding heap_push
heap_push-Descends x [] h = (tt, tt)
heap_push-Descends x (k ∷ heap) (hk, h) = elim (Bool-cases (leq k x)) [
  | inl t ↦ rw t ((t, Below-trans k x heap t hk), (hk, h))
  | inr f ↦ rw f (heap_push-Below k x heap (leq_total k x f) hk, heap_push-Descends x heap h)
]

pub heap_push-Perm : (x : Item) (heap : List Item) → Perm (heap_push x heap) (x ∷ heap)
unfolding heap_push
heap_push-Perm x [] = Perm.refl (x ∷ [])
heap_push-Perm x (k ∷ heap) = elim (Bool-cases (leq k x)) [
  | inl t ↦ rw t (Perm.refl (x ∷ k ∷ heap))
  | inr f ↦ rw f (Perm.trans (Perm.cons k (heap_push-Perm x heap)) (Perm.swap x k heap))
]

pub length-heap_push : (x : Item) (heap : List Item) → length (heap_push x heap) ≡ suc (length heap)
unfolding heap_push
length-heap_push x [] = refl
length-heap_push x (k ∷ heap) = elim (Bool-cases (leq k x)) [
  | inl t ↦ rw t refl
  | inr f ↦ rw f (ap suc (length-heap_push x heap))
]

-- What is popped is above what stays, and so is what was dropped before.
abbrev pub Stays : List Item → List Item → Type 0
Stays dropped [] = ⊥
Stays dropped (m ∷ heap) = Below m heap × All (λ d. Below d heap) dropped

All-Below :
    (k : Item) (heap dropped : List Item)
    → All (λ d. leq k d ≡ true) dropped
    → Below k heap
    → All (λ d. Below d heap) dropped
All-Below k heap [] h g = tt
All-Below k heap (d ∷ dropped) (hd, h) g = (Below-trans k d heap hd g, All-Below k heap dropped h g)

heads :
    (k : Item) (heap dropped : List Item)
    → All (λ d. Below d (k ∷ heap)) dropped
    → All (λ d. leq k d ≡ true) dropped
heads k heap [] h = tt
heads k heap (d ∷ dropped) ((hd, _), h) = (hd, heads k heap dropped h)

nothing-Below : (dropped : List Item) → All (λ d. Below d []) dropped
nothing-Below [] = tt
nothing-Below (d ∷ dropped) = (tt, nothing-Below dropped)

pub heap_push-Stays :
    (x : Item) (heap dropped : List Item)
    → Descends heap
    → All (λ d. Below d heap) dropped
    → Stays dropped (heap_push x heap)
unfolding heap_push
heap_push-Stays x [] dropped h g = (tt, nothing-Below dropped)
heap_push-Stays x (k ∷ heap) dropped (hk, h) g = elim (Bool-cases (leq k x)) [
  | inl t ↦ rw t ((t, Below-trans k x heap t hk), g)
  | inr f ↦
      let low : Below k (heap_push x heap) = heap_push-Below k x heap (leq_total k x f) hk in
      rw f (low, All-Below k (heap_push x heap) dropped (heads k heap dropped g) low)
]
