-- ===== src/Importer/Simplify.antt =====
-- `simplify_dp` of tools/wof-importer/src/main.rs, which drops vertices of a polyline. `V` is the type
-- of a vertex and `D` that of a distance; `distance a b p` is how far `p` is from the segment between
-- `a` and `b`, `greater` is `>` and `zero_distance` is `0.0`.
pub mod Stops
use geocoder.Prelude.{
  ℕ, zero, suc, ◌+◌, ◌-◌, ◌*◌, Bool, true, false, List, [], ◌∷◌, Option, none, some, if◌then◌else◌,
  ltb, leb, length, get_elem?, take, drop, Outcome, done, panic, no_fuel, or_panic, and_then,
}

-- `keep[k] = true`.
abbrev pub set_true : ℕ → List Bool → List Bool
set_true k [] = []
set_true zero (b ∷ keep) = true ∷ keep
set_true (suc k) (b ∷ keep) = b ∷ set_true k keep

-- `vec![false; n]`.
abbrev pub all_false : ℕ → List Bool
all_false zero = []
all_false (suc n) = false ∷ all_false n

-- The vertices whose flag is set.
unfoldable pub flagged : {V : Type 0} → List V → List Bool → List V
flagged [] keep = []
flagged (p ∷ ring) [] = []
flagged (p ∷ ring) (b ∷ keep) = let rest = flagged ring keep in if b then p ∷ rest else rest

module _ {V D : Type 0} (distance : V → V → V → D) (greater : D → D → Bool)
    (zero_distance : D) where
  -- The farthest of the vertices from `k` on, and the first of those that are equally far.
  unfoldable pub farthest : V → V → List V → ℕ → D × ℕ → D × ℕ
  farthest a b [] k best = best
  farthest a b (p ∷ points) k best =
      farthest a b points (suc k)
        (if greater (distance a b p) best.0 then (distance a b p, k) else best)

  -- The vertex to keep between `i` and `j`.
  unfoldable pub split_between : List V → D → ℕ → ℕ → Outcome (Option ℕ)
  unfolding farthest
  split_between ring eps i j = and_then (or_panic (get_elem? ring i)) λ a.
      and_then (or_panic (get_elem? ring j)) λ b.
        let (max_d, max_k) = farthest a b (drop (suc i) (take j ring)) (suc i) (zero_distance, i) in
        if greater max_d eps then done (some max_k) else done none

  -- The loop over the stack, whose top is the head of the list.
  unfoldable pub split_all : ℕ → List V → D → List (ℕ × ℕ) → List Bool → Outcome (List Bool)
  unfolding split_between
  split_all fuel ring eps [] keep = done keep
  split_all zero ring eps (_ ∷ stack) keep = no_fuel
  split_all (suc fuel) ring eps ((i, j) ∷ stack) keep = elim (leb j (i + 1)) [
    | true ↦ split_all fuel ring eps stack keep
    | false ↦ and_then (split_between ring eps i j) λ found. elim found [
      | none ↦ split_all fuel ring eps stack keep
      | some max_k ↦ split_all fuel ring eps ((max_k, j) ∷ (i, max_k) ∷ stack) (set_true max_k keep)
    ]
  ]

  unfoldable pub simplify_dp : List V → D → Outcome (List V)
  unfolding split_all flagged
  simplify_dp ring eps =
      if ltb (length ring) 3
      then done ring
      else let last = length ring - 1 in
        and_then
          (split_all (2 * length ring) ring eps ((0, last) ∷ [])
            (set_true last (set_true 0 (all_false (length ring)))))
          λ keep. done (flagged ring keep)
