-- ===== src/Importer/Simplify/Stops.antt =====
-- The loop of `simplify_dp` in tools/wof-importer/src/main.rs comes to an end.
use geocoder.Prelude.{
  ℕ, zero, suc, ◌+◌, ◌-◌, ◌*◌, ◌≤◌, ◌<◌, ◌≡◌, ◌⊎◌, refl, sym, ap, ◌∙◌, Bool, true, false, List, [],
  ◌∷◌, Option, none, some, if◌then◌else◌, ltb, leb, length, length-drop, get_elem?, get_elem?-lt,
  take, drop, done, Bool-cases, inl, inr, arith, All,
}
use geocoder.Importer.Simplify.{
  set_true, all_false, flagged, farthest, split_between, split_all, simplify_dp,
}

-- A list with elements left out.
abbrev pub IsPart : {V : Type 0} → List V → List V → Type 0
IsPart [] ys = Unit {0}
IsPart (x ∷ xs) [] = ⊥
IsPart (x ∷ xs) (y ∷ ys) = ((x ≡ y) × IsPart xs ys) ⊎ IsPart (x ∷ xs) ys

skipped-IsPart : {V : Type 0} (p : V) (xs ys : List V) → IsPart xs ys → IsPart xs (p ∷ ys)
skipped-IsPart p [] ys h = tt
skipped-IsPart p (x ∷ xs) ys h = inr h

flagged-IsPart : {V : Type 0} (ring : List V) (keep : List Bool) → IsPart (flagged ring keep) ring
unfolding flagged
flagged-IsPart [] keep = tt
flagged-IsPart (p ∷ ring) [] = tt
flagged-IsPart (p ∷ ring) (true ∷ keep) = inl (refl, flagged-IsPart ring keep)
flagged-IsPart (p ∷ ring) (false ∷ keep) =
    skipped-IsPart p (flagged ring keep) ring (flagged-IsPart ring keep)

abbrev pub first_of : {V : Type 0} → List V → Option V
first_of [] = none
first_of (p ∷ ring) = some p

abbrev pub last_of : {V : Type 0} → List V → Option V
last_of [] = none
last_of (p ∷ []) = some p
last_of (p ∷ q ∷ ring) = last_of (q ∷ ring)

last_there : {V : Type 0} (q : V) (ring : List V) → last_of (q ∷ ring) ≡ none → ⊥
last_there q [] h = cc
last_there q (r ∷ ring) h = last_there r ring h

last_some :
    {V : Type 0} (p q : V) (ring kept : List V)
    → last_of kept ≡ last_of (q ∷ ring)
    → last_of (p ∷ kept) ≡ last_of (q ∷ ring)
last_some p q ring [] h = absurd (last_there q ring (sym h))
last_some p q ring (r ∷ kept) h = h

IsPart-refl : {V : Type 0} (ring : List V) → IsPart ring ring
IsPart-refl [] = tt
IsPart-refl (p ∷ ring) = inl (refl, IsPart-refl ring)

first-flagged :
    {V : Type 0} (ring : List V) (keep : List Bool)
    → get_elem? keep 0 ≡ some true
    → first_of (flagged ring keep) ≡ first_of ring
unfolding flagged
first-flagged [] keep h = refl
first-flagged (p ∷ ring) [] h = absurd (cc)
first-flagged (p ∷ ring) (true ∷ keep) h = refl
first-flagged (p ∷ ring) (false ∷ keep) h = absurd (cc)

last-flagged :
    {V : Type 0} (n : ℕ) (ring : List V) (keep : List Bool)
    → length ring ≡ suc n
    → get_elem? keep n ≡ some true
    → last_of (flagged ring keep) ≡ last_of ring
unfolding flagged
last-flagged n [] keep h k = absurd (omega (arith, h))
last-flagged n (p ∷ ring) [] h k = absurd (cc)
last-flagged zero (p ∷ []) (true ∷ keep) h k = refl
last-flagged zero (p ∷ []) (false ∷ keep) h k = absurd (cc)
last-flagged (suc n) (p ∷ []) (b ∷ keep) h k = absurd (omega (arith, h))
last-flagged zero (p ∷ q ∷ ring) (b ∷ keep) h k = absurd (omega (arith, h))
last-flagged (suc n) (p ∷ q ∷ ring) (true ∷ keep) h k =
    last_some p q ring (flagged (q ∷ ring) keep)
      (last-flagged n (q ∷ ring) keep (omega (arith, h)) k)
last-flagged (suc n) (p ∷ q ∷ ring) (false ∷ keep) h k =
    last-flagged n (q ∷ ring) keep (omega (arith, h)) k

-- A flag that is set stays set.
set_kept :
    (k i : ℕ) (keep : List Bool)
    → get_elem? keep i ≡ some true
    → get_elem? (set_true k keep) i ≡ some true
set_kept k i [] h = h
set_kept zero zero (b ∷ keep) h = refl
set_kept zero (suc i) (b ∷ keep) h = h
set_kept (suc k) zero (b ∷ keep) h = h
set_kept (suc k) (suc i) (b ∷ keep) h = set_kept k i keep h

set_here : (k : ℕ) (keep : List Bool) → k < length keep → get_elem? (set_true k keep) k ≡ some true
set_here k [] h = absurd (omega arith)
set_here zero (b ∷ keep) h = refl
set_here (suc k) (b ∷ keep) h = set_here k keep (omega arith)

length-set_true : (k : ℕ) (keep : List Bool) → length (set_true k keep) ≡ length keep
length-set_true k [] = refl
length-set_true zero (b ∷ keep) = refl
length-set_true (suc k) (b ∷ keep) = ap suc (length-set_true k keep)

length-all_false : (n : ℕ) → length (all_false n) ≡ n
length-all_false zero = refl
length-all_false (suc n) = ap suc (length-all_false n)

length-take : {V : Type 0} (n : ℕ) (ring : List V) → length (take n ring) ≤ n
length-take zero ring = omega arith
length-take (suc n) [] = omega arith
length-take (suc n) (p ∷ ring) = omega (arith, length-take n ring)

-- What is left to do: twice the length of each part.
abbrev work : List (ℕ × ℕ) → ℕ
work [] = 0
work ((i, j) ∷ stack) = (2 * (j - i) - 1) + work stack

-- The parts of a line of `n` vertices.
abbrev AreParts : ℕ → List (ℕ × ℕ) → Type 0
AreParts n = All (λ p. (p.0 < p.1) × (p.1 < n))

module _ {V D : Type 0} (distance : V → V → V → D) (greater : D → D → Bool)
    (zero_distance : D) where
  -- The best so far, or one of `n` vertices from `k` on.
  abbrev IsFar : D × ℕ → D × ℕ → ℕ → ℕ → Type 0
  IsFar r best k n = (r ≡ best) ⊎ ((k ≤ r.1) × (r.1 < k + n))

  IsFar-step :
      (taken : Bool) (d : D) (r best : D × ℕ) (k n : ℕ)
      → IsFar r (if taken then (d, k) else best) (suc k) n
      → IsFar r best k (suc n)
  IsFar-step true d r best k n (inl e) =
      let at : r.1 ≡ k = ap (λ q. q.1) e in inr (omega arith, omega arith)
  IsFar-step false d r best k n (inl e) = inl e
  IsFar-step taken d r best k n (inr (low, high)) = inr (omega arith, omega arith)

  farthest-IsFar :
      (a b : V) (points : List V) (k : ℕ) (best : D × ℕ)
      → IsFar (farthest distance greater zero_distance a b points k best) best k (length points)
  unfolding farthest
  farthest-IsFar a b [] k best = inl refl
  farthest-IsFar a b (p ∷ points) k best =
      let next = if greater (distance a b p) best.0 then (distance a b p, k) else best in
      IsFar-step (greater (distance a b p) best.0) (distance a b p)
        (farthest distance greater zero_distance a b points (suc k) next) best k (length points)
        (farthest-IsFar a b points (suc k) next)

  module _ (ring : List V) (eps : D) (positive : greater zero_distance eps ≡ false) where
    -- A part is left, or cut at a vertex between its ends.
    split_between-cases :
        (i j : ℕ)
        → i < j
        → j < length ring
        → ((split_between distance greater zero_distance ring eps i j ≡ done none)
            ⊎ ((k : ℕ) × (split_between distance greater zero_distance ring eps i j ≡ done (some k))
                × (i < k)
                × (k < j)))
    unfolding split_between
    split_between-cases i j h l =
        let (a, ea) = get_elem?-lt ring i (omega arith) in
        let (b, eb) = get_elem?-lt ring j l in
        let far =
          farthest distance greater zero_distance a b (drop (suc i) (take j ring)) (suc i)
            (zero_distance, i) in
        let room : length (drop (suc i) (take j ring)) ≤ j - suc i =
          omega (arith, length-drop (suc i) (take j ring), length-take j ring) in
        elim (Bool-cases (greater far.0 eps)) [
          | inr near ↦ inl (rw (split_between, ea, eb, near) refl)
          | inl beyond ↦
              elim (farthest-IsFar a b (drop (suc i) (take j ring)) (suc i) (zero_distance, i)) [
                | inl e ↦ absurd (cc (ap (λ r. greater r.0 eps) e))
                | inr (low, high) ↦
                    inr (far.1, rw (split_between, ea, eb, beyond) refl, omega arith, omega arith)
              ]
        ]

    split_all-done :
        (fuel : ℕ) (stack : List (ℕ × ℕ)) (keep : List Bool)
        → AreParts (length ring) stack
        → work stack ≤ fuel
        → (keep' : List Bool) × (split_all distance greater zero_distance fuel ring eps stack keep
            ≡ done keep')
          × ((i : ℕ) → get_elem? keep i ≡ some true → get_elem? keep' i ≡ some true)
    unfolding split_all
    split_all-done fuel [] keep h w = (keep, refl, λ i k. k)
    split_all-done zero ((i, j) ∷ stack) keep ((lt, _), h) w = absurd (omega arith)
    split_all-done (suc fuel) ((i, j) ∷ stack) keep ((lt, l), h) w =
        elim (Bool-cases (leb j (i + 1))) [
          | inl near ↦ rw (split_all, near) (split_all-done fuel stack keep h (omega arith))
          | inr apart ↦ elim (split_between-cases i j lt l) [
            | inl left ↦
                rw (split_all, apart, left) (split_all-done fuel stack keep h (omega arith))
            | inr (k, cut, low, high) ↦
                let (keep', reached, still) =
                  split_all-done fuel ((k, j) ∷ (i, k) ∷ stack) (set_true k keep)
                    ((high, l), ((low, omega arith), h)) (omega arith) in
                rw (split_all, apart, cut) (keep', reached, λ m e. still m (set_kept k m keep e))
          ]
        ]

    -- When zero does not exceed the tolerance, the loop stops within twice as many steps as there are
    -- vertices, and no index is out of range. The vertices that stay are some of the vertices in
    -- their order, the first and the last among them.
    pub simplify_dp-IsPart :
        (out : List V) × (simplify_dp distance greater zero_distance ring eps ≡ done out)
        × IsPart out ring
        × (first_of out ≡ first_of ring)
        × (last_of out ≡ last_of ring)
    unfolding simplify_dp
    simplify_dp-IsPart = elim (Bool-cases (ltb (length ring) 3)) [
      | inl short ↦ (ring, rw short refl, IsPart-refl ring, refl, refl)
      | inr long ↦
          let n = length ring - 1 in
          let keep = set_true n (set_true 0 (all_false (length ring))) in
          let lt : 3 ≤ length ring = ground (arith, long) in
          let size : length (set_true 0 (all_false (length ring))) ≡ length ring =
            length-set_true 0 (all_false (length ring)) ∙ length-all_false (length ring) in
          let (keep', reached, still) =
            split_all-done (2 * length ring) ((0, n) ∷ []) keep ((omega arith, omega arith), tt)
              (omega arith) in
          let first : get_elem? keep' 0 ≡ some true = still 0 (
            set_kept n 0 (set_true 0 (all_false (length ring))) (
              set_here 0 (all_false (length ring))
                (omega (arith, length-all_false (length ring))))) in
          let last : get_elem? keep' n ≡ some true =
            still n (set_here n (set_true 0 (all_false (length ring))) (omega arith)) in
          (
            flagged ring keep',
            rw (long, reached) refl,
            flagged-IsPart ring keep',
            first-flagged ring keep' first,
            last-flagged n ring keep' (omega arith) last,
          )
    ]
