-- ===== src/Strings/Split.antt =====
-- `split_once` and `split` against concatenation.
use geocoder.Prelude.{
  ℕ, ◌≡◌, refl, [], ◌∷◌, ◌++◌, none, some, arith, Text, ◌==◌, ==_refl, ne→==, split_once, split,
  Lacks, Bool-cases, Option-cases, inl, inr,
}

pub split_once_lem :
    (a b : Text) (sep : ℕ) → Lacks sep a → split_once (a ++ sep ∷ b) sep ≡ some (a, b)
unfolding split_once
split_once_lem [] b sep h = rw (==_refl sep)
split_once_lem (c ∷ a) b sep (hc, ha) = rw (ne→== c sep hc, split_once_lem a b sep ha)

pub split_once-none : (s : Text) (sep : ℕ) → Lacks sep s → split_once s sep ≡ none
unfolding split_once
split_once-none [] sep h = refl
split_once-none (c ∷ s) sep (hc, hs) = rw (ne→== c sep hc, split_once-none s sep hs)

-- The two texts spell the whole, and the first holds no separator.
pub split_once_sound :
    (s : Text) (sep : ℕ) {a b : Text}
    → split_once s sep ≡ some (a, b)
    → (s ≡ a ++ sep ∷ b) × Lacks sep a
unfolding split_once
split_once_sound [] sep h = absurd (cc)
split_once_sound (c ∷ s) sep h = elim (Bool-cases (c == sep)) [
  | inl e ↦ ground (arith, rw e at h)
  | inr e ↦ elim (Option-cases (split_once s sep)) [
    | inl n ↦ absurd (cc (rw (e, n) at h))
    | inr ((a', b'), r) ↦
        let (q, l) = split_once_sound s sep r in ground (arith, rw (e, r) at h, q, l)
  ]
]

-- `split` at a separator that the first part does not hold.
pub split_lem : (p s : Text) (sep : ℕ) → Lacks sep p → split (p ++ sep ∷ s) sep ≡ p ∷ split s sep
unfolding split
split_lem [] s sep h = rw (==_refl sep)
split_lem (c ∷ p) s sep (hc, hp) = rw (ne→== c sep hc, split_lem p s sep hp)

pub split_last : (p : Text) (sep : ℕ) → Lacks sep p → split p sep ≡ p ∷ []
unfolding split
split_last [] sep h = refl
split_last (c ∷ p) sep (hc, hp) = rw (ne→== c sep hc, split_last p sep hp)
