-- ===== src/Search/Nearest.antt =====
-- `if best.is_none_or(|(d, _)| dist < d) { best = Some((dist, p)) }`, by which server/src keeps the
-- nearest of the candidates that it visits. Distances and their comparison are parameters.
use geocoder.Prelude.{
  ◌≡◌, refl, ap, sym, ◌∙◌, subst, Bool, true, false, List, [], ◌∷◌, Option, none, some, ◌⊎◌, inl,
  inr, if◌then◌else◌, All, Bool-cases,
}

-- `<` on numbers none of which is NaN: a strict order whose incomparable numbers are alike.
pub record IsOrder {D : Type 0} (less : D → D → Bool) : Type 0 where
  pub irrefl : (a : D) → less a a ≡ false
  pub trans : (a b c : D) → less a b ≡ true → less b c ≡ true → less a c ≡ true
  pub between : (a b c : D) → less a b ≡ false → less b c ≡ false → less a c ≡ false

module _ {P D : Type 0} (dist : P → D) (less : D → D → Bool) where
  unfoldable pub nearer : Option (D × P) → P → Option (D × P)
  nearer none p = some (dist p, p)
  nearer (some (d, q)) p = if less (dist p) d then some (dist p, p) else some (d, q)

  abbrev pub Among : P → List P → Type 0
  Among p [] = ⊥
  Among p (q ∷ ps) = (q ≡ p) ⊎ Among p ps

  module _ (test : P → Bool) where
    -- The nearest so far, after the candidates that pass a test.
    unfoldable pub pick : List P → Option (D × P) → Option (D × P)
    unfolding nearer
    pick [] best = best
    pick (p ∷ ps) best = pick ps (if test p then nearer best p else best)

    -- No candidate that passes is nearer.
    abbrev pub NoneNearer : D → List P → Type 0
    NoneNearer d = All (λ q. test q ≡ true → less (dist q) d ≡ false)

    -- A nearest one of the candidates that pass, or none passes.
    abbrev pub Least : List P → Option (D × P) → Type 0
    Least ps none = All (λ q. test q ≡ false) ps
    Least ps (some (d, p)) = (d ≡ dist p) × Among p ps × (test p ≡ true) × NoneNearer d ps

    abbrev Improves : D → P → List P → Option (D × P) → Type 0
    Improves d p ps none = ⊥
    Improves d p ps (some (e, q)) =
        (((e ≡ d) × (q ≡ p)) ⊎ ((e ≡ dist q) × Among q ps × (test q ≡ true)))
        × (less d e ≡ false)
        × NoneNearer e ps

    module _ (order : IsOrder less) where
      keeps : (a b c : D) → less a b ≡ true → less a c ≡ false → less b c ≡ false
      keeps a b c h k = elim (Bool-cases (less b c)) [
        | inl t ↦ let e = order.trans a b c h t in cc
        | inr f ↦ f
      ]

      Improves-taken :
          (x : P) (d : D) (p : P) (ps : List P) (r : Option (D × P))
          → test x ≡ true
          → less (dist x) d ≡ true
          → Improves (dist x) x ps r
          → Improves d p (x ∷ ps) r
      Improves-taken x d p ps none t b h = elim h [ ]
      Improves-taken x d p ps (some (e, q)) t b (inl (same, is), worse, others) = (
        inr (same ∙ ap dist (sym is), inl (sym is), subst (λ y. test y ≡ true) (sym is) t),
        keeps (dist x) d e b worse,
        ((λ y. worse), others),
      )
      Improves-taken x d p ps (some (e, q)) t b (inr (same, m, ok), worse, others) =
          (inr (same, inr m, ok), keeps (dist x) d e b worse, ((λ y. worse), others))

      Improves-passed :
          (x : P) (d : D) (p : P) (ps : List P) (r : Option (D × P))
          → (test x ≡ true → less (dist x) d ≡ false)
          → Improves d p ps r
          → Improves d p (x ∷ ps) r
      Improves-passed x d p ps none b h = elim h [ ]
      Improves-passed x d p ps (some (e, q)) b (inl is, worse, others) =
          (inl is, worse, ((λ y. order.between (dist x) d e (b y) worse), others))
      Improves-passed x d p ps (some (e, q)) b (inr (same, m, ok), worse, others) =
          (inr (same, inr m, ok), worse, ((λ y. order.between (dist x) d e (b y) worse), others))

      pick-Improves : (ps : List P) (d : D) (p : P) → Improves d p ps (pick ps (some (d, p)))
      unfolding pick
      pick-Improves [] d p = (inl (refl, refl), order.irrefl d, tt)
      pick-Improves (x ∷ ps) d p = elim (Bool-cases (test x)) [
        | inl t ↦ elim (Bool-cases (less (dist x) d)) [
          | inl b ↦ rw (t, b) (Improves-taken x d p ps _ t b (pick-Improves ps (dist x) x))
          | inr b ↦ rw (t, b) (Improves-passed x d p ps _ (λ y. b) (pick-Improves ps d p))
        ]
        | inr t ↦ rw t (Improves-passed x d p ps _ (λ y. cc) (pick-Improves ps d p))
      ]

      Least-first :
          (x : P) (ps : List P) (r : Option (D × P))
          → test x ≡ true
          → Improves (dist x) x ps r
          → Least (x ∷ ps) r
      Least-first x ps none t h = elim h [ ]
      Least-first x ps (some (e, q)) t (inl (same, is), worse, others) = (
        same ∙ ap dist (sym is),
        inl (sym is),
        subst (λ y. test y ≡ true) (sym is) t,
        ((λ y. worse), others),
      )
      Least-first x ps (some (e, q)) t (inr (same, m, ok), worse, others) =
          (same, inr m, ok, ((λ y. worse), others))

      Least-other :
          (x : P) (ps : List P) (r : Option (D × P))
          → test x ≡ false
          → Least ps r
          → Least (x ∷ ps) r
      Least-other x ps none t h = (t, h)
      Least-other x ps (some (e, q)) t (same, m, ok, others) =
          (same, inr m, ok, ((λ y. cc), others))

      pub pick-Least : (ps : List P) → Least ps (pick ps none)
      unfolding pick
      pick-Least [] = tt
      pick-Least (x ∷ ps) = elim (Bool-cases (test x)) [
        | inl t ↦ rw t (Least-first x ps _ t (pick-Improves ps (dist x) x))
        | inr t ↦ rw t (Least-other x ps _ t (pick-Least ps))
      ]
