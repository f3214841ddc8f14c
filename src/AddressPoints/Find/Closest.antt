-- ===== src/AddressPoints/Find/Closest.antt =====
-- `find_nearest` of server/src/address_points.rs returns a nearest point of the cells around the query.
use geocoder.Prelude.{
  ℕ, ◌≡◌, refl, ap, sym, ◌∙◌, Bool, true, List, [], ◌∷◌, ◌++◌, Option, none, inl, inr, get_elem?,
  is_empty, done, and_then-eq-done, Bool-cases, Option-cases,
}
use geocoder.Search.Nearest.{IsOrder, nearer, pick, Least, pick-Least}
use geocoder.AddressPoints.{cell_ids}
use geocoder.AddressPoints.Find.{
  AddressPoint, AddressPointIndex, hydrated, visit_all, visit_all_cells, find_nearest,
}
use geocoder.AddressPoints.Find.Gather.{
  gathered, resolved, resolved-none, resolved-some, resolved_empty,
}

module _ {F D : Type 0} (dist : AddressPoint F → D) (less : D → D → Bool)
    (self : AddressPointIndex F) where
  abbrev nearest : List (AddressPoint F) → Option (D × AddressPoint F) → Option (D × AddressPoint F)
  nearest = pick dist less (λ p. true)

  visit_all-pick :
      (ids : List ℕ) (best : Option (D × AddressPoint F))
      → visit_all dist less self ids best ≡ nearest (resolved self.points ids) best
  unfolding visit_all pick
  visit_all-pick [] best = refl
  visit_all-pick (id ∷ ids) best = elim (Option-cases (get_elem? self.points id)) [
    | inl e ↦ rw (visit_all, resolved-none self.points id ids e, e) (visit_all-pick ids best)
    | inr (p, e) ↦
        rw (visit_all, resolved-some self.points id ids e, e)
          (visit_all-pick ids (nearer dist less best p))
  ]

  visit_all-append :
      (ids more : List ℕ) (best : Option (D × AddressPoint F))
      → visit_all dist less self (ids ++ more) best
        ≡ visit_all dist less self more (visit_all dist less self ids best)
  unfolding visit_all
  visit_all-append [] more best = refl
  visit_all-append (id ∷ ids) more best = elim (Option-cases (get_elem? self.points id)) [
    | inl e ↦ rw (visit_all, e) (visit_all-append ids more best)
    | inr (p, e) ↦ rw (visit_all, e) (visit_all-append ids more _)
  ]

  visit_all_cells-gathered :
      (near : List ℕ) (best : Option (D × AddressPoint F)) {ids : List ℕ}
      → gathered self near ≡ done ids
      → visit_all_cells dist less self near best ≡ done (visit_all dist less self ids best)
  unfolding visit_all_cells visit_all
  visit_all_cells-gathered [] best {ids} e =
      let q : [] ≡ ids = cc in ap (λ is. done (visit_all dist less self is best)) q
  visit_all_cells-gathered (cell ∷ near) best {ids} e =
      let (here, p, q) = and_then-eq-done (cell_ids self.cells self.entries cell) _ e in
      let (more, r, t) = and_then-eq-done (gathered self near) _ q in
      let u : here ++ more ≡ ids = cc in
      rw (visit_all_cells, p)
        (visit_all_cells-gathered near (visit_all dist less self here best) r
          ∙ ap done (sym (visit_all-append here more best))
          ∙ ap (λ is. done (visit_all dist less self is best)) u)

  module _ (order : IsOrder less) (near ids : List ℕ) (held : gathered self near ≡ done ids) where
    -- The search without a house number returns a nearest point of the cells around the query, and
    -- nothing when they hold none. The cells can be read and the distances are ordered.
    pub find_nearest-Least :
        (best : Option (D × AddressPoint F)) × (find_nearest dist less self near
          ≡ done (hydrated dist less self best))
        × Least dist less (λ p. true) (resolved self.points ids) best
    unfolding find_nearest pick
    find_nearest-Least =
        let ps = resolved self.points ids in
        let searched : visit_all_cells dist less self near none ≡ done (nearest ps none) =
          visit_all_cells-gathered near none held ∙ ap done (visit_all-pick ids none) in
        let returned : find_nearest dist less self near
            ≡ done (hydrated dist less self (nearest ps none)) =
          elim (Bool-cases (is_empty self.points)) [
            | inl none_there ↦
                rw (find_nearest, none_there)
                  (ap (λ qs. done (hydrated dist less self (nearest qs none)))
                    (resolved_empty self.points ids none_there))
            | inr some_there ↦ rw (find_nearest, some_there, searched) refl
          ] in
        (nearest ps none, returned, pick-Least dist less (λ p. true) order ps)
