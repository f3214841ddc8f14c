-- ===== src/AddressPoints/Find/Chosen.antt =====
-- `find_by_housenumber` of server/src/address_points.rs returns a nearest candidate of those in the
-- cells around the query.
use geocoder.Prelude.{
  ℕ, ◌≡◌, refl, ap, sym, ◌∙◌, Bool, false, ◌&&◌, not, List, [], ◌∷◌, ◌++◌, Option, none, some, inl,
  inr, if◌then◌else◌, ◌==◌, get_elem?, is_empty, trim, eq_ignore_case, Text, done, and_then-eq-done,
  Bool-cases, Option-cases,
}
use geocoder.Search.Nearest.{IsOrder, nearer, pick, Least, pick-Least}
use geocoder.AddressPoints.{cell_ids}
use geocoder.AddressPoints.Find.{
  AddressPoint, AddressPointIndex, Tracks, string_at, needle, is_candidate, track, visit,
  visit_cells, answer, no_tracks, find_by_housenumber,
}
use geocoder.AddressPoints.Find.Gather.{
  gathered, resolved, resolved-none, resolved-some, resolved_empty,
}

module _ {F D : Type 0} (dist : AddressPoint F → D) (less : D → D → Bool)
    (self : AddressPointIndex F) where
  module _ (hn : Text) (street : Option Text) where
    -- A candidate that has the unit, or any candidate when no unit is asked for.
    abbrev pub has_unit : Option Text → AddressPoint F → Bool
    has_unit none p = is_candidate self hn street p
    has_unit (some u) p =
        is_candidate self hn street p
        && (not (p.unit_id == 0) && eq_ignore_case (string_at self p.unit_id) u)

    -- A candidate without a unit, when one is asked for.
    abbrev pub is_building : Option Text → AddressPoint F → Bool
    is_building none p = false
    is_building (some u) p = is_candidate self hn street p && (p.unit_id == 0)

    track_step :
        (u : Option Text) (p : AddressPoint F) (best : Tracks (AddressPoint F) D)
        → (if is_candidate self hn street p then track dist less self u p best else best) ≡ record {
          best_unit_match =
              if has_unit u p
              then nearer dist less best.best_unit_match p
              else best.best_unit_match;
          best_fallback =
              if is_building u p then nearer dist less best.best_fallback p else best.best_fallback;
        }
    unfolding track
    track_step none p best = elim (Bool-cases (is_candidate self hn street p)) [
      | inl c ↦ rw c refl
      | inr c ↦ rw c refl
    ]
    track_step (some u) p best = elim (Bool-cases (is_candidate self hn street p)) [
      | inl c ↦ elim (Bool-cases (p.unit_id == 0)) [
        | inl z ↦ rw (c, z) refl
        | inr z ↦ elim (Bool-cases (eq_ignore_case (string_at self p.unit_id) u)) [
          | inl e ↦ rw (c, z, e) refl
          | inr e ↦ rw (c, z, e) refl
        ]
      ]
      | inr c ↦ rw c refl
    ]

    module _ (unit : Option Text) where
      abbrev picked : List (AddressPoint F) → Tracks (AddressPoint F) D → Tracks (AddressPoint F) D
      picked ps best = record {
        best_unit_match = pick dist less (has_unit unit) ps best.best_unit_match;
        best_fallback = pick dist less (is_building unit) ps best.best_fallback;
      }

      visit-picked :
          (ids : List ℕ) (best : Tracks (AddressPoint F) D)
          → visit dist less self hn street unit ids best ≡ picked (resolved self.points ids) best
      unfolding visit pick
      visit-picked [] best = refl
      visit-picked (id ∷ ids) best = elim (Option-cases (get_elem? self.points id)) [
        | inl e ↦ rw (visit, resolved-none self.points id ids e, e) (visit-picked ids best)
        | inr (p, e) ↦
            rw (visit, resolved-some self.points id ids e, e)
              (visit-picked ids _ ∙ ap (picked (resolved self.points ids)) (track_step unit p best))
      ]

      visit-append :
          (ids more : List ℕ) (best : Tracks (AddressPoint F) D)
          → visit dist less self hn street unit (ids ++ more) best
            ≡ visit dist less self hn street unit more
                (visit dist less self hn street unit ids best)
      unfolding visit
      visit-append [] more best = refl
      visit-append (id ∷ ids) more best = elim (Option-cases (get_elem? self.points id)) [
        | inl e ↦ rw (visit, e) (visit-append ids more best)
        | inr (p, e) ↦ rw (visit, e) (visit-append ids more _)
      ]

      visit_cells-gathered :
          (near : List ℕ) (best : Tracks (AddressPoint F) D) {ids : List ℕ}
          → gathered self near ≡ done ids
          → visit_cells dist less self hn street unit near best
            ≡ done (visit dist less self hn street unit ids best)
      unfolding visit_cells visit
      visit_cells-gathered [] best {ids} e =
          let q : [] ≡ ids = cc in ap (λ is. done (visit dist less self hn street unit is best)) q
      visit_cells-gathered (cell ∷ near) best {ids} e =
          let (here, p, q) = and_then-eq-done (cell_ids self.cells self.entries cell) _ e in
          let (more, r, t) = and_then-eq-done (gathered self near) _ q in
          let u : here ++ more ≡ ids = cc in
          rw (visit_cells, p)
            (visit_cells-gathered near (visit dist less self hn street unit here best) r
              ∙ ap done (sym (visit-append here more best))
              ∙ ap (λ is. done (visit dist less self hn street unit is best)) u)

  module _ (order : IsOrder less) (near ids : List ℕ) (held : gathered self near ≡ done ids) where
    -- The search by house number returns the nearest candidate with the unit, or any candidate when
    -- no unit is asked for; failing that, the nearest candidate without a unit; and nothing when
    -- there is neither. The candidates are the points of the cells around the query whose house
    -- number matches and whose street holds the hint. The cells can be read, the house number is
    -- not blank, and the distances are ordered.
    pub find_by_housenumber-Least :
        (housenumber : Text) (street_hint unit_hint : Option Text)
        → is_empty (trim housenumber) ≡ false
        → (best : Tracks (AddressPoint F) D) × (find_by_housenumber dist less self housenumber
              street_hint unit_hint near
            ≡ done (answer dist less self best))
          × Least dist less
              (has_unit (trim housenumber) (needle street_hint) (needle unit_hint))
              (resolved self.points ids)
              best.best_unit_match
          × Least dist less
              (is_building (trim housenumber) (needle street_hint) (needle unit_hint))
              (resolved self.points ids)
              best.best_fallback
    unfolding find_by_housenumber pick
    find_by_housenumber-Least housenumber street_hint unit_hint nonempty =
        let hn = trim housenumber in
        let street = needle street_hint in
        let unit = needle unit_hint in
        let ps = resolved self.points ids in
        let best : Tracks (AddressPoint F) D = picked hn street unit ps no_tracks in
        let searched : visit_cells dist less self hn street unit near no_tracks ≡ done best =
          visit_cells-gathered hn street unit near no_tracks held
          ∙ ap done (visit-picked hn street unit ids no_tracks) in
        let returned : find_by_housenumber dist less self housenumber street_hint unit_hint near
            ≡ done (answer dist less self best) =
          elim (Bool-cases (is_empty self.points)) [
            | inl none_there ↦
                rw (find_by_housenumber, nonempty, none_there)
                  (ap (λ qs. done (answer dist less self (picked hn street unit qs no_tracks)))
                    (resolved_empty self.points ids none_there))
            | inr some_there ↦ rw (find_by_housenumber, nonempty, some_there, searched) refl
          ] in
        (
          best,
          returned,
          pick-Least dist less (has_unit hn street unit) order ps,
          pick-Least dist less (is_building hn street unit) order ps,
        )
