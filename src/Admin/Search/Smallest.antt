-- ===== src/Admin/Search/Smallest.antt =====
-- The loop of `find_admin` in server/src/lib.rs keeps a smallest polygon of each level.
use geocoder.Prelude.{
  ℕ, ◌<◌, ◌≡◌, refl, sym, ap, ◌∙◌, subst, Bool, true, false, not, ◌&&◌, List, [], ◌∷◌, ◌++◌, Option,
  none, some, arith, if◌then◌else◌, leb, ◌==◌, Outcome, done, and_then, Bool-cases, Option-cases,
  and_then-eq-done, inl, inr, ==_iff, ==_refl,
}
use geocoder.Bytes.{Bytes}
use geocoder.GeoIndex.{lookup_admin_cell, for_each_entry}
use geocoder.Search.Nearest.{IsOrder, nearer, pick, Least, pick-Least}
use geocoder.Admin.Search.{
  AdminPolygon, Visit, BestByLevel, visit_of, is_beaten, slice_fits, contains_point, set_level,
  visit, visit_ids, visit_cells, no_best, best_by_level,
}

module _ {V A : Type 0} (at_least : A → A → Bool) (inside : List V → Bool)
    (all_polygons : List (AdminPolygon A)) (all_vertices : List V) where
  abbrev pub smaller : A → A → Bool
  smaller a b = not (at_least a b)

  abbrev pub area_of : Visit A → A
  area_of v = v.poly.area

  -- A polygon of the level with its vertices in the file that holds the point.
  abbrev pub covers : ℕ → Visit A → Bool
  covers level v =
      (v.poly.admin_level == level)
      && slice_fits at_least inside all_polygons all_vertices v
      && contains_point at_least inside all_polygons all_vertices v

  -- The visits that the loop makes.
  abbrev pub visits_of : Bool → List ℕ → List (Visit A)
  visits_of is_home [] = []
  visits_of is_home (id ∷ ids) =
      elim (visit_of at_least inside all_polygons all_vertices is_home id) [
        | none ↦ visits_of is_home ids
        | some v ↦ v ∷ visits_of is_home ids
      ]

  -- The visit as a choice between four tests, at a level that it does not write.
  elsewhere :
      (level l : ℕ) (entry : A × Visit A) (best : BestByLevel A) (high beaten fits holds : Bool)
      → (l == level) ≡ false
      → (if high
            then best
            else if beaten
            then best
            else if not fits
            then best
            else if holds
            then set_level at_least inside all_polygons all_vertices l entry best
            else best)
          level
        ≡ best level
  elsewhere level l entry best true beaten fits holds h = refl
  elsewhere level l entry best false true fits holds h = refl
  elsewhere level l entry best false false false holds h = refl
  elsewhere level l entry best false false true false h = refl
  elsewhere level l entry best false false true true h = rw h refl

  there_beaten : (b : Bool) (o o' : Option (A × Visit A)) → o ≡ o' → o ≡ (if b then o' else o')
  there_beaten true o o' q = q
  there_beaten false o o' q = q

  there_smaller :
      (l : ℕ) (v : Visit A) (best : BestByLevel A) (o : Option (A × Visit A)) (fits holds : Bool)
      → best l ≡ o
      → (if not fits
            then best
            else if holds
            then set_level at_least inside all_polygons all_vertices l (v.poly.area, v) best
            else best)
          l
        ≡ (if fits && holds then some (v.poly.area, v) else o)
  there_smaller l v best o false holds q = q
  there_smaller l v best o true false q = q
  there_smaller l v best o true true q = rw (==_refl l) refl

  -- At the level that it writes.
  there :
      (l : ℕ) (v : Visit A) (best : BestByLevel A) (o : Option (A × Visit A)) (fits holds : Bool)
      → best l ≡ o
      → (if is_beaten at_least inside all_polygons all_vertices o v
            then best
            else if not fits
            then best
            else if holds
            then set_level at_least inside all_polygons all_vertices l (v.poly.area, v) best
            else best)
          l
        ≡ (if fits && holds then nearer area_of smaller o v else o)
  unfolding nearer
  there l v best none false holds q = q
  there l v best none true false q = q
  there l v best none true true q = rw (==_refl l) refl
  there l v best (some (d, p)) fits holds q = elim (Bool-cases (at_least v.poly.area d)) [
    | inl t ↦ rw t (there_beaten (fits && holds) (best l) (some (d, p)) q)
    | inr f ↦ rw f (there_smaller l v best (some (d, p)) fits holds q)
  ]

  there_low :
      (high : Bool) (l : ℕ) (v : Visit A) (best : BestByLevel A) (fits holds : Bool)
      → high ≡ false
      → (if high
            then best
            else if is_beaten at_least inside all_polygons all_vertices (best l) v
            then best
            else if not fits
            then best
            else if holds
            then set_level at_least inside all_polygons all_vertices l (v.poly.area, v) best
            else best)
          l
        ≡ (if fits && holds then nearer area_of smaller (best l) v else best l)
  there_low true l v best fits holds h = cc
  there_low false l v best fits holds h = there l v best (best l) fits holds refl

  not_leb : (l : ℕ) → l < 12 → leb 12 l ≡ false
  not_leb l h = ground arith

  visit_here :
      (v : Visit A) (best : BestByLevel A)
      → v.poly.admin_level < 12
      → visit at_least inside all_polygons all_vertices v best v.poly.admin_level ≡ (
          if slice_fits at_least inside all_polygons all_vertices v
            && contains_point at_least inside all_polygons all_vertices v
          then nearer area_of smaller (best v.poly.admin_level) v
          else best v.poly.admin_level)
  unfolding visit
  visit_here v best h =
      there_low (leb 12 v.poly.admin_level) v.poly.admin_level v best
        (slice_fits at_least inside all_polygons all_vertices v)
        (contains_point at_least inside all_polygons all_vertices v) (not_leb v.poly.admin_level h)

  at_level :
      (v : Visit A) (best : BestByLevel A) (level : ℕ)
      → v.poly.admin_level ≡ level
      → level < 12
      → visit at_least inside all_polygons all_vertices v best level ≡ (
          if slice_fits at_least inside all_polygons all_vertices v
            && contains_point at_least inside all_polygons all_vertices v
          then nearer area_of smaller (best level) v
          else best level)
  at_level v best level e =
      subst
        (λ k.
          k < 12
          → visit at_least inside all_polygons all_vertices v best k ≡ (
              if slice_fits at_least inside all_polygons all_vertices v
                && contains_point at_least inside all_polygons all_vertices v
              then nearer area_of smaller (best k) v
              else best k))
        e (visit_here v best)

  -- One visit, as seen from one level.
  visit_at :
      (v : Visit A) (best : BestByLevel A) (level : ℕ)
      → level < 12
      → visit at_least inside all_polygons all_vertices v best level
        ≡ (if covers level v then nearer area_of smaller (best level) v else best level)
  unfolding visit
  visit_at v best level h = elim (Bool-cases (v.poly.admin_level == level)) [
    | inr other ↦ rw other (
        elsewhere level v.poly.admin_level (v.poly.area, v) best (leb 12 v.poly.admin_level)
          (is_beaten at_least inside all_polygons all_vertices (best v.poly.admin_level) v)
          (slice_fits at_least inside all_polygons all_vertices v)
          (contains_point at_least inside all_polygons all_vertices v) other)
    | inl same ↦ rw same (at_level v best level ((==_iff v.poly.admin_level level).0 same) h)
  ]

  visit_ids_at :
      (is_home : Bool) (ids : List ℕ) (best : BestByLevel A) (level : ℕ)
      → level < 12
      → visit_ids at_least inside all_polygons all_vertices is_home ids best level
        ≡ pick area_of smaller (covers level) (visits_of is_home ids) (best level)
  unfolding visit_ids pick
  visit_ids_at is_home [] best level h = refl
  visit_ids_at is_home (id ∷ ids) best level h =
      elim (Option-cases (visit_of at_least inside all_polygons all_vertices is_home id)) [
        | inl e ↦ rw (visit_ids, visits_of, e) (visit_ids_at is_home ids best level h)
        | inr (v, e) ↦
            rw (visit_ids, visits_of, e)
              (visit_ids_at is_home ids (visit at_least inside all_polygons all_vertices v best)
                  level h
                ∙ ap (pick area_of smaller (covers level) (visits_of is_home ids))
                    (visit_at v best level h))
      ]

  pick-append :
      (level : ℕ) (vs more : List (Visit A)) (best : Option (A × Visit A))
      → pick area_of smaller (covers level) (vs ++ more) best
        ≡ pick area_of smaller (covers level) more (pick area_of smaller (covers level) vs best)
  unfolding pick
  pick-append level [] more best = refl
  pick-append level (v ∷ vs) more best = pick-append level vs more _

  module _ (admin_cells admin_entries : Bytes) (cell : ℕ) where
    -- The polygons that the cells list, in the order of the visits.
    abbrev pub listed : List ℕ → Outcome (List (Visit A))
    listed [] = done []
    listed (c ∷ cs) = and_then (lookup_admin_cell admin_cells c) λ offset.
        and_then (for_each_entry admin_entries offset)
          λ ids. and_then (listed cs) λ more. done (visits_of (c == cell) ids ++ more)

    visit_cells_step :
        (c : ℕ) (cs : List ℕ) (start : BestByLevel A) (offset : ℕ) (ids : List ℕ)
        → lookup_admin_cell admin_cells c ≡ done offset
        → for_each_entry admin_entries offset ≡ done ids
        → visit_cells at_least inside all_polygons all_vertices admin_cells admin_entries cell
            (c ∷ cs)
            start
          ≡ visit_cells at_least inside all_polygons all_vertices admin_cells admin_entries cell cs
              (visit_ids at_least inside all_polygons all_vertices (c == cell) ids start)
    unfolding visit_cells
    visit_cells_step c cs start offset ids p r = rw (visit_cells, p, r) refl

    -- The loop over the cells, as seen from one level.
    visit_cells_at :
        (cs : List ℕ) (start : BestByLevel A) {vs : List (Visit A)}
        → listed cs ≡ done vs
        → (best : BestByLevel A) × (visit_cells at_least inside all_polygons all_vertices
              admin_cells admin_entries cell cs start
            ≡ done best)
          × ((level : ℕ)
              → level < 12
              → best level ≡ pick area_of smaller (covers level) vs (start level))
    unfolding visit_cells pick
    visit_cells_at [] start {vs} e =
        let q : [] ≡ vs = cc in
        (start, refl, λ level h. ap (λ us. pick area_of smaller (covers level) us (start level)) q)
    visit_cells_at (c ∷ cs) start {vs} e =
        let (offset, p, q) = and_then-eq-done (lookup_admin_cell admin_cells c) _ e in
        let (ids, r, t) = and_then-eq-done (for_each_entry admin_entries offset) _ q in
        let (more, u, w) = and_then-eq-done (listed cs) _ t in
        let same : visits_of (c == cell) ids ++ more ≡ vs = cc in
        let (best, reached, at) =
          visit_cells_at cs
            (visit_ids at_least inside all_polygons all_vertices (c == cell) ids start) u in
        (
          best,
          visit_cells_step c cs start offset ids p r ∙ reached,
          λ level h.
              at level h
              ∙ ap (pick area_of smaller (covers level) more)
                  (visit_ids_at (c == cell) ids start level h)
              ∙ sym (pick-append level (visits_of (c == cell) ids) more (start level))
              ∙ ap (λ us. pick area_of smaller (covers level) us (start level)) same,
        )

    -- When the cells of the point and around it can be read and areas are ordered, the loop of
    -- `find_admin` ends with, for a level below 12, a polygon of the smallest area among the visited
    -- ones of that level whose vertices lie in the file and which hold the point, or with nothing
    -- when there is none.
    pub best_by_level-Least :
        (order : IsOrder smaller) (neighbors : List ℕ) (vs : List (Visit A)) (level : ℕ)
        → listed (cell ∷ neighbors) ≡ done vs
        → level < 12
        → (best : BestByLevel A) × (best_by_level at_least inside all_polygons all_vertices
              admin_cells admin_entries cell neighbors
            ≡ done best)
          × Least area_of smaller (covers level) vs (best level)
    unfolding best_by_level
    best_by_level-Least order neighbors vs level e h =
        let (best, reached, at) =
          visit_cells_at (cell ∷ neighbors) (no_best at_least inside all_polygons all_vertices) e in
        (
          best,
          reached,
          subst (Least area_of smaller (covers level) vs) (sym (at level h))
              (pick-Least area_of smaller (covers level) order vs),
        )
