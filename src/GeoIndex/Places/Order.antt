-- ===== src/GeoIndex/Places/Order.antt =====
-- `find_place` and `find_poi` of server/src/lib.rs return a first of the points in the order that they prefer.
use geocoder.Prelude.{
  ℕ, ◌≡◌, refl, sym, ap, ◌∙◌, Bool, true, false, not, ◌&&◌, ◌||◌, List, [], ◌∷◌, ◌++◌, Option, none,
  some, if◌then◌else◌, ltb, ◌==◌, is_empty, get_elem?, Outcome, done, or_panic, and_then,
  and_then-eq-done, arith,
}
use geocoder.Bytes.{Bytes}
use geocoder.Search.Nearest.{IsOrder, nearer, pick, Least, pick-Least}
use geocoder.GeoIndex.{lookup_admin_cell, for_each_entry}
use geocoder.GeoIndex.Places.{
  PlacePoint, PoiPoint, PointFiles, preferred, ranked, prefer_ids, prefer_cells, place_match,
  find_place, poi_match, find_poi,
}

module _ {D : Type 0} (less : D → D → Bool) (order : IsOrder less) where
  same_rank : (r s : ℕ) (b : Bool) → (r == s) ≡ true → (ltb r s || ((r == s) && b)) ≡ b
  same_rank r s b h = ground (arith, h)

  preferred_trans :
      (r s t : ℕ) (a b c : D)
      → preferred less (r, a) (s, b) ≡ true
      → preferred less (s, b) (t, c) ≡ true
      → preferred less (r, a) (t, c) ≡ true
  preferred_trans r s t a b c h k = ground (arith, order.trans a b c)

  preferred-between :
      (r s t : ℕ) (a b c : D)
      → preferred less (r, a) (s, b) ≡ false
      → preferred less (s, b) (t, c) ≡ false
      → preferred less (r, a) (t, c) ≡ false
  preferred-between r s t a b c h k = ground (arith, order.between a b c)

  pub preferred-IsOrder : IsOrder (preferred less)
  preferred-IsOrder = record {
    irrefl = λ (r, a). let k = order.irrefl a in ground (arith, k);
    trans = λ (r, a) (s, b) (t, c). preferred_trans r s t a b c;
    between = λ (r, a) (s, b) (t, c). preferred-between r s t a b c;
  }

module _ {P D : Type 0} (rank : P → ℕ) (dist : P → D) (less : D → D → Bool) (near : P → Bool)
    (files : PointFiles P) where
  -- The points of the ids.
  abbrev pub points_of : List ℕ → Outcome (List P)
  points_of [] = done []
  points_of (id ∷ ids) =
      and_then (or_panic (get_elem? files.points id))
        λ p. and_then (points_of ids) λ ps. done (p ∷ ps)

  -- The points that the cells list, in the order of the visits.
  abbrev pub points_in : List ℕ → Outcome (List P)
  points_in [] = done []
  points_in (c ∷ cs) = and_then (lookup_admin_cell files.cells c) λ offset.
      and_then (for_each_entry files.entries offset)
        λ ids. and_then (points_of ids) λ here. and_then (points_in cs) λ more. done (here ++ more)

  abbrev picked : List P → Option ((ℕ × D) × P) → Option ((ℕ × D) × P)
  picked ps best = pick (ranked rank dist) (preferred less) near ps best

  picked-append :
      (ps qs : List P) (best : Option ((ℕ × D) × P))
      → picked (ps ++ qs) best ≡ picked qs (picked ps best)
  unfolding pick
  picked-append [] qs best = refl
  picked-append (p ∷ ps) qs best = picked-append ps qs _

  prefer_ids-picked :
      (ids : List ℕ) (best : Option ((ℕ × D) × P)) {ps : List P}
      → points_of ids ≡ done ps
      → prefer_ids rank dist less near files ids best ≡ done (picked ps best)
  unfolding prefer_ids pick
  prefer_ids-picked [] best {ps} e = let q : [] ≡ ps = cc in ap (λ qs. done (picked qs best)) q
  prefer_ids-picked (id ∷ ids) best {ps} e =
      let (p, here, k) = and_then-eq-done (or_panic (get_elem? files.points id)) _ e in
      let (qs, more, l) = and_then-eq-done (points_of ids) _ k in
      let same : p ∷ qs ≡ ps = cc in
      rw (prefer_ids, here)
        (prefer_ids-picked ids
            (if near p then nearer (ranked rank dist) (preferred less) best p else best) more
          ∙ ap (λ rs. done (picked rs best)) same)

  prefer_cells_step :
      (c : ℕ) (cs : List ℕ) (best best' : Option ((ℕ × D) × P)) (offset : ℕ) (ids : List ℕ)
      → lookup_admin_cell files.cells c ≡ done offset
      → for_each_entry files.entries offset ≡ done ids
      → prefer_ids rank dist less near files ids best ≡ done best'
      → prefer_cells rank dist less near files (c ∷ cs) best
        ≡ prefer_cells rank dist less near files cs best'
  unfolding prefer_cells
  prefer_cells_step c cs best best' offset ids p r t = rw (prefer_cells, p, r, t) refl

  pub prefer_cells-picked :
      (cs : List ℕ) (best : Option ((ℕ × D) × P)) {ps : List P}
      → points_in cs ≡ done ps
      → prefer_cells rank dist less near files cs best ≡ done (picked ps best)
  unfolding prefer_cells pick
  prefer_cells-picked [] best {ps} e = let q : [] ≡ ps = cc in ap (λ qs. done (picked qs best)) q
  prefer_cells-picked (c ∷ cs) best {ps} e =
      let (offset, p, q) = and_then-eq-done (lookup_admin_cell files.cells c) _ e in
      let (ids, r, t) = and_then-eq-done (for_each_entry files.entries offset) _ q in
      let (here, u, v) = and_then-eq-done (points_of ids) _ t in
      let (more, w, x) = and_then-eq-done (points_in cs) _ v in
      let same : here ++ more ≡ ps = cc in
      prefer_cells_step c cs best (picked here best) offset ids p r (prefer_ids-picked ids best u)
      ∙ prefer_cells-picked cs (picked here best) w
      ∙ ap done (sym (picked-append here more best))
      ∙ ap (λ qs. done (picked qs best)) same

module _ {F D : Type 0} (less : D → D → Bool) (to_metres : D → D) (strings : Bytes)
    (order : IsOrder less) where
  -- When the cells around a query list the points `ps`, `find_place` returns the name and the place of
  -- one of them of the lowest rank, and of those of the lowest rank a nearest, or nothing when they
  -- list none.
  pub find_place-Least :
      (dist : PlacePoint F → D) (files : PointFiles (PlacePoint F)) (near_cells : List ℕ)
      (ps : List (PlacePoint F))
      → is_empty files.points ≡ false
      → points_in (λ p. p.rank) dist less (λ p. true) files near_cells ≡ done ps
      → (best : Option ((ℕ × D) × PlacePoint F)) × (find_place less to_metres strings dist
            (some files)
            near_cells
          ≡ place_match less to_metres strings best)
        × Least (ranked (λ p. p.rank) dist) (preferred less) (λ p. true) ps best
  unfolding find_place
  find_place-Least dist files near_cells ps ne held = (
    pick (ranked (λ p. p.rank) dist) (preferred less) (λ p. true) ps none,
    rw
        (
          find_place,
          ne,
          prefer_cells-picked (λ p. p.rank) dist less (λ p. true) files near_cells none held,
        )
        refl,
    pick-Least (ranked (λ p. p.rank) dist) (preferred less) (λ p. true)
        (preferred-IsOrder less order) ps,
  )

  -- When the cells around a query list the points `ps`, `find_poi` returns one of those that are not
  -- beyond the distance, of the lowest rank, and of those of the lowest rank a nearest, or nothing
  -- when all are beyond it.
  pub find_poi-Least :
      (dist : PoiPoint F → D) (max_dist_sq : D) (files : PointFiles (PoiPoint F))
      (near_cells : List ℕ) (ps : List (PoiPoint F))
      → is_empty files.points ≡ false
      → points_in (λ p. p.rank) dist less (λ p. not (less max_dist_sq (dist p))) files near_cells
        ≡ done ps
      → (best : Option ((ℕ × D) × PoiPoint F)) × (find_poi less to_metres strings dist max_dist_sq
            (some files)
            near_cells
          ≡ poi_match less to_metres strings best)
        × Least
            (ranked (λ p. p.rank) dist)
            (preferred less)
            (λ p. not (less max_dist_sq (dist p)))
            ps
            best
  unfolding find_poi
  find_poi-Least dist max_dist_sq files near_cells ps ne held = (
    pick (ranked (λ p. p.rank) dist) (preferred less) (λ p. not (less max_dist_sq (dist p))) ps
        none,
    rw
        (
          find_poi,
          ne,
          prefer_cells-picked (λ p. p.rank) dist less (λ p. not (less max_dist_sq (dist p))) files
              near_cells none held,
        )
        refl,
    pick-Least (ranked (λ p. p.rank) dist) (preferred less) (λ p. not (less max_dist_sq (dist p)))
        (preferred-IsOrder less order) ps,
  )
