-- ===== src/GeoIndex/Streets/Seen.antt =====
-- The list of the streets that `query_geo` of server/src/lib.rs has seen only saves work.
use geocoder.Prelude.{
  ℕ, ◌≡◌, refl, ap, subst, ◌⊎◌, Bool, true, false, List, [], ◌∷◌, Option, none, some, ltb, ◌==◌,
  ==_iff, length, get_elem?, All, All-append, Outcome, done, panic, no_fuel, or_panic, and_then,
  Bool-cases, Option-cases, inl, inr,
}
use geocoder.Search.Nearest.{IsOrder}
use geocoder.GeoIndex.{lookup_geo_cell, for_each_entry}
use geocoder.GeoIndex.Streets.{
  WayHeader, InterpWay, GeoFiles, seen_streets_cap, seen_streets_contains, mark_seen, BestOf,
  visit_way, visit_addrs, visit_streets, visit_interps, GeoState, over_entries, visit_geo_cells,
  result_of, query_geo,
}
use geocoder.GeoIndex.Streets.Segments.{
  WayNoneBelow, WayNoneBelow-lower, visit_way_lower, visit_way-NoneBelow, visit_way_again,
}

-- What holds of all streets seen holds of one of them.
contains-All :
    (Q : ℕ → Type 0) (seen : List ℕ) (id : ℕ)
    → seen_streets_contains seen id ≡ true
    → All Q seen
    → Q id
unfolding seen_streets_contains
contains-All Q [] id h a = absurd (cc)
contains-All Q (s ∷ seen) id h (hs, a) = elim (Bool-cases (s == id)) [
  | inl e ↦ subst Q ((==_iff s id).0 e) hs
  | inr e ↦ contains-All Q seen id (rw e at h) a
]

mark_seen-All :
    (Q : ℕ → Type 0) (seen : List ℕ) (id : ℕ) → All Q seen → Q id → All Q (mark_seen seen id)
mark_seen-All Q seen id a h = elim (Bool-cases (ltb (length seen) seen_streets_cap)) [
  | inl e ↦ rw e (All-append Q seen (id ∷ []) a (h, tt))
  | inr e ↦ rw e a
]

All-implies : (Q R : ℕ → Type 0) → ((id : ℕ) → Q id → R id) → (ids : List ℕ) → All Q ids → All R ids
All-implies Q R f [] a = tt
All-implies Q R f (id ∷ ids) (h, a) = (f id h, All-implies Q R f ids a)

module _ {P N D T : Type 0} (less : D → D → Bool) (dist : P → D) (segment : N → N → D)
    (project : List N → Option (D × T)) (files : GeoFiles P N) where
  -- The loops without the list of the streets seen.
  unfoldable pub scan_streets : List ℕ → BestOf D WayHeader → Outcome (BestOf D WayHeader)
  scan_streets [] best = done best
  scan_streets (id ∷ ids) best =
      and_then (or_panic (get_elem? files.street_ways id))
        λ way. scan_streets ids (visit_way less dist segment project files way best)

  pub record Scan : Type 0 where
    pub scan_addr : BestOf D P
    pub scan_street : BestOf D WayHeader
    pub scan_interp : BestOf D (InterpWay × T)

  unfoldable pub scan_geo_cells : List ℕ → Scan → Outcome Scan
  unfolding scan_streets
  scan_geo_cells [] state = done state
  scan_geo_cells (c ∷ cs) state = and_then (lookup_geo_cell files.geo_cells c) λ offsets.
      and_then
        (over_entries less dist segment project files files.addr_entries offsets.addr
          (visit_addrs less dist segment project files) state.scan_addr)
        λ addr.
          and_then
            (over_entries less dist segment project files files.street_entries offsets.street
              scan_streets state.scan_street)
            λ street.
              and_then
                (over_entries less dist segment project files files.interp_entries offsets.interp
                  (visit_interps less dist segment project files) state.scan_interp)
                λ interp.
                  scan_geo_cells cs
                    (record { scan_addr = addr; scan_street = street; scan_interp = interp })

  unfoldable pub scan_geo :
      D → List ℕ → Outcome (Option (D × P) × Option (D × (InterpWay × T)) × Option (D × WayHeader))
  unfolding scan_geo_cells
  scan_geo max_dist near =
      and_then
        (scan_geo_cells near (record {
          scan_addr = (max_dist, none);
          scan_street = (max_dist, none);
          scan_interp = (max_dist, none);
        }))
        λ state. done (
          result_of less dist segment project files state.scan_addr,
          result_of less dist segment project files state.scan_interp,
          result_of less dist segment project files state.scan_street,
        )

  module _ (order : IsOrder less) where
    -- A street seen, none of whose segments is nearer than `d`.
    abbrev Settled : D → ℕ → Type 0
    Settled d id =
        (way : WayHeader) × (get_elem? files.street_ways id ≡ some way)
        × WayNoneBelow less dist segment project files order d way

    Settled-lower : (d e : D) → less d e ≡ false → (id : ℕ) → Settled d id → Settled e id
    Settled-lower d e h id (way, at, n) =
        (way, at, WayNoneBelow-lower less dist segment project files order d e way h n)

    -- The two loops panic or run out of fuel together, or they end with the same best street.
    abbrev Follows : Outcome (List ℕ × BestOf D WayHeader) → Outcome (BestOf D WayHeader) → Type 0
    Follows m n =
        ((m ≡ panic) × (n ≡ panic))
        ⊎ ((m ≡ no_fuel) × (n ≡ no_fuel))
        ⊎ ((seen : List ℕ) × (best : BestOf D WayHeader) × (m ≡ done (seen, best))
            × (n ≡ done best)
            × All (Settled best.0) seen)

    streets-Follows :
        (ids seen : List ℕ) (best : BestOf D WayHeader)
        → All (Settled best.0) seen
        → Follows
            (visit_streets less dist segment project files ids (seen, best))
            (scan_streets ids best)
    unfolding visit_streets scan_streets
    streets-Follows [] seen best a = inr (inr (seen, best, refl, refl, a))
    streets-Follows (id ∷ ids) seen best a = elim (Bool-cases (seen_streets_contains seen id)) [
      | inl known ↦
          let (way, at, n) = contains-All (Settled best.0) seen id known a in
          rw
            (
              visit_streets,
              scan_streets,
              known,
              at,
              visit_way_again less dist segment project files order way best n,
            )
            (streets-Follows ids seen best a)
      | inr new ↦ elim (Option-cases (get_elem? files.street_ways id)) [
        | inl e ↦ rw (visit_streets, scan_streets, new, e) (inl (refl, refl))
        | inr (way, at) ↦
            let best' = visit_way less dist segment project files way best in
            rw (visit_streets, scan_streets, new, at)
              (streets-Follows ids (mark_seen seen id) best' (
                mark_seen-All (Settled best'.0) seen id
                  (All-implies (Settled best.0) (Settled best'.0)
                    (Settled-lower best.0 best'.0
                      (visit_way_lower less dist segment project files order way best))
                    seen a)
                  (way, at, visit_way-NoneBelow less dist segment project files order way best)))
      ]
    ]

    -- The state without the list of the streets seen.
    abbrev unseen : GeoState less dist segment project files → Scan
    unseen state = record {
      scan_addr = state.best_addr;
      scan_street = state.streets.1;
      scan_interp = state.best_interp;
    }

    abbrev forget : Outcome (GeoState less dist segment project files) → Outcome Scan
    forget m = and_then m λ state. done (unseen state)

    cells_step :
        (cs : List ℕ) (addr : BestOf D P) (streets : Outcome (List ℕ × BestOf D WayHeader))
        (street : Outcome (BestOf D WayHeader)) (interps : Outcome (BestOf D (InterpWay × T)))
        → Follows streets street
        → ((seen : List ℕ) (best : BestOf D WayHeader) (interp : BestOf D (InterpWay × T))
            → All (Settled best.0) seen
            → forget (
                visit_geo_cells less dist segment project files cs
                  (record { best_addr = addr; streets = (seen, best); best_interp = interp }))
              ≡ scan_geo_cells cs
                  (record { scan_addr = addr; scan_street = best; scan_interp = interp }))
        → forget (
            and_then streets λ s. and_then interps λ interp.
              visit_geo_cells less dist segment project files cs
                (record { best_addr = addr; streets = s; best_interp = interp }))
          ≡ (and_then street λ best. and_then interps λ interp.
              scan_geo_cells cs
                (record { scan_addr = addr; scan_street = best; scan_interp = interp }))
    cells_step cs addr streets street interps (inl (p, q)) rest = rw (p, q) refl
    cells_step cs addr streets street interps (inr (inl (p, q))) rest = rw (p, q) refl
    cells_step cs addr streets street (done interp) (inr (inr (seen, best, p, q, a))) rest =
        rw (p, q) (rest seen best interp a)
    cells_step cs addr streets street panic (inr (inr (seen, best, p, q, a))) rest = rw (p, q) refl
    cells_step cs addr streets street no_fuel (inr (inr (seen, best, p, q, a))) rest =
        rw (p, q) refl

    entries-Follows :
        (m : Outcome (List ℕ)) (seen : List ℕ) (best : BestOf D WayHeader)
        → All (Settled best.0) seen
        → Follows
            (and_then m λ ids. visit_streets less dist segment project files ids (seen, best))
            (and_then m λ ids. scan_streets ids best)
    entries-Follows (done ids) seen best a = streets-Follows ids seen best a
    entries-Follows panic seen best a = inl (refl, refl)
    entries-Follows no_fuel seen best a = inr (inl (refl, refl))

    forget-and_then :
        {A : Type 0} (m : Outcome A) (f : A → Outcome (GeoState less dist segment project files))
        (g : A → Outcome Scan)
        → ((x : A) → forget (f x) ≡ g x)
        → forget (and_then m f) ≡ and_then m g
    forget-and_then (done x) f g h = h x
    forget-and_then panic f g h = refl
    forget-and_then no_fuel f g h = refl

    cells-scan :
        (cs seen : List ℕ) (addr : BestOf D P) (best : BestOf D WayHeader)
        (interp : BestOf D (InterpWay × T))
        → All (Settled best.0) seen
        → forget (
            visit_geo_cells less dist segment project files cs
              (record { best_addr = addr; streets = (seen, best); best_interp = interp }))
          ≡ scan_geo_cells cs
              (record { scan_addr = addr; scan_street = best; scan_interp = interp })
    unfolding visit_geo_cells scan_geo_cells
    cells-scan [] seen addr best interp a = refl
    cells-scan (c ∷ cs) seen addr best interp a =
        forget-and_then (lookup_geo_cell files.geo_cells c) _ _ λ offsets.
          forget-and_then
            (over_entries less dist segment project files files.addr_entries offsets.addr
              (visit_addrs less dist segment project files) addr)
            _ _
            λ addr'.
              cells_step cs addr'
                (over_entries less dist segment project files files.street_entries offsets.street
                  (visit_streets less dist segment project files) (seen, best))
                (over_entries less dist segment project files files.street_entries offsets.street
                  scan_streets best)
                (over_entries less dist segment project files files.interp_entries offsets.interp
                  (visit_interps less dist segment project files) interp)
                (entries-Follows (for_each_entry files.street_entries offsets.street) seen best a)
                (λ seen' best' interp' a'. cells-scan cs seen' addr' best' interp' a')

    forget_done :
        {R : Type 0} (m : Outcome (GeoState less dist segment project files)) (n : Outcome Scan)
        (f : Scan → R)
        → forget m ≡ n
        → (and_then m λ state. done (f (unseen state))) ≡ (and_then n λ state. done (f state))
    forget_done (done state) n f h = ap (λ k. and_then k λ s. done (f s)) h
    forget_done panic n f h = ap (λ k. and_then k λ s. done (f s)) h
    forget_done no_fuel n f h = ap (λ k. and_then k λ s. done (f s)) h

    -- With distances in order, passing over the streets that were seen, of which at most 256 are
    -- remembered, changes none of the three results, and no panic either: they are those of the loops
    -- that look at every street as often as it is listed.
    pub query_geo-scan_geo :
        (max_dist : D) (near : List ℕ)
        → query_geo less dist segment project files max_dist near ≡ scan_geo max_dist near
    unfolding query_geo scan_geo
    query_geo-scan_geo max_dist near =
        forget_done _ _
          (λ state. (
            result_of less dist segment project files state.scan_addr,
            result_of less dist segment project files state.scan_interp,
            result_of less dist segment project files state.scan_street,
          ))
          (cells-scan near [] (max_dist, none) (max_dist, none) (max_dist, none) tt)
