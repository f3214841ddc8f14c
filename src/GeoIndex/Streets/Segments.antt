-- ===== src/GeoIndex/Streets/Segments.antt =====
-- A way that was visited by `query_geo` of server/src/lib.rs changes nothing when it is visited again.
use geocoder.Prelude.{
  ◌≡◌, refl, Bool, true, false, List, [], ◌∷◌, Option, none, some, Bool-cases, inl, inr,
}
use geocoder.Search.Nearest.{IsOrder}
use geocoder.GeoIndex.Streets.{
  WayHeader, GeoFiles, nodes_of, BestOf, closer, visit_segments, visit_nodes, visit_way,
}

module _ {P N D T : Type 0} (less : D → D → Bool) (dist : P → D) (segment : N → N → D)
    (project : List N → Option (D × T)) (files : GeoFiles P N) (order : IsOrder less) where
  -- No segment is nearer than `d`.
  abbrev NoneBelow : D → List N → Type 0
  NoneBelow d [] = Unit {0}
  NoneBelow d (a ∷ []) = Unit {0}
  NoneBelow d (a ∷ b ∷ nodes) = (less (segment a b) d ≡ false) × NoneBelow d (b ∷ nodes)

  asym : (a b : D) → less a b ≡ true → less b a ≡ false
  asym a b h = elim (Bool-cases (less b a)) [
    | inl k ↦ absurd (cc (order.trans a b a h k, order.irrefl a))
    | inr k ↦ k
  ]

  NoneBelow-lower :
      (d e : D) → less d e ≡ false → (nodes : List N) → NoneBelow d nodes → NoneBelow e nodes
  NoneBelow-lower d e h [] n = tt
  NoneBelow-lower d e h (a ∷ []) n = tt
  NoneBelow-lower d e h (a ∷ b ∷ nodes) (k, n) =
      (order.between (segment a b) d e k h, NoneBelow-lower d e h (b ∷ nodes) n)

  closer-lower :
      {X : Type 0} (d : D) (x : X) (best : BestOf D X)
      → less best.0 (closer less dist segment project files d x best).0 ≡ false
  closer-lower d x best = elim (Bool-cases (less d best.0)) [
    | inl h ↦ rw h (asym d best.0 h)
    | inr h ↦ rw h (order.irrefl best.0)
  ]

  closer-NoneBelow :
      {X : Type 0} (d : D) (x : X) (best : BestOf D X)
      → less d (closer less dist segment project files d x best).0 ≡ false
  closer-NoneBelow d x best = elim (Bool-cases (less d best.0)) [
    | inl h ↦ rw h (order.irrefl d)
    | inr h ↦ rw h h
  ]

  segments_lower :
      (way : WayHeader) (nodes : List N) (best : BestOf D WayHeader)
      → less best.0 (visit_segments less dist segment project files way nodes best).0 ≡ false
  unfolding visit_segments
  segments_lower way [] best = order.irrefl best.0
  segments_lower way (a ∷ []) best = order.irrefl best.0
  segments_lower way (a ∷ b ∷ nodes) best =
      order.between best.0 (closer less dist segment project files (segment a b) way best).0 _
        (closer-lower (segment a b) way best)
        (segments_lower way (b ∷ nodes)
          (closer less dist segment project files (segment a b) way best))

  segments-NoneBelow :
      (way : WayHeader) (nodes : List N) (best : BestOf D WayHeader)
      → NoneBelow (visit_segments less dist segment project files way nodes best).0 nodes
  unfolding visit_segments
  segments-NoneBelow way [] best = tt
  segments-NoneBelow way (a ∷ []) best = tt
  segments-NoneBelow way (a ∷ b ∷ nodes) best = (
    order.between (segment a b) (closer less dist segment project files (segment a b) way best).0 _
        (closer-NoneBelow (segment a b) way best)
        (segments_lower way (b ∷ nodes)
          (closer less dist segment project files (segment a b) way best)),
    segments-NoneBelow way (b ∷ nodes)
        (closer less dist segment project files (segment a b) way best),
  )

  segments_again :
      (way : WayHeader) (nodes : List N) (best : BestOf D WayHeader)
      → NoneBelow best.0 nodes
      → visit_segments less dist segment project files way nodes best ≡ best
  unfolding visit_segments
  segments_again way [] best h = refl
  segments_again way (a ∷ []) best h = refl
  segments_again way (a ∷ b ∷ nodes) best (k, h) = rw k (segments_again way (b ∷ nodes) best h)

  -- The same of a way, whose nodes may be missing.
  abbrev AllNoneBelow : D → Option (List N) → Type 0
  AllNoneBelow d none = Unit {0}
  AllNoneBelow d (some nodes) = NoneBelow d nodes

  AllNoneBelow-lower :
      (d e : D) (o : Option (List N)) → less d e ≡ false → AllNoneBelow d o → AllNoneBelow e o
  AllNoneBelow-lower d e none h n = tt
  AllNoneBelow-lower d e (some nodes) h n = NoneBelow-lower d e h nodes n

  visit_nodes_lower :
      (way : WayHeader) (o : Option (List N)) (best : BestOf D WayHeader)
      → less best.0 (visit_nodes less dist segment project files way o best).0 ≡ false
  visit_nodes_lower way none best = order.irrefl best.0
  visit_nodes_lower way (some nodes) best = segments_lower way nodes best

  visit_nodes-AllNoneBelow :
      (way : WayHeader) (o : Option (List N)) (best : BestOf D WayHeader)
      → AllNoneBelow (visit_nodes less dist segment project files way o best).0 o
  visit_nodes-AllNoneBelow way none best = tt
  visit_nodes-AllNoneBelow way (some nodes) best = segments-NoneBelow way nodes best

  visit_nodes_again :
      (way : WayHeader) (o : Option (List N)) (best : BestOf D WayHeader)
      → AllNoneBelow best.0 o
      → visit_nodes less dist segment project files way o best ≡ best
  visit_nodes_again way none best n = refl
  visit_nodes_again way (some nodes) best n = segments_again way nodes best n

  -- No segment of the way is nearer than `d`.
  abbrev pub WayNoneBelow : D → WayHeader → Type 0
  WayNoneBelow d way = AllNoneBelow d (nodes_of files.street_nodes way.node_offset way.node_count)

  pub WayNoneBelow-lower :
      (d e : D) (way : WayHeader) → less d e ≡ false → WayNoneBelow d way → WayNoneBelow e way
  WayNoneBelow-lower d e way h n =
      AllNoneBelow-lower d e (nodes_of files.street_nodes way.node_offset way.node_count) h n

  pub visit_way_lower :
      (way : WayHeader) (best : BestOf D WayHeader)
      → less best.0 (visit_way less dist segment project files way best).0 ≡ false
  visit_way_lower way best =
      visit_nodes_lower way (nodes_of files.street_nodes way.node_offset way.node_count) best

  pub visit_way-NoneBelow :
      (way : WayHeader) (best : BestOf D WayHeader)
      → WayNoneBelow (visit_way less dist segment project files way best).0 way
  visit_way-NoneBelow way best =
      visit_nodes-AllNoneBelow way (nodes_of files.street_nodes way.node_offset way.node_count) best

  pub visit_way_again :
      (way : WayHeader) (best : BestOf D WayHeader)
      → WayNoneBelow best.0 way
      → visit_way less dist segment project files way best ≡ best
  visit_way_again way best n =
      visit_nodes_again way (nodes_of files.street_nodes way.node_offset way.node_count) best n
