-- ===== src/Shadow/Compare/Axes.antt =====
-- The outcome of a comparison in server/src/shadow.rs, by what its axes say.
use geocoder.Prelude.{
  ◌≡◌, ◌≢◌, refl, ap, Bool, true, false, ◌||◌, Option, none, some, ◌⊎◌, inl, inr, Bool-cases,
}
use geocoder.Shadow.Worker.{Verdict, match_, mismatch, zero_results}
use geocoder.Shadow.Compare.{
  Endpoint, reverse, search, Snapshot, Comparison, is_some, is_false, or_false, outcome_of, compare,
}

-- The distance is compared for a search alone.
abbrev pub distance_of : Endpoint → Option Bool → Option Bool
distance_of reverse far = none
distance_of search far = far

-- What the four axes and the distance say of an outcome.
abbrev pub Says : Comparison → Option Bool → Verdict → Type 0
Says c far zero_results =
    (c.country_match ≡ none)
    × (c.state_match ≡ none)
    × (c.city_match ≡ none)
    × (c.road_match ≡ none)
    × (far ≡ none)
Says c far mismatch =
    (c.country_match ≡ some false)
    ⊎ ((c.state_match ≡ some false)
        ⊎ ((c.city_match ≡ some false) ⊎ ((c.road_match ≡ some false) ⊎ (far ≡ some true))))
Says c far match_ =
    (c.country_match ≢ some false)
    × (c.state_match ≢ some false)
    × (c.city_match ≢ some false)
    × (c.road_match ≢ some false)
    × (far ≢ some true)
    × ((c.country_match ≡ some true)
        ⊎ ((c.state_match ≡ some true)
            ⊎ ((c.city_match ≡ some true) ⊎ ((c.road_match ≡ some true) ⊎ (far ≡ some false)))))
Says c far _ = ⊥

or_cases : (a b : Bool) → (a || b) ≡ true → (a ≡ true) ⊎ (b ≡ true)
or_cases true b h = inl refl
or_cases false b h = inr h

or_none : (a b : Bool) → (a || b) ≡ false → (a ≡ false) × (b ≡ false)
or_none true b h = cc
or_none false b h = (refl, h)

is_some-none : (o : Option Bool) → is_some o ≡ false → o ≡ none
is_some-none none h = refl
is_some-none (some b) h = cc

is_false-eq : (o : Option Bool) → is_false o ≡ true → o ≡ some false
is_false-eq none h = cc
is_false-eq (some true) h = cc
is_false-eq (some false) h = refl

is_false-ne : (o : Option Bool) → is_false o ≡ false → o ≢ some false
is_false-ne none h e = cc
is_false-ne (some true) h e = cc
is_false-ne (some false) h e = cc

is_some-agrees : (o : Option Bool) → is_some o ≡ true → is_false o ≡ false → o ≡ some true
is_some-agrees none h k = cc
is_some-agrees (some true) h k = refl
is_some-agrees (some false) h k = cc

is_some-near : (o : Option Bool) → is_some o ≡ true → or_false o ≡ false → o ≡ some false
is_some-near none h k = cc
is_some-near (some true) h k = cc
is_some-near (some false) h k = refl

or_false-eq : (o : Option Bool) → or_false o ≡ true → o ≡ some true
or_false-eq none h = cc
or_false-eq (some b) h = ap some h

or_false-ne : (o : Option Bool) → or_false o ≡ false → o ≢ some true
or_false-ne none h e = cc
or_false-ne (some true) h e = cc
or_false-ne (some false) h e = cc

module _ (v : Verdict) (country state city road far : Option Bool) where
  abbrev axes : Comparison
  axes = record {
    outcome = v;
    country_match = country;
    state_match = state;
    city_match = city;
    road_match = road;
  }

  nothing_compared :
      ((is_some country || (is_some state || (is_some city || is_some road))) || is_some far)
        ≡ false
      → Says axes far zero_results
  nothing_compared h =
      let (a, f) =
        or_none (is_some country || (is_some state || (is_some city || is_some road))) (is_some far)
          h in
      let (c, b) = or_none (is_some country) (is_some state || (is_some city || is_some road)) a in
      let (s, d) = or_none (is_some state) (is_some city || is_some road) b in
      let (t, r) = or_none (is_some city) (is_some road) d in
      (
        is_some-none country c,
        is_some-none state s,
        is_some-none city t,
        is_some-none road r,
        is_some-none far f,
      )

  something_differs :
      ((is_false country || (is_false state || (is_false city || is_false road))) || or_false far)
        ≡ true
      → Says axes far mismatch
  something_differs h =
      elim (or_cases (is_false country || (is_false state || (is_false city || is_false road)))
        (or_false far) h) [
          | inr f ↦ inr (inr (inr (inr (or_false-eq far f))))
          | inl a ↦
              elim (or_cases (is_false country) (is_false state || (is_false city || is_false road))
                a) [
                  | inl c ↦ inl (is_false-eq country c)
                  | inr b ↦ elim (or_cases (is_false state) (is_false city || is_false road) b) [
                    | inl s ↦ inr (inl (is_false-eq state s))
                    | inr d ↦ elim (or_cases (is_false city) (is_false road) d) [
                      | inl t ↦ inr (inr (inl (is_false-eq city t)))
                      | inr r ↦ inr (inr (inr (inl (is_false-eq road r))))
                    ]
                  ]
                ]
        ]

  nothing_differs :
      ((is_some country || (is_some state || (is_some city || is_some road))) || is_some far) ≡ true
      → ((is_false country || (is_false state || (is_false city || is_false road))) || or_false far)
        ≡ false
      → Says axes far match_
  nothing_differs g h =
      let (a, f) =
        or_none (is_false country || (is_false state || (is_false city || is_false road)))
          (or_false far) h in
      let (c, b) =
        or_none (is_false country) (is_false state || (is_false city || is_false road)) a in
      let (s, d) = or_none (is_false state) (is_false city || is_false road) b in
      let (t, r) = or_none (is_false city) (is_false road) d in
      let agrees : (country ≡ some true)
          ⊎ ((state ≡ some true)
              ⊎ ((city ≡ some true) ⊎ ((road ≡ some true) ⊎ (far ≡ some false)))) =
        elim (or_cases (is_some country || (is_some state || (is_some city || is_some road)))
          (is_some far) g) [
            | inr k ↦ inr (inr (inr (inr (is_some-near far k f))))
            | inl j ↦
                elim (or_cases (is_some country) (is_some state || (is_some city || is_some road))
                  j) [
                    | inl k ↦ inl (is_some-agrees country k c)
                    | inr i ↦ elim (or_cases (is_some state) (is_some city || is_some road) i) [
                      | inl k ↦ inr (inl (is_some-agrees state k s))
                      | inr u ↦ elim (or_cases (is_some city) (is_some road) u) [
                        | inl k ↦ inr (inr (inl (is_some-agrees city k t)))
                        | inr k ↦ inr (inr (inr (inl (is_some-agrees road k r))))
                      ]
                    ]
                  ]
          ] in
      (
        is_false-ne country c,
        is_false-ne state s,
        is_false-ne city t,
        is_false-ne road r,
        or_false-ne far f,
        agrees,
      )

  outcome-Says : Says axes far (outcome_of country state city road far)
  unfolding outcome_of
  outcome-Says =
      elim (Bool-cases
        ((is_some country || (is_some state || (is_some city || is_some road))) || is_some far)) [
          | inr c ↦ rw (outcome_of, c) (nothing_compared c)
          | inl c ↦
              elim (Bool-cases (
                (is_false country || (is_false state || (is_false city || is_false road)))
                || or_false far)) [
                  | inl m ↦ rw (outcome_of, c, m) (something_differs m)
                  | inr m ↦ rw (outcome_of, c, m) (nothing_differs c m)
                ]
        ]

-- A comparison comes out as without results when no axis and no distance was compared, as a mismatch
-- when one of them differs, and as a match when one agrees and none differs.
pub compare-Says :
    (endpoint : Endpoint) (ours google : Snapshot) (far : Option Bool)
    → Says
        (compare endpoint ours google far)
        (distance_of endpoint far)
        (compare endpoint ours google far).outcome
unfolding compare
compare-Says reverse ours google far =
    let c = compare reverse ours google far in
    outcome-Says c.outcome c.country_match c.state_match c.city_match c.road_match none
compare-Says search ours google far =
    let c = compare search ours google far in
    outcome-Says c.outcome c.country_match c.state_match c.city_match c.road_match far
