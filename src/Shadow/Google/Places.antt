-- ===== src/Shadow/Google/Places.antt =====
-- Which components of an answer server/src/shadow.rs keeps.
use geocoder.Prelude.{
  ◌≡◌, refl, ap, ◌∙◌, sym, Bool, true, false, not, ◌&&◌, ◌||◌, List, [], ◌∷◌, Option, none, some,
  Text, is_empty, to_lower, map, arith,
}
use geocoder.Shadow.Google.{
  Component, Result, Kind, country, admin, locality, route, other, kind_of, GoogleSnapshot, note,
  note_types, note_components, from_body, blank,
}

abbrev pub is_country : Kind → Bool
is_country country = true
is_country admin = false
is_country locality = false
is_country route = false
is_country other = false

abbrev pub is_admin : Kind → Bool
is_admin country = false
is_admin admin = true
is_admin locality = false
is_admin route = false
is_admin other = false

abbrev pub is_locality : Kind → Bool
is_locality country = false
is_locality admin = false
is_locality locality = true
is_locality route = false
is_locality other = false

abbrev pub is_route : Kind → Bool
is_route country = false
is_route admin = false
is_route locality = false
is_route route = true
is_route other = false

-- A component has a type of the kind.
abbrev pub has_type : (Kind → Bool) → List Text → Bool
has_type kind [] = false
has_type kind (t ∷ ts) = kind (kind_of t) || has_type kind ts

abbrev pub or_else : Option Text → Option Text → Option Text
or_else none b = b
or_else (some s) b = some s

abbrev pub when : Bool → Text → Option Text
when true s = some s
when false s = none

-- The name in the first component that has a type of the kind, of those that pass the test.
abbrev pub first_of :
    (Kind → Bool) → (Component → Bool) → (Component → Text) → List Component → Option Text
first_of kind test name [] = none
first_of kind test name (c ∷ cs) =
    or_else (when (has_type kind c.types && test c) (name c)) (first_of kind test name cs)

abbrev pub named : Component → Bool
named c = not (is_empty c.short_name)

abbrev pub any_name : Component → Bool
any_name c = true

abbrev pub country_name : Component → Text
country_name c = map to_lower c.short_name

abbrev pub long_name_of : Component → Text
long_name_of c = c.long_name

or_else_assoc : (a b c : Option Text) → or_else (or_else a b) c ≡ or_else a (or_else b c)
or_else_assoc none b c = refl
or_else_assoc (some s) b c = refl

or_else-none : (a : Option Text) → or_else a none ≡ a
or_else-none none = refl
or_else-none (some s) = refl

when_twice :
    (a b t : Bool) (s : Text) → or_else (when (a && t) s) (when (b && t) s) ≡ when ((a || b) && t) s
when_twice a b t s = ground arith

-- An axis of the snapshot: where it is read, which types fill it, and with what.
pub record Axis (D : Type 0) : Type 0 where
  pub field : GoogleSnapshot D → Option Text
  pub kind : Kind → Bool
  pub test : Component → Bool
  pub name : Component → Text
  pub fills :
      (k : Kind) (c : Component) (snap : GoogleSnapshot D)
      → field (note k c snap) ≡ or_else (field snap) (when (kind k && test c) (name c))

module _ {D : Type 0} (axis : Axis D) where
  open axis use {field, kind, test, name, fills}

  note_types_lem :
      (c : Component) (ts : List Text) (snap : GoogleSnapshot D)
      → field (note_types c ts snap)
        ≡ or_else (field snap) (when (has_type kind ts && test c) (name c))
  unfolding note_types
  note_types_lem c [] snap = sym (or_else-none (field snap))
  note_types_lem c (t ∷ ts) snap =
      note_types_lem c ts (note (kind_of t) c snap)
      ∙ ap (λ a. or_else a (when (has_type kind ts && test c) (name c))) (fills (kind_of t) c snap)
      ∙ or_else_assoc (field snap) (when (kind (kind_of t) && test c) (name c))
          (when (has_type kind ts && test c) (name c))
      ∙ ap (or_else (field snap))
          (when_twice (kind (kind_of t)) (has_type kind ts) (test c) (name c))

  note_components_lem :
      (cs : List Component) (snap : GoogleSnapshot D)
      → field (note_components cs snap) ≡ or_else (field snap) (first_of kind test name cs)
  unfolding note_components
  note_components_lem [] snap = sym (or_else-none (field snap))
  note_components_lem (c ∷ cs) snap =
      note_components_lem cs (note_types c c.types snap)
      ∙ ap (λ a. or_else a (first_of kind test name cs)) (note_types_lem c c.types snap)
      ∙ or_else_assoc (field snap) (when (has_type kind c.types && test c) (name c))
          (first_of kind test name cs)

module _ {D : Type 0} where
  country_axis : Axis D
  unfolding note
  country_axis = record {
    field = λ snap. snap.country_code;
    kind = is_country;
    test = named;
    name = country_name;
    fills = λ k c snap. ground arith;
  }

  state_axis : Axis D
  unfolding note
  state_axis = record {
    field = λ snap. snap.state;
    kind = is_admin;
    test = any_name;
    name = long_name_of;
    fills = λ k c snap. ground arith;
  }

  city_axis : Axis D
  unfolding note
  city_axis = record {
    field = λ snap. snap.city;
    kind = is_locality;
    test = any_name;
    name = long_name_of;
    fills = λ k c snap. ground arith;
  }

  road_axis : Axis D
  unfolding note
  road_axis = record {
    field = λ snap. snap.road;
    kind = is_route;
    test = any_name;
    name = long_name_of;
    fills = λ k c snap. ground arith;
  }

module _ {D : Type 0} (top : Result D) (rest : List (Result D)) where
  -- The country, the state, the city and the road of an answer are each the name of the first
  -- component of its first result that has one of the types for it, in whatever order the types of
  -- a component come; for the country it is the short name in lower case of the first such
  -- component whose short name is not empty.
  pub from_body_lem :
      ((from_body (top ∷ rest)).country_code
        ≡ first_of is_country named country_name top.address_components)
      × ((from_body (top ∷ rest)).state
          ≡ first_of is_admin any_name long_name_of top.address_components)
      × ((from_body (top ∷ rest)).city
          ≡ first_of is_locality any_name long_name_of top.address_components)
      × ((from_body (top ∷ rest)).road
          ≡ first_of is_route any_name long_name_of top.address_components)
  unfolding from_body country_axis state_axis city_axis road_axis
  from_body_lem =
      let snap = blank top in
      let cs : List Component = top.address_components in
      (
        note_components_lem country_axis cs snap,
        note_components_lem state_axis cs snap,
        note_components_lem city_axis cs snap,
        note_components_lem road_axis cs snap,
      )
