-- ===== src/Shadow/Google.antt =====
-- `GoogleSnapshot::from_body` of server/src/shadow.rs: what is kept of an answer. A coordinate is of
-- the type `D`.
pub mod Places
use geocoder.Prelude.{
  Bool, true, false, not, ◌&&◌, List, [], ◌∷◌, Option, none, some, Text, codes, text_eq, is_empty,
  to_lower, map, if◌then◌else◌, ◌>>=◌,
}

pub record Component : Type 0 where
  pub long_name : Text
  pub short_name : Text
  pub types : List Text

pub record Location (D : Type 0) : Type 0 where
  pub lat : D
  pub lng : D

pub record Geometry (D : Type 0) : Type 0 where
  pub location : Option (Location D)

pub record Result (D : Type 0) : Type 0 where
  pub formatted_address : Option Text
  pub geometry : Option (Geometry D)
  pub address_components : List Component

pub record GoogleSnapshot (D : Type 0) : Type 0 where
  pub country_code : Option Text
  pub state : Option Text
  pub city : Option Text
  pub road : Option Text
  pub formatted_address : Option Text
  pub lat : Option D
  pub lng : Option D

-- The arms of the match on a type.
pub data Kind : Type 0 where
  country admin locality route other : Kind

unfoldable pub kind_of : Text → Kind
unfolding text_eq
kind_of t =
    if text_eq t (codes "country")
    then country
    else if text_eq t (codes "administrative_area_level_1")
    then admin
    else if text_eq t (codes "locality")
    then locality
    else if text_eq t (codes "postal_town")
    then locality
    else if text_eq t (codes "route")
    then route
    else other

abbrev pub missing : Option Text → Bool
missing none = true
missing (some s) = false

module _ {D : Type 0} where
  -- One arm: a field is set once, the country by a short name that is not empty.
  unfoldable pub note : Kind → Component → GoogleSnapshot D → GoogleSnapshot D
  unfolding to_lower
  note country c snap =
      if missing snap.country_code && not (is_empty c.short_name)
      then record {
        country_code = some (map to_lower c.short_name);
        state = snap.state;
        city = snap.city;
        road = snap.road;
        formatted_address = snap.formatted_address;
        lat = snap.lat;
        lng = snap.lng;
      }
      else snap
  note admin c snap =
      if missing snap.state
      then record {
        country_code = snap.country_code;
        state = some c.long_name;
        city = snap.city;
        road = snap.road;
        formatted_address = snap.formatted_address;
        lat = snap.lat;
        lng = snap.lng;
      }
      else snap
  note locality c snap =
      if missing snap.city
      then record {
        country_code = snap.country_code;
        state = snap.state;
        city = some c.long_name;
        road = snap.road;
        formatted_address = snap.formatted_address;
        lat = snap.lat;
        lng = snap.lng;
      }
      else snap
  note route c snap =
      if missing snap.road
      then record {
        country_code = snap.country_code;
        state = snap.state;
        city = snap.city;
        road = some c.long_name;
        formatted_address = snap.formatted_address;
        lat = snap.lat;
        lng = snap.lng;
      }
      else snap
  note other c snap = snap

  -- The inner loop, over the types of a component, and the outer loop.
  unfoldable pub note_types : Component → List Text → GoogleSnapshot D → GoogleSnapshot D
  unfolding kind_of note
  note_types c [] snap = snap
  note_types c (t ∷ ts) snap = note_types c ts (note (kind_of t) c snap)

  unfoldable pub note_components : List Component → GoogleSnapshot D → GoogleSnapshot D
  unfolding note_types
  note_components [] snap = snap
  note_components (c ∷ cs) snap = note_components cs (note_types c c.types snap)

  abbrev pub empty_snapshot : GoogleSnapshot D
  empty_snapshot = record {
    country_code = none;
    state = none;
    city = none;
    road = none;
    formatted_address = none;
    lat = none;
    lng = none;
  }

  abbrev pub location_of : Result D → Option (Location D)
  location_of top = top.geometry >>= λ g. g.location

  -- What is set before the loops.
  abbrev pub blank : Result D → GoogleSnapshot D
  blank top = record {
    country_code = none;
    state = none;
    city = none;
    road = none;
    formatted_address = top.formatted_address;
    lat = location_of top >>= λ l. some l.lat;
    lng = location_of top >>= λ l. some l.lng;
  }

  unfoldable pub from_body : List (Result D) → GoogleSnapshot D
  unfolding note_components
  from_body [] = empty_snapshot
  from_body (top ∷ rest) = note_components top.address_components (blank top)
