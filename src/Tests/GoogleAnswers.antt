-- ===== src/Tests/GoogleAnswers.antt =====
-- `GoogleSnapshot::from_body` of server/src/shadow.rs on a small answer.
use geocoder.Prelude.{◌≡◌, refl, List, [], ◌∷◌, none, some, codes, Text, to_lower, text_eq, ℕ}
use geocoder.Shadow.Google.{
  Component, Result, kind_of, note, note_types, note_components, from_body,
}
use geocoder.Shadow.Google.Places.{
  first_of, is_country, is_admin, is_locality, is_route, named, any_name, country_name,
  long_name_of, from_body_lem,
}

program : Unit {0}
unfolding to_lower text_eq kind_of note note_types note_components from_body
program = tt

abbrev component : Text → Text → List Text → Component
component long short types = record { long_name = long; short_name = short; types = types }

abbrev answer : Result ℕ
answer = record {
  formatted_address = none;
  geometry = none;
  address_components =
      component (codes "High St") [] (codes "route" ∷ [])
      ∷ component (codes "Bath") [] (codes "political" ∷ codes "postal_town" ∷ [])
      ∷ component (codes "Bristol") [] (codes "locality" ∷ [])
      ∷ component (codes "United Kingdom") (codes "GB") (codes "country" ∷ [])
      ∷ [];
}

the_city : (from_body (answer ∷ [])).city ≡ some (codes "Bath")
unfolding program
the_city = refl

the_country : (from_body (answer ∷ [])).country_code ≡ some (codes "gb")
unfolding program
the_country = refl

from_body_lem_example :
    ((from_body (answer ∷ [])).country_code
      ≡ first_of is_country named country_name answer.address_components)
    × ((from_body (answer ∷ [])).state
        ≡ first_of is_admin any_name long_name_of answer.address_components)
    × ((from_body (answer ∷ [])).city
        ≡ first_of is_locality any_name long_name_of answer.address_components)
    × ((from_body (answer ∷ [])).road
        ≡ first_of is_route any_name long_name_of answer.address_components)
from_body_lem_example = from_body_lem answer []
