-- ===== src/Query/States.antt =====
-- The names of states in a query: `canonicalise_state`, `canonicalise_us_state` and
-- `canonicalise_ca_province` of server/src/forward.rs, and the match on the country around them.
use geocoder.Prelude.{
  Bool, List, [], ◌∷◌, map, Option, none, some, if◌then◌else◌, Text, codes, text_eq, to_lower,
}
use geocoder.Strings.Tables.{lookup_text}
use geocoder.Query.Postcodes.{to_upper}

abbrev pub au_states : List (Text × Text)
au_states =
    (codes "nsw", codes "New South Wales")
    ∷ (codes "vic", codes "Victoria")
    ∷ (codes "victoria", codes "Victoria")
    ∷ (codes "qld", codes "Queensland")
    ∷ (codes "queensland", codes "Queensland")
    ∷ (codes "wa", codes "Western Australia")
    ∷ (codes "sa", codes "South Australia")
    ∷ (codes "tas", codes "Tasmania")
    ∷ (codes "tasmania", codes "Tasmania")
    ∷ (codes "nt", codes "Northern Territory")
    ∷ (codes "act", codes "Australian Capital Territory")
    ∷ []

abbrev pub us_states : List (Text × Text)
us_states =
    (codes "AL", codes "Alabama")
    ∷ (codes "AK", codes "Alaska")
    ∷ (codes "AZ", codes "Arizona")
    ∷ (codes "AR", codes "Arkansas")
    ∷ (codes "CA", codes "California")
    ∷ (codes "CO", codes "Colorado")
    ∷ (codes "CT", codes "Connecticut")
    ∷ (codes "DE", codes "Delaware")
    ∷ (codes "DC", codes "District of Columbia")
    ∷ (codes "FL", codes "Florida")
    ∷ (codes "GA", codes "Georgia")
    ∷ (codes "HI", codes "Hawaii")
    ∷ (codes "ID", codes "Idaho")
    ∷ (codes "IL", codes "Illinois")
    ∷ (codes "IN", codes "Indiana")
    ∷ (codes "IA", codes "Iowa")
    ∷ (codes "KS", codes "Kansas")
    ∷ (codes "KY", codes "Kentucky")
    ∷ (codes "LA", codes "Louisiana")
    ∷ (codes "ME", codes "Maine")
    ∷ (codes "MD", codes "Maryland")
    ∷ (codes "MA", codes "Massachusetts")
    ∷ (codes "MI", codes "Michigan")
    ∷ (codes "MN", codes "Minnesota")
    ∷ (codes "MS", codes "Mississippi")
    ∷ (codes "MO", codes "Missouri")
    ∷ (codes "MT", codes "Montana")
    ∷ (codes "NE", codes "Nebraska")
    ∷ (codes "NV", codes "Nevada")
    ∷ (codes "NH", codes "New Hampshire")
    ∷ (codes "NJ", codes "New Jersey")
    ∷ (codes "NM", codes "New Mexico")
    ∷ (codes "NY", codes "New York")
    ∷ (codes "NC", codes "North Carolina")
    ∷ (codes "ND", codes "North Dakota")
    ∷ (codes "OH", codes "Ohio")
    ∷ (codes "OK", codes "Oklahoma")
    ∷ (codes "OR", codes "Oregon")
    ∷ (codes "PA", codes "Pennsylvania")
    ∷ (codes "RI", codes "Rhode Island")
    ∷ (codes "SC", codes "South Carolina")
    ∷ (codes "SD", codes "South Dakota")
    ∷ (codes "TN", codes "Tennessee")
    ∷ (codes "TX", codes "Texas")
    ∷ (codes "UT", codes "Utah")
    ∷ (codes "VT", codes "Vermont")
    ∷ (codes "VA", codes "Virginia")
    ∷ (codes "WA", codes "Washington")
    ∷ (codes "WV", codes "West Virginia")
    ∷ (codes "WI", codes "Wisconsin")
    ∷ (codes "WY", codes "Wyoming")
    ∷ []

abbrev pub ca_provinces : List (Text × Text)
ca_provinces =
    (codes "AB", codes "Alberta")
    ∷ (codes "BC", codes "British Columbia")
    ∷ (codes "MB", codes "Manitoba")
    ∷ (codes "NB", codes "New Brunswick")
    ∷ (codes "NL", codes "Newfoundland and Labrador")
    ∷ (codes "NS", codes "Nova Scotia")
    ∷ (codes "NT", codes "Northwest Territories")
    ∷ (codes "NU", codes "Nunavut")
    ∷ (codes "ON", codes "Ontario")
    ∷ (codes "PE", codes "Prince Edward Island")
    ∷ (codes "QC", codes "Québec")
    ∷ (codes "PQ", codes "Québec")
    ∷ (codes "SK", codes "Saskatchewan")
    ∷ (codes "YT", codes "Yukon")
    ∷ []

abbrev pub nz_regions : List (Text × Text)
nz_regions =
    (codes "wellington", codes "Wellington")
    ∷ (codes "auckland", codes "Auckland")
    ∷ (codes "canterbury", codes "Canterbury")
    ∷ (codes "otago", codes "Otago")
    ∷ (codes "waikato", codes "Waikato")
    ∷ (codes "northland", codes "Northland")
    ∷ []

unfoldable pub canonicalise_state : Text → Option Text
unfolding text_eq to_lower
canonicalise_state token = lookup_text au_states (map to_lower token)

unfoldable pub canonicalise_us_state : Text → Option Text
unfolding text_eq to_upper
canonicalise_us_state token = lookup_text us_states (map to_upper token)

unfoldable pub canonicalise_ca_province : Text → Option Text
unfolding text_eq to_upper
canonicalise_ca_province token = lookup_text ca_provinces (map to_upper token)

abbrev pub or_au : Option Text → Text
or_au none = codes "AU"
or_au (some country) = country

-- The state that a token names in a country, which outside Australia only the last token before the
-- postcode may do.
unfoldable pub state_of : Option Text → Bool → Text → Option Text
unfolding canonicalise_state canonicalise_us_state canonicalise_ca_province
state_of country_code state_tail tok =
    let country = map to_upper (or_au country_code) in
    if text_eq country (codes "AU")
    then canonicalise_state tok
    else if state_tail
    then (if text_eq country (codes "US")
        then canonicalise_us_state tok
        else if text_eq country (codes "CA")
        then canonicalise_ca_province tok
        else if text_eq country (codes "NZ")
        then lookup_text nz_regions tok
        else none)
    else none
