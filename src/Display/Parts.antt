-- ===== src/Display/Parts.antt =====
-- The parts of a display name, by themselves and without positions: what `format_address` of
-- server/src/lib.rs is compared with.
use geocoder.Prelude.{
  Bool, true, false, ◌&&◌, [], ◌∷◌, ◌++◌, reverse, Option, none, some, if◌then◌else◌, ◌==◌, codes,
  is_empty,
}
use geocoder.Bytes.{Bytes}
use geocoder.Display.{AddressDetails, format_rules, is_none}

-- What is known of a field.
abbrev pub value : Option Bytes → Bytes
value none = []
value (some s) = s

-- A text behind a comma and a space, if something stands before it.
abbrev pub joined : Bytes → Bytes → Bytes
joined [] t = t
joined (c ∷ s) t = c ∷ s ++ b',' ∷ b' ' ∷ t

-- A field behind a separator, which an empty line does without.
abbrev pub add : Bytes → Option Bytes → Bytes → Bytes
add separator none line = line
add separator (some s) line = (if is_empty line then line else line ++ separator) ++ s

abbrev pub add_state : Bool → AddressDetails → Bytes → Bytes
add_state include_state addr line = if include_state then add (codes ", ") addr.state line else line

abbrev pub before_city : Option Bytes → Bytes
before_city none = []
before_city (some postcode) = postcode ++ b' ' ∷ []

-- The line of the city, by itself.
abbrev pub city_line : Bool → Bool → AddressDetails → Bytes
city_line postcode_before_city include_state addr =
    if postcode_before_city
    then add_state include_state addr (before_city addr.postcode ++ value addr.city)
    else add (codes " ") addr.postcode (add_state include_state addr (value addr.city))

abbrev pub without_space : Bytes → Bytes
without_space [] = []
without_space (c ∷ s) = if c == b' ' then s else c ∷ s

abbrev pub without_last_space : Bytes → Bytes
without_last_space s = reverse (without_space (reverse s))

-- The road with the number of the house, which is not shown without a road.
abbrev pub street_line : Bool → Option Bytes → Option Bytes → Bytes
street_line number_after none number = []
street_line number_after (some road) none = road
street_line true (some road) (some number) = road ++ b' ' ∷ number
street_line false (some road) (some number) = number ++ b' ' ∷ road

-- The street with the line of the city, which loses a space at its end, if there is such a line.
abbrev pub with_line : Bytes → Bytes → Bytes
with_line street [] = street
with_line street (c ∷ line) = joined street (without_last_space (c ∷ line))

abbrev pub with_country : Option Bytes → Bytes → Bytes
with_country none line = line
with_country (some country) line = joined line country

abbrev pub parts : Bool × Bool × Bool → AddressDetails → Bytes
parts (number_after, postcode_before_city, include_state) addr = with_country addr.country (
    with_line (street_line number_after addr.road addr.house_number)
      (city_line postcode_before_city include_state addr))

abbrev pub display_name : AddressDetails → Option Bytes
display_name addr =
    if is_none addr.road && is_none addr.city && is_none addr.country
    then none
    else if is_empty (parts (format_rules addr.country_code) addr)
    then none
    else some (parts (format_rules addr.country_code) addr)
