-- ===== src/Tests/DisplayNames.antt =====
-- The display names of server/src/lib.rs on small inputs.
use geocoder.Prelude.{◌≡◌, refl, none, some, codes, text_eq}
use geocoder.Bytes.{Bytes}
use geocoder.Display.{
  AddressDetails, format_rules, append_comma, pop_trailing_space, push_road, push_state,
  push_city_section, close_city_section, push_country, format_address,
  country_to_state_abbreviation,
}
use geocoder.Display.Parts.{display_name}
use geocoder.Display.Sections.{format_address-display_name}

program : Unit {0}
unfolding format_rules append_comma pop_trailing_space push_road push_state push_city_section
    close_city_section push_country format_address country_to_state_abbreviation text_eq
program = tt

abbrev sydney : AddressDetails
sydney = record {
  house_number = some (codes "1");
  road = some (codes "High St");
  city = some (codes "Sydney");
  state = some (codes "NSW");
  postcode = some (codes "2000");
  country = some (codes "Australia");
  country_code = some (codes "AU");
}

-- The fields without a city.
abbrev no_city : Bytes → AddressDetails
no_city code = record {
  house_number = none;
  road = none;
  city = none;
  state = some (codes "Tokyo");
  postcode = some (codes "100");
  country = some (codes "Japan");
  country_code = some code;
}

format_sydney : format_address sydney ≡ some (codes "1 High St, Sydney, NSW 2000, Australia")
unfolding program
format_sydney = refl

-- Without a city, the postcode and the state have a space before their comma.
format_no_city : format_address (no_city (codes "JP")) ≡ some (codes "100 , Tokyo, Japan")
unfolding program
format_no_city = refl

format_no_state : format_address (no_city (codes "DE")) ≡ some (codes "100, Japan")
unfolding program
format_no_state = refl

victoria : country_to_state_abbreviation (codes "AU") (some (codes "Victoria")) ≡ some (codes "VIC")
unfolding program
victoria = refl

format_address-display_name_example : format_address sydney ≡ display_name sydney
format_address-display_name_example = format_address-display_name sydney
