-- ===== src/Tests/QueryTheorems.antt =====
-- The theorems on server/src/forward.rs at small inputs.
use geocoder.Prelude.{
  ◌≡◌, ◌↔◌, refl, map, List, [], ◌∷◌, none, some, codes, Text, text_eq, to_lower, false,
}
use geocoder.Strings.Unicode.{ascii_tables}
use geocoder.Query.Words.{is_street_type}
use geocoder.Query.Tokens.{tokenize_user_input}
use geocoder.Query.Tokens.Folds.{tokenize_user_input-to_lower}
use geocoder.Query.Postcodes.{
  to_upper, normalize_postcode, display_postcode, ca_postcode, gb_postcode, postcode_shape,
  spaced_code, two_token_code, five_digit_house, one_token_code, code_at, trailing_postcode,
}
use geocoder.Query.Postcodes.Display.{normalize_postcode-display_postcode}
use geocoder.Query.Postcodes.Trailing.{IsTail, trailing_postcode_iff}
use geocoder.Query.UnitPrefix.{consume_au_unit_prefix}
use geocoder.Query.UnitPrefix.Shape.{IsUnitQuery, consume_au_unit_prefix_iff}
use geocoder.Query.Freeform.{Fields, Setting, read_query_tokens}
use geocoder.Query.Freeform.Accounted.{Accounted, read_query_tokens-Accounted}

abbrev setting : Setting
setting = record {
  count = 6;
  country_code = none;
  postcode_start = some 5;
  first_component_end = none;
}

abbrev nothing_yet : Fields
nothing_yet = record { house_number = none; unit = none; state = none }

abbrev typed : List Text
typed =
    codes "10" ∷ codes "alysse" ∷ codes "close" ∷ codes "dural" ∷ codes "nsw" ∷ codes "2158" ∷ []

read_query_tokens-Accounted_example :
    Accounted setting
      (read_query_tokens setting 0 none typed false nothing_yet).0
      0
      none
      typed
      (read_query_tokens setting 0 none typed false nothing_yet).1
read_query_tokens-Accounted_example = read_query_tokens-Accounted setting typed nothing_yet

consume_au_unit_prefix_iff_example :
    (consume_au_unit_prefix (codes "3 / 827a Old Rd")
      ≡ some (codes "3", codes "827a", codes " Old Rd"))
    ↔ IsUnitQuery (codes "3 / 827a Old Rd") (codes "3") (codes "827a") (codes " Old Rd")
consume_au_unit_prefix_iff_example =
    consume_au_unit_prefix_iff (codes "3 / 827a Old Rd") (codes "3") (codes "827a")
      (codes " Old Rd")

program : Unit {0}
unfolding text_eq to_upper normalize_postcode ca_postcode gb_postcode postcode_shape spaced_code
    two_token_code five_digit_house one_token_code code_at trailing_postcode is_street_type
program = tt

a_code :
    trailing_postcode (codes "ottawa" ∷ codes "k1a" ∷ codes "0b1" ∷ []) none
    ≡ some (1, codes "K1A0B1")
unfolding program
a_code = refl

trailing_postcode_iff_example :
    (trailing_postcode (codes "ottawa" ∷ codes "k1a" ∷ codes "0b1" ∷ []) none
      ≡ some (1, codes "K1A0B1"))
    ↔ IsTail (codes "ottawa" ∷ codes "k1a" ∷ codes "0b1" ∷ []) none 1 (codes "K1A0B1")
trailing_postcode_iff_example =
    trailing_postcode_iff (codes "ottawa" ∷ codes "k1a" ∷ codes "0b1" ∷ []) none 1 (codes "K1A0B1")

normalize_postcode-display_postcode_example :
    normalize_postcode (display_postcode (codes "k1a0b1") (some (codes "CA")))
    ≡ normalize_postcode (codes "k1a0b1")
normalize_postcode-display_postcode_example =
    normalize_postcode-display_postcode (codes "k1a0b1") (some (codes "CA"))

tokenize_user_input-to_lower_example :
    tokenize_user_input ascii_tables (map to_lower (codes "Old Northern RD"))
    ≡ tokenize_user_input ascii_tables (codes "Old Northern RD")
tokenize_user_input-to_lower_example =
    tokenize_user_input-to_lower ascii_tables (codes "Old Northern RD")
