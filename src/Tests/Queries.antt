-- ===== src/Tests/Queries.antt =====
-- `parse_freeform_query` of server/src/forward.rs on small inputs.
use geocoder.Prelude.{
  ◌≡◌, refl, List, [], ◌∷◌, Option, none, some, codes, Text, trim, trim_start, trim_end, to_lower,
  text_eq, eq_ignore_case, is_whitespace, split, split_once,
}
use geocoder.Strings.Unicode.{ascii_tables}
use geocoder.Strings.Decimal.{decimal_from, decimal, digits_below, parse_below}
use geocoder.Strings.Pieces.{split_by, trim_start_matches, trim_end_matches}
use geocoder.OpenAddresses.{strip_prefix, strip_suffix, strip_any}
use geocoder.OpenAddresses.Ordinal.{ordinal_suffix, ordinal}
use geocoder.Postcode.Normalise.{ascii_fold_char}
use geocoder.Autocomplete.Abbreviations.{nonempty, map_word}
use geocoder.Query.Words.{
  canonicalise_token, is_directional, rposition, street_st_position, is_street_type, tens_of,
  ones_of, canonicalise_compound_ordinals, ordinal_digits, ordinal_of, canonicalise_ordinals,
}
use geocoder.Query.Tokens.{
  ascii_fold, apply_place_abbreviation_fold, dotted, initials_at, join_initials,
  join_dotted_initials, lowercase_all, token_of, spell_street, component_words, component_tokens,
  raw_tokens, tokenize_user_input,
}
use geocoder.Query.Postcodes.{
  to_upper, normalize_postcode, split_at, display_postcode, ca_postcode, gb_postcode,
  postcode_shape, spaced_code, two_token_code, five_digit_house, one_token_code, code_at,
  trailing_postcode,
}
use geocoder.Query.States.{
  canonicalise_state, canonicalise_us_state, canonicalise_ca_province, state_of,
}
use geocoder.Query.UnitPrefix.{span, consume_number, consume_slash, consume_au_unit_prefix}
use geocoder.Query.Country.{rsplit_comma, resolve, suffix_at, country_suffix}
use geocoder.Query.Freeform.{
  floor_ordinal, unit_arm, floor_arm, leading_arm, digits_arm, component_arm, state_arm, arm_of,
  fill, skip_next, keep, read_query_tokens,
}
use geocoder.Query.Address.{
  ParsedQuery, take_hyphenated, take_unit_tokens, take_hash, take_prefix, component_end,
  parse_tokens, parse_freeform_query_inner, parse_freeform_query_in_country,
}

program : Unit {0}
unfolding trim trim_start trim_end to_lower text_eq eq_ignore_case is_whitespace split split_once
    decimal_from decimal digits_below parse_below split_by trim_start_matches trim_end_matches
    strip_prefix strip_suffix strip_any ordinal_suffix ordinal ascii_fold_char nonempty map_word
    canonicalise_token is_directional rposition street_st_position is_street_type tens_of ones_of
    canonicalise_compound_ordinals ordinal_digits ordinal_of canonicalise_ordinals ascii_fold
    apply_place_abbreviation_fold dotted initials_at join_initials join_dotted_initials
    lowercase_all token_of spell_street component_words component_tokens raw_tokens
    tokenize_user_input to_upper normalize_postcode split_at display_postcode ca_postcode
    gb_postcode postcode_shape spaced_code two_token_code five_digit_house one_token_code code_at
    trailing_postcode canonicalise_state canonicalise_us_state canonicalise_ca_province state_of
    span consume_number consume_slash consume_au_unit_prefix rsplit_comma resolve suffix_at
    country_suffix floor_ordinal unit_arm floor_arm leading_arm digits_arm component_arm state_arm
    arm_of fill skip_next keep read_query_tokens take_hyphenated take_unit_tokens take_hash
    take_prefix component_end parse_tokens parse_freeform_query_inner
    parse_freeform_query_in_country
program = tt

abbrev parsed : Option Text → Option Text → Option Text → Option Text → List Text → ParsedQuery
parsed hn unit state postcode rest = record {
  fields = record { house_number = hn; unit = unit; state = state };
  postcode = postcode;
  rest = rest;
}

sydney_tokens :
    tokenize_user_input ascii_tables (codes "St. Kilda, N.Y.C. twenty first St SE")
    ≡ codes "st" ∷ codes "kilda" ∷ codes "nyc" ∷ codes "21st" ∷ codes "street" ∷ codes "se" ∷ []
unfolding program
sydney_tokens = refl

unit_query :
    parse_freeform_query_in_country ascii_tables none
      (codes "3/827a Old Northern Rd, Dural NSW 2158, Australia")
    ≡ parsed
        (some (codes "827a"))
        (some (codes "3"))
        (some (codes "New South Wales"))
        (some (codes "2158"))
        (codes "old" ∷ codes "northern" ∷ codes "road" ∷ codes "dural" ∷ [])
unfolding program
unit_query = refl

apartment_query :
    parse_freeform_query_in_country ascii_tables
      (some (codes "US"))
      (codes "Apt 3 450 W 37th St, New York NY 10018")
    ≡ parsed
        (some (codes "450"))
        (some (codes "3"))
        (some (codes "New York"))
        (some (codes "10018"))
        (codes "w" ∷ codes "37th" ∷ codes "street" ∷ codes "new" ∷ codes "york" ∷ [])
unfolding program
apartment_query = refl

hyphen_query :
    parse_freeform_query_in_country ascii_tables (some (codes "US")) (codes "85-23 168 St #4")
    ≡ parsed (some (codes "85-23")) (some (codes "4")) none none (codes "168" ∷ codes "street" ∷ [])
unfolding program
hyphen_query = refl
