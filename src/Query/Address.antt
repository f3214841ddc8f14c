-- ===== src/Query/Address.antt =====
-- `parse_freeform_query` of server/src/forward.rs from the text to the parts of an address.
use geocoder.Prelude.{
  ℕ, ◌+◌, ◌-◌, Bool, true, false, not, ◌&&◌, List, [], ◌∷◌, ◌++◌, map, Option, none, some,
  if◌then◌else◌, ◌==◌, length, Text, text_eq, is_empty, is_digit, all, any, to_lower, is_whitespace,
  trim_start, split, split_once, eq_ignore_case, ◌>>=◌,
}
use geocoder.Strings.Unicode.{CharTables}
use geocoder.Strings.Tables.{is_one_of_texts}
use geocoder.Strings.Pieces.{trim_end_matches}
use geocoder.Query.Tokens.{tokenize_user_input}
use geocoder.Query.Postcodes.{first_is, trailing_postcode}
use geocoder.Query.UnitPrefix.{span, consume_au_unit_prefix}
use geocoder.Query.Country.{country_suffix}
use geocoder.Query.Freeform.{Fields, Setting, unit_words, is_missing, read_query_tokens}

pub record ParsedQuery : Type 0 where
  pub fields : Fields
  pub postcode : Option Text
  pub rest : List Text

abbrev pub all_parts_digits : List Text → Bool
all_parts_digits [] = true
all_parts_digits (p ∷ ps) = not (is_empty p) && all is_digit p && all_parts_digits ps

-- A house number with hyphens before the first space.
unfoldable pub take_hyphenated : Fields → Text → Fields × Text
unfolding span is_whitespace trim_end_matches split
take_hyphenated f input =
    let (prefix, behind) = span (λ c. not (is_whitespace c)) input in
    let number = trim_end_matches (λ c. c == b',') prefix in
    if is_missing f.house_number
      && not (is_empty behind)
      && any (λ c. c == b'-') number
      && all_parts_digits (split number b'-')
    then (record { house_number = some number; unit = f.unit; state = f.state }, behind)
    else (f, input)

-- A leading unit word and number, with the number of tokens that were taken.
unfoldable pub take_unit_tokens : Fields → List Text → Fields × List Text × ℕ
unfolding text_eq
take_unit_tokens f [] = (f, [], 0)
take_unit_tokens f (a ∷ []) = (f, a ∷ [], 0)
take_unit_tokens f (a ∷ b ∷ []) = (f, a ∷ b ∷ [], 0)
take_unit_tokens f (a ∷ b ∷ c ∷ tokens) =
    if is_missing f.unit && is_one_of_texts unit_words a && first_is is_digit b
    then (record { house_number = f.house_number; unit = some b; state = f.state }, c ∷ tokens, 2)
    else (f, a ∷ b ∷ c ∷ tokens, 0)

abbrev pub start_of : Option (ℕ × Text) → Option ℕ
start_of none = none
start_of (some (start, code)) = some start

abbrev pub code_of : Option (ℕ × Text) → Option Text
code_of none = none
code_of (some (start, code)) = some code

module _ (tables : CharTables) where
  open tables use {is_alphanumeric}

  -- "#3" anywhere is a unit.
  unfoldable pub take_hash : Fields → Text → Fields × Text
  unfolding span trim_start split_once to_lower
  take_hash f input = elim (split_once input b'#') [
    | none ↦ (f, input)
    | some (before, behind) ↦
        let (unit, left) = span is_alphanumeric (trim_start behind) in
        if is_missing f.unit && not (is_empty unit)
        then (
          record {
            house_number = f.house_number;
            unit = some (map to_lower unit);
            state = f.state;
          },
          before ++ left,
        )
        else (f, input)
  ]

  unfoldable pub take_prefix : Text → Fields × Text
  unfolding consume_au_unit_prefix
  take_prefix input = elim (consume_au_unit_prefix input) [
    | none ↦ (record { house_number = none; unit = none; state = none }, input)
    | some (unit, hn, behind) ↦
        (record { house_number = some hn; unit = some unit; state = none }, behind)
  ]

  -- The last token before the first comma, with the units taken off counted out.
  unfoldable pub component_end : Text → ℕ → Option ℕ
  unfolding split_once tokenize_user_input
  component_end input unit_prefix = split_once input b',' >>= λ (part, _).
      some (length (tokenize_user_input tables part) - (1 + unit_prefix))

  unfoldable pub parse_tokens : Option Text → Fields → Text → ParsedQuery
  unfolding tokenize_user_input take_unit_tokens trailing_postcode component_end read_query_tokens
  parse_tokens country_code f input =
      let (f', tokens, unit_prefix) = take_unit_tokens f (tokenize_user_input tables input) in
      let postcode = trailing_postcode tokens country_code in
      let env : Setting = record {
        count = length tokens;
        country_code = country_code;
        postcode_start = start_of postcode;
        first_component_end = component_end input unit_prefix;
      } in
      let (fields, rest) = read_query_tokens env 0 none tokens false f' in
      record { fields = fields; postcode = code_of postcode; rest = rest }

  unfoldable pub parse_freeform_query_inner : Option Text → Text → ParsedQuery
  unfolding take_prefix take_hyphenated take_hash parse_tokens
  parse_freeform_query_inner country_code input =
      let (f, behind) = take_prefix input in
      let (f', behind') = take_hyphenated f behind in
      let (f'', behind'') = take_hash f' behind' in parse_tokens country_code f'' behind''

  abbrev pub fits_country : Option Text → Text → Bool
  fits_country none code = true
  fits_country (some country) code = eq_ignore_case country code

  unfoldable pub parse_freeform_query_in_country : Option Text → Text → ParsedQuery
  unfolding country_suffix parse_freeform_query_inner eq_ignore_case
  parse_freeform_query_in_country country_code input =
      elim (country_suffix tables (λ name. none) country_code input) [
        | none ↦ parse_freeform_query_inner country_code input
        | some (body, code) ↦
            if fits_country country_code code
            then parse_freeform_query_inner country_code body
            else parse_freeform_query_inner country_code input
      ]
