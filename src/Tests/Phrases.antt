-- ===== src/Tests/Phrases.antt =====
-- `canonicalise_phrase` of server/src/forward.rs on small names.
use geocoder.Prelude.{◌≡◌, refl, [], ◌∷◌, Text, map, codes, text_eq, to_lower, is_whitespace}
use geocoder.Strings.Decimal.{decimal_from, decimal, digits_below, parse_below}
use geocoder.Strings.Pieces.{split_by, split_whitespace, trim_start_matches, trim_end_matches, join}
use geocoder.OpenAddresses.{strip_prefix, strip_suffix, strip_any}
use geocoder.OpenAddresses.Ordinal.{ordinal_suffix, ordinal}
use geocoder.Postcode.Normalise.{ascii_fold_char}
use geocoder.Autocomplete.Abbreviations.{nonempty, map_word}
use geocoder.Query.Words.{
  canonicalise_token, is_directional, rposition, street_st_position, is_street_type, tens_of,
  ones_of, canonicalise_compound_ordinals, ordinal_digits, ordinal_of, canonicalise_ordinals,
}
use geocoder.Query.Tokens.{
  ascii_fold, apply_place_abbreviation_fold, lowercase_all, token_of, spell_street, component_words,
}
use geocoder.Query.Phrase.Symmetry.{spelled_out-component_words}
use geocoder.Strings.Unicode.{ascii_tables}
use geocoder.Query.Phrase.{
  key_of, phrase_word, phrase_words, spelled_out, merge_words, ordinal_view, with_ordinals,
  canonicalise_phrase,
}

spelling : Unit {0}
unfolding text_eq to_lower is_whitespace decimal_from decimal digits_below parse_below split_by
    split_whitespace trim_start_matches trim_end_matches join strip_prefix strip_suffix strip_any
    ordinal_suffix ordinal ascii_fold_char nonempty is_directional rposition street_st_position
    is_street_type tens_of ones_of canonicalise_compound_ordinals ordinal_digits ordinal_of
    canonicalise_ordinals ascii_fold key_of phrase_word phrase_words spelled_out merge_words
    ordinal_view with_ordinals canonicalise_phrase
spelling = tt

abbrev to_lowercase : Text → Text
to_lowercase s = map to_lower s

mountain_road : canonicalise_phrase to_lowercase (codes "Mt. Barker Rd") ≡ codes "mt Barker road"
unfolding spelling
mountain_road = refl

last_street : canonicalise_phrase to_lowercase (codes "St Kilda St") ≡ codes "st Kilda street"
unfolding spelling
last_street = refl

doctor_name :
    canonicalise_phrase to_lowercase (codes "Dr Martin Luther King Jr Blvd")
    ≡ codes "doctor Martin Luther King junior boulevard"
unfolding spelling
doctor_name = refl

compound_ordinal :
    canonicalise_phrase to_lowercase (codes "West Twenty Third Street") ≡ codes "West 23rd Street"
unfolding spelling
compound_ordinal = refl

mid_word_mount :
    canonicalise_phrase to_lowercase (codes "Upper Mount Street") ≡ codes "Upper mt Street"
unfolding spelling
mid_word_mount = refl

blank_name : canonicalise_phrase to_lowercase (codes "  ") ≡ []
unfolding spelling
blank_name = refl

spelled_out-component_words_example :
    spelled_out (codes "mt barker dr")
    ≡ join (codes " ") (codes "mt" ∷ codes "barker" ∷ codes "drive" ∷ [])
unfolding spelling map_word apply_place_abbreviation_fold lowercase_all token_of spell_street
    canonicalise_token component_words
spelled_out-component_words_example =
    spelled_out-component_words ascii_tables (codes "mt barker dr")
      (
        refl,
        (refl, (refl, (refl, (refl, (refl, (refl, (refl, (refl, (refl, (refl, (refl, tt))))))))))),
      )
      refl refl
