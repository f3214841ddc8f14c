-- ===== src/Tests/ShardNames.antt =====
-- The shard names of server/src/openaddresses.rs on small inputs.
use geocoder.Prelude.{◌≡◌, refl, List, [], ◌∷◌, none, some, codes, Text, to_lower, All}
use geocoder.OpenAddresses.{
  normalise_code, oa_prefix, files_with_prefix, strip_prefix, strip_suffix, strip_any, is_letter,
  two_letters, parse_oa_country_prefix, collect_codes,
}
use geocoder.OpenAddresses.Names.{parse_oa_country_prefix-oa_prefix}

program : Unit {0}
unfolding to_lower normalise_code oa_prefix strip_prefix strip_suffix strip_any is_letter
    two_letters parse_oa_country_prefix collect_codes
program = tt

abbrev directory : List Text
directory =
    codes "oa_au_points.bin"
    ∷ codes "OA_AU_cells.bin"
    ∷ codes "oa_nz_points.schema.json"
    ∷ codes "streets.bin"
    ∷ []

the_codes : collect_codes directory [] ≡ (b'a', b'u') ∷ (b'n', b'z') ∷ []
unfolding program
the_codes = refl

not_letters : parse_oa_country_prefix (codes "oa_1u_points.bin") ≡ none
unfolding program
not_letters = refl

parse_oa_country_prefix-oa_prefix_example :
    All
      (λ filename. parse_oa_country_prefix filename ≡ some (normalise_code (b'A', b'u')))
      (files_with_prefix (oa_prefix (b'A', b'u')))
unfolding program
parse_oa_country_prefix-oa_prefix_example = parse_oa_country_prefix-oa_prefix b'A' b'u' refl refl
