-- ===== src/Tests/Resolutions.antt =====
-- `parse_h3_res` of server/src/h3_cell.rs on small inputs.
use geocoder.Prelude.{
  ℕ, List, ◌≡◌, ◌↔◌, ◌≤◌, refl, [], ◌∷◌, codes, length, trim, trim_start, trim_end, split,
  is_whitespace,
}
use geocoder.H3Cell.{
  ok, err, not_an_integer, out_of_range, too_many, u8_digits, parse_u8, check_count, read_tokens,
  parse_h3_res,
}
use geocoder.H3Cell.Accepted.{Spells, parse_h3_res_iff}

program : Unit {0}
unfolding trim trim_start trim_end split is_whitespace u8_digits parse_u8 check_count read_tokens
    parse_h3_res
program = tt

accepted : parse_h3_res (codes " 7, +9,12") ≡ ok (7 ∷ 9 ∷ 12 ∷ [])
unfolding program
accepted = refl

too_fine : parse_h3_res (codes "7,16") ≡ err (out_of_range 16)
unfolding program
too_fine = refl

too_large : parse_h3_res (codes "256") ≡ err (not_an_integer (codes "256"))
unfolding program
too_large = refl

five : parse_h3_res (codes "1,2,3,4,5") ≡ err (too_many 5)
unfolding program
five = refl

abbrev two : List ℕ
two = 7 ∷ 9 ∷ []

parse_h3_res_iff_example :
    (parse_h3_res (codes "7,9") ≡ ok two)
    ↔ (Spells (split (trim (codes "7,9")) b',') two × (length two ≤ 4))
parse_h3_res_iff_example = parse_h3_res_iff (codes "7,9") two
