-- ===== src/OpenAddresses/Names.antt =====
-- The names of the shard files of server/src/openaddresses.rs.
use geocoder.Prelude.{ℕ, ◌≡◌, refl, true, [], ◌∷◌, some, arith, All, to_lower}
use geocoder.OpenAddresses.{
  normalise_code, oa_prefix, strip_prefix, strip_suffix, strip_any, files_with_prefix, is_letter,
  two_letters, parse_oa_country_prefix,
}

to_lower_idem : (c : ℕ) → to_lower (to_lower c) ≡ to_lower c
unfolding to_lower
to_lower_idem c = ground arith

is_letter-to_lower : (c : ℕ) → is_letter c ≡ true → is_letter (to_lower c) ≡ true
unfolding is_letter to_lower
is_letter-to_lower c h = ground arith

two_letters_lem :
    (a b : ℕ)
    → is_letter a ≡ true
    → is_letter b ≡ true
    → two_letters (to_lower (to_lower a) ∷ to_lower (to_lower b) ∷ [])
      ≡ some (normalise_code (a, b))
unfolding two_letters normalise_code
two_letters_lem a b ha hb =
    rw
      (
        to_lower_idem a,
        to_lower_idem b,
        is_letter-to_lower a ha,
        is_letter-to_lower b hb,
        to_lower_idem a,
        to_lower_idem b,
      )
      refl

-- The name of every file that is opened for a country's shard, and of its schema, made from a code of
-- two letters in any case, is read back as the code in lower case.
pub parse_oa_country_prefix-oa_prefix :
    (a b : ℕ)
    → is_letter a ≡ true
    → is_letter b ≡ true
    → All
        (λ filename. parse_oa_country_prefix filename ≡ some (normalise_code (a, b)))
        (files_with_prefix (oa_prefix (a, b)))
unfolding files_with_prefix parse_oa_country_prefix oa_prefix strip_prefix strip_suffix strip_any
    normalise_code
parse_oa_country_prefix-oa_prefix a b ha hb =
    let q = two_letters_lem a b ha hb in (q, (q, (q, (q, (q, tt)))))
