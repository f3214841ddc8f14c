-- ===== src/Query/Words/Ordinals.antt =====
-- The spellings of a street ordinal that `canonicalise_ordinals` of server/src/forward.rs takes for one.
use geocoder.Prelude.{
  ℕ, ◌%◌, ◌^◌, ◌<◌, ◌≡◌, refl, ap, Bool, true, false, not, ◌&&◌, List, [], ◌∷◌, ◌++◌,
  reverse-append, reverse-reverse, none, some, if◌then◌else◌, leb, ◌==◌, ==_refl, arith, Text,
  codes, text_eq, is_digit, Bool-cases, inl, inr,
}
use geocoder.Strings.Decimal.{decimal}
use geocoder.Strings.Decimal.RoundTrip.{
  IsNumber, IsNumber-ne, decimal-IsNumber, parse_below-decimal,
}
use geocoder.OpenAddresses.{strip_prefix, strip_suffix, strip_any}
use geocoder.OpenAddresses.Ordinal.{ordinal_suffix, ordinal}
use geocoder.Query.Words.{position, ordinal_words, ordinal_suffixes, ordinal_digits, ordinal_of}

-- The words begin with no digit.
abbrev pub no_digit_first : List Text → Bool
no_digit_first [] = true
no_digit_first ([] ∷ ws) = false
no_digit_first ((c ∷ w) ∷ ws) = not (is_digit c) && no_digit_first ws

-- The full words of the table begin with no digit.
abbrev pub full_words_plain : List (Text × Text) → Bool
full_words_plain [] = true
full_words_plain ((abbr, []) ∷ rows) = false
full_words_plain ((abbr, c ∷ full) ∷ rows) = not (is_digit c) && full_words_plain rows

position_digit :
    (ws : List Text) (c : ℕ) (s : Text)
    → no_digit_first ws ≡ true
    → is_digit c ≡ true
    → position ws (c ∷ s) ≡ none
unfolding text_eq
position_digit [] c s h d = refl
position_digit ([] ∷ ws) c s h d = absurd (cc)
position_digit ((e ∷ w) ∷ ws) c s h d =
    let other : (e == c) ≡ false = ground arith in
    let rest : no_digit_first ws ≡ true = ground arith in
    ground (arith, position_digit ws c s rest d)

position_number : (s t : Text) → IsNumber s → position ordinal_words (s ++ t) ≡ none
position_number [] t h = absurd (cc (IsNumber-ne [] h))
position_number (c ∷ s) t h =
    position_digit ordinal_words c (s ++ t) refl (ground (arith, h.digits))

strip_prefix-append : (p s : Text) → strip_prefix p (p ++ s) ≡ some s
unfolding strip_prefix
strip_prefix-append [] s = refl
strip_prefix-append (c ∷ p) s = rw (==_refl c) (strip_prefix-append p s)

-- A suffix of two characters against a text that ends in two: taken off if they are the same.
strip_two :
    (a b c d : ℕ) (s : Text)
    → strip_suffix (a ∷ b ∷ []) (s ++ c ∷ d ∷ [])
      ≡ (if b == d then if a == c then some s else none else none)
unfolding strip_suffix strip_prefix
strip_two a b c d s = rw (reverse-append s (c ∷ d ∷ [])) (elim (Bool-cases (b == d)) [
  | inl h ↦ elim (Bool-cases (a == c)) [
    | inl k ↦ rw (h, k) (ap some (reverse-reverse s))
    | inr k ↦ rw (h, k) refl
  ]
  | inr h ↦ rw h refl
])

-- Each of the four suffixes is taken off.
suffix_off : (n : ℕ) (s : Text) → strip_any ordinal_suffixes (s ++ ordinal_suffix n) ≡ some s
unfolding strip_any ordinal_suffix
suffix_off n s =
    let st : strip_any ordinal_suffixes (s ++ codes "st") ≡ some s =
      rw (strip_any, strip_two b's' b't' b's' b't' s) refl in
    let nd : strip_any ordinal_suffixes (s ++ codes "nd") ≡ some s =
      rw (strip_any, strip_two b's' b't' b'n' b'd' s, strip_two b'n' b'd' b'n' b'd' s) refl in
    let rd : strip_any ordinal_suffixes (s ++ codes "rd") ≡ some s =
      rw
        (
          strip_any,
          strip_two b's' b't' b'r' b'd' s,
          strip_two b'n' b'd' b'r' b'd' s,
          strip_two b'r' b'd' b'r' b'd' s,
        )
        refl in
    let th : strip_any ordinal_suffixes (s ++ codes "th") ≡ some s =
      rw
        (
          strip_any,
          strip_two b's' b't' b't' b'h' s,
          strip_two b'n' b'd' b't' b'h' s,
          strip_two b'r' b'd' b't' b'h' s,
          strip_two b't' b'h' b't' b'h' s,
        )
        refl in
    elim (Bool-cases (leb 11 (n % 100) && leb (n % 100) 13)) [
      | inl t ↦ rw t th
      | inr f ↦ elim (Bool-cases (n % 10 == 1)) [
        | inl t ↦ rw (f, t) st
        | inr g ↦ elim (Bool-cases (n % 10 == 2)) [
          | inl t ↦ rw (f, g, t) nd
          | inr h ↦ elim (Bool-cases (n % 10 == 3)) [
            | inl t ↦ rw (f, g, h, t) rd
            | inr i ↦ rw (f, g, h, i) th
          ]
        ]
      ]
    ]

-- A number with the suffix of another number.
ordinal_digits-suffix :
    (n : ℕ) (s : Text) → IsNumber s → ordinal_digits (s ++ ordinal_suffix n) ≡ some s
unfolding ordinal_digits
ordinal_digits-suffix n s h = rw (suffix_off n s, IsNumber-ne s h, h.digits) refl

-- What is written for a number is read as the number, in whatever place it stands.
pub ordinal_of-ordinal :
    (is_house : Bool) (n : ℕ) (tokens : List Text)
    → n < 2 ^ 32
    → ordinal_of is_house (ordinal n) tokens ≡ some n
unfolding ordinal_of ordinal
ordinal_of-ordinal is_house n tokens h =
    let number = decimal-IsNumber n in
    rw
      (
        ordinal_of,
        position_number (decimal n) (ordinal_suffix n) number,
        ordinal_digits-suffix n (decimal n) number,
      )
      (parse_below-decimal (2 ^ 32) n h)

abbrev pub is_first : List Text → Bool
is_first [] = true
is_first (tok ∷ tokens) = false
