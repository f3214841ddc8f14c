-- ===== src/Query/Postcodes.antt =====
-- The postcodes of a query in server/src/forward.rs. A normalised code holds ASCII alone, so its
-- length in bytes is its number of characters.
pub mod Display
pub mod Forms
pub mod Trailing
use geocoder.Prelude.{
  ℕ, zero, suc, ◌+◌, ◌-◌, Bool, true, false, not, ◌&&◌, ◌||◌, List, [], ◌∷◌, ◌++◌, Option, none,
  some, if◌then◌else◌, ltb, leb, ◌==◌, length, get_elem?, take, drop, Text, codes, text_eq,
  is_empty, is_digit, all, any, eq_ignore_case, ◌>>=◌,
}
use geocoder.Strings.Unicode.{is_ascii_alphanumeric, is_ascii_alphabetic}

-- `char::to_ascii_uppercase`.
unfoldable pub to_upper : ℕ → ℕ
to_upper c = if leb b'a' c && leb c b'z' then c - 32 else c

unfoldable pub normalize_postcode : Text → Text
unfolding to_upper
normalize_postcode [] = []
normalize_postcode (c ∷ s) =
    let rest = normalize_postcode s in if is_ascii_alphanumeric c then to_upper c ∷ rest else rest

-- Where a space goes: before the last three characters in Britain, in the middle in Canada.
unfoldable pub split_at : Text → Option Text → Option ℕ
unfolding text_eq
split_at code none = none
split_at code (some country) =
    if text_eq country (codes "GB") && leb 5 (length code)
    then some (length code - 3)
    else if text_eq country (codes "CA") && (length code == 6)
    then some 3
    else none

unfoldable pub display_postcode : Text → Option Text → Text
unfolding normalize_postcode split_at
display_postcode code country_code =
    let code' = normalize_postcode code in
    elim (split_at code' country_code) [
      | none ↦ code'
      | some at ↦ take at code' ++ b' ' ∷ drop at code'
    ]

unfoldable pub ca_postcode : Text → Bool
ca_postcode [] = false
ca_postcode (a ∷ []) = false
ca_postcode (a ∷ b ∷ []) = false
ca_postcode (a ∷ b ∷ c ∷ []) = false
ca_postcode (a ∷ b ∷ c ∷ d ∷ []) = false
ca_postcode (a ∷ b ∷ c ∷ d ∷ e ∷ []) = false
ca_postcode (a ∷ b ∷ c ∷ d ∷ e ∷ f ∷ []) =
    is_ascii_alphabetic a
    && is_digit b
    && is_ascii_alphabetic c
    && is_digit d
    && is_ascii_alphabetic e
    && is_digit f
ca_postcode (a ∷ b ∷ c ∷ d ∷ e ∷ f ∷ g ∷ s) = false

abbrev pub first_is : (ℕ → Bool) → Text → Bool
first_is test [] = false
first_is test (c ∷ s) = test c

unfoldable pub gb_postcode : Text → Bool
gb_postcode s =
    leb 5 (length s)
    && leb (length s) 7
    && first_is is_ascii_alphabetic s
    && first_is is_digit (drop (length s - 3) s)
    && all is_ascii_alphabetic (drop (length s - 2) s)
    && any is_digit (take (length s - 3) s)

unfoldable pub postcode_shape : Text → Bool
postcode_shape code =
    leb 4 (length code)
    && leb (length code) 10
    && all is_ascii_alphanumeric code
    && any is_digit code

-- `mixed`: a digit and a letter.
abbrev pub mixed : Text → Bool
mixed s = any is_digit s && any is_ascii_alphabetic s

unfoldable pub spaced_code : Text → Text → Bool
spaced_code first one =
    (mixed first && mixed one)
    || ((length first == 4)
        && all is_digit first
        && (length one == 2)
        && all is_ascii_alphabetic one)
    || (leb 4 (length first)
        && leb (length first) 5
        && all is_digit first
        && leb 3 (length one)
        && leb (length one) 4
        && all is_digit one)

unfoldable pub two_token_code : Text → Text → Bool
unfolding postcode_shape ca_postcode gb_postcode spaced_code
two_token_code first one =
    postcode_shape (first ++ one)
    && (ca_postcode (first ++ one) || gb_postcode (first ++ one) || spaced_code first one)

abbrev pub first_token_digit : List Text → Bool
first_token_digit [] = false
first_token_digit (t ∷ ts) = first_is is_digit t

-- A trailing number of five digits may be a house number.
unfoldable pub five_digit_house : List Text → ℕ → Text → Option Text → Bool
unfolding eq_ignore_case
five_digit_house tokens last one country_code =
    (length one == 5) && all is_digit one && elim country_code [
      | some cc ↦ eq_ignore_case cc (codes "AU") || eq_ignore_case cc (codes "NZ")
      | none ↦ ltb 0 last && not (first_token_digit tokens)
    ]

unfoldable pub one_token_code : List Text → ℕ → Text → Option Text → Option (ℕ × Text)
unfolding postcode_shape five_digit_house
one_token_code tokens last one country_code =
    if postcode_shape one && not (five_digit_house tokens last one country_code)
    then some (last, one)
    else none

-- The index at which the code begins, and the code.
unfoldable pub code_at : List Text → ℕ → Option Text → Option (ℕ × Text)
unfolding normalize_postcode two_token_code one_token_code
code_at tokens zero country_code = do
  t ← get_elem? tokens 0
  one_token_code tokens 0 (normalize_postcode t) country_code
code_at tokens (suc before) country_code = do
  t ← get_elem? tokens (suc before)
  u ← get_elem? tokens before
  let one = normalize_postcode t
  let first = normalize_postcode u
  (if two_token_code first one
      then some (before, first ++ one)
      else one_token_code tokens (suc before) one country_code)

unfoldable pub trailing_postcode : List Text → Option Text → Option (ℕ × Text)
unfolding code_at
trailing_postcode [] country_code = none
trailing_postcode (t ∷ tokens) country_code = code_at (t ∷ tokens) (length tokens) country_code
