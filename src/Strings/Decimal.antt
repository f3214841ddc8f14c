-- ===== src/Strings/Decimal.antt =====
-- Numbers in decimal, as `format!` writes them and `str::parse` reads a text of digits.
pub mod RoundTrip
use geocoder.Prelude.{
  ℕ, zero, suc, ◌+◌, ◌-◌, ◌*◌, ◌/◌, ◌%◌, [], ◌∷◌, ◌++◌, Option, none, some, if◌then◌else◌, ltb,
  ◌==◌, Text, is_digit, is_empty,
}

-- The digits of `n`, on fuel: `n` digits are more than enough.
unfoldable pub decimal_from : ℕ → ℕ → Text
decimal_from zero n = (b'0' + n % 10) ∷ []
decimal_from (suc fuel) n =
    let more = decimal_from fuel (n / 10) in
    if ltb n 10 then (b'0' + n) ∷ [] else more ++ (b'0' + n % 10) ∷ []

unfoldable pub decimal : ℕ → Text
unfolding decimal_from
decimal n = decimal_from n n

-- The value of digits behind `n`, if it stays below the bound.
unfoldable pub digits_below : ℕ → Text → ℕ → Option ℕ
digits_below bound [] n = some n
digits_below bound (c ∷ s) n =
    let m = n * 10 + (c - b'0') in
    let rest = digits_below bound s m in
    if is_digit c then if ltb m bound then rest else none else none

unfoldable pub parse_below : ℕ → Text → Option ℕ
unfolding digits_below
parse_below bound s = if is_empty s then none else digits_below bound s 0

-- `str::parse` to an unsigned integer: a plus sign may stand before the digits.
unfoldable pub parse_unsigned : ℕ → Text → Option ℕ
unfolding parse_below
parse_unsigned bound [] = none
parse_unsigned bound (c ∷ s) = if c == b'+' then parse_below bound s else parse_below bound (c ∷ s)
