-- ===== src/Shadow/Url.antt =====
-- `percent_encode` of server/src/shadow.rs.
pub mod RoundTrip
use geocoder.Prelude.{
  ℕ, ◌+◌, ◌-◌, ◌/◌, ◌%◌, Bool, ◌&&◌, ◌||◌, [], ◌∷◌, if◌then◌else◌, leb, ◌==◌, is_digit, Text,
}
use geocoder.Bytes.{Bytes}

-- `hex_nibble` of a number below 16.
abbrev pub hex_nibble : ℕ → ℕ
hex_nibble n = if leb n 9 then b'0' + n else b'A' + n - 10

abbrev pub is_unreserved : ℕ → Bool
is_unreserved b =
    (leb b'A' b && leb b b'Z')
    || ((leb b'a' b && leb b b'z')
        || (is_digit b || ((b == b'-') || ((b == b'.') || ((b == b'_') || (b == b'~'))))))

unfoldable pub percent_encode : Bytes → Text
percent_encode [] = []
percent_encode (b ∷ s) =
    let rest = percent_encode s in
    if is_unreserved b then b ∷ rest else b'%' ∷ hex_nibble (b / 16) ∷ hex_nibble (b % 16) ∷ rest
