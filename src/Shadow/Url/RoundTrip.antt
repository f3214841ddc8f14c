-- ===== src/Shadow/Url/RoundTrip.antt =====
-- What `percent_encode` of server/src/shadow.rs makes of a query decodes to the query.
use geocoder.Prelude.{
  ℕ, ◌+◌, ◌-◌, ◌*◌, ◌/◌, ◌%◌, ◌<◌, ◌≡◌, refl, ap, true, false, [], ◌∷◌, if◌then◌else◌, inl, inr,
  arith, leb, ◌==◌, Text, All, Bool-cases,
}
use geocoder.Bytes.{Bytes}
use geocoder.Shadow.Url.{hex_nibble, is_unreserved, percent_encode}

-- The value of a hexadecimal digit.
abbrev pub nibble : ℕ → ℕ
nibble c = if leb c b'9' then c - b'0' else c - b'A' + 10

-- Where a decoder stands: outside of an escape, behind the percent sign, or behind one digit.
pub data Mode : Type 0 where
  plain : Mode
  first_digit : Mode
  second_digit : ℕ → Mode

-- The bytes that a percent-encoded text stands for (RFC 3986, section 2.1).
unfoldable pub percent_decode : Mode → Text → Bytes
percent_decode mode [] = []
percent_decode plain (c ∷ s) =
    if c == b'%' then percent_decode first_digit s else c ∷ percent_decode plain s
percent_decode first_digit (c ∷ s) = percent_decode (second_digit (nibble c)) s
percent_decode (second_digit high) (c ∷ s) = (high * 16 + nibble c) ∷ percent_decode plain s

nibble-hex_nibble : (n : ℕ) → n < 16 → nibble (hex_nibble n) ≡ n
nibble-hex_nibble n h = ground arith

unreserved_ne : (b : ℕ) → is_unreserved b ≡ true → (b == b'%') ≡ false
unreserved_ne b h = ground arith

-- Decoding the encoding of bytes gives the bytes.
pub percent_decode-percent_encode :
    (s : Bytes) → All (λ b. b < 256) s → percent_decode plain (percent_encode s) ≡ s
unfolding percent_encode percent_decode
percent_decode-percent_encode [] h = refl
percent_decode-percent_encode (b ∷ s) (hb, h) = elim (Bool-cases (is_unreserved b)) [
  | inl u ↦ rw (u, unreserved_ne b u) (ap (λ t. b ∷ t) (percent_decode-percent_encode s h))
  | inr r ↦
      let value : nibble (hex_nibble (b / 16)) * 16 + nibble (hex_nibble (b % 16)) ≡ b = omega (
        arith,
        nibble-hex_nibble (b / 16) (omega arith),
        nibble-hex_nibble (b % 16) (omega arith),
      ) in
      rw (r, value) (ap (λ t. b ∷ t) (percent_decode-percent_encode s h))
]
