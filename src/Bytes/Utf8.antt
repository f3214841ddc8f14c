-- ===== src/Bytes/Utf8.antt =====
-- `std::str::from_utf8`: which byte sequences are well-formed UTF-8 (table 3-7 of the Unicode
-- standard). A `&str` that comes out of a file is modelled by its bytes.
use geocoder.Prelude.{
  ℕ, zero, suc, ◌+◌, ◌-◌, ◌*◌, ◌<◌, Bool, true, ◌&&◌, ◌||◌, [], ◌∷◌, Option, none, some, ◌≡◌, refl,
  arith, leb, ltb, ◌==◌, if◌then◌else◌, All,
}
use geocoder.Bytes.{Bytes}

abbrev between : ℕ → ℕ → ℕ → Bool
between lo hi b = leb lo b && leb b hi

-- The second byte of a sequence that begins with a byte of three or of four.
abbrev second_of_three : ℕ → ℕ → Bool
second_of_three a b =
    if a == 0xe0
    then between 0xa0 0xbf b
    else if a == 0xed
    then between 0x80 0x9f b
    else between 0xe1 0xef a && between 0x80 0xbf b

abbrev second_of_four : ℕ → ℕ → Bool
second_of_four a b =
    if a == 0xf0
    then between 0x90 0xbf b
    else if a == 0xf4
    then between 0x80 0x8f b
    else between 0xf1 0xf3 a && between 0x80 0xbf b

-- Each call is made only where its case is reached.
unfoldable pub is_utf8 : Bytes → Bool
is_utf8 [] = true
is_utf8 (a ∷ []) = ltb a 0x80
is_utf8 (a ∷ b ∷ []) =
    let one = ltb a 0x80 && ltb b 0x80 in one || (between 0xc2 0xdf a && between 0x80 0xbf b)
is_utf8 (a ∷ b ∷ c ∷ []) =
    let one = is_utf8 (b ∷ c ∷ []) in
    let two = is_utf8 (c ∷ []) in
    if ltb a 0x80
    then one
    else if between 0xc2 0xdf a
    then between 0x80 0xbf b && two
    else second_of_three a b && between 0x80 0xbf c
is_utf8 (a ∷ b ∷ c ∷ d ∷ rest) =
    let one = is_utf8 (b ∷ c ∷ d ∷ rest) in
    let two = is_utf8 (c ∷ d ∷ rest) in
    let three = is_utf8 (d ∷ rest) in
    let four = is_utf8 rest in
    if ltb a 0x80
    then one
    else if between 0xc2 0xdf a
    then between 0x80 0xbf b && two
    else if second_of_three a b
    then between 0x80 0xbf c && three
    else second_of_four a b && between 0x80 0xbf c && between 0x80 0xbf d && four

-- ASCII bytes are well-formed.
pub ascii-is_utf8 : (s : Bytes) → All (λ b. b < 0x80) s → is_utf8 s ≡ true
unfolding is_utf8
ascii-is_utf8 [] h = refl
ascii-is_utf8 (a ∷ []) (ha, _) = ground arith
ascii-is_utf8 (a ∷ b ∷ []) (ha, (hb, _)) = ground arith
ascii-is_utf8 (a ∷ b ∷ c ∷ []) (ha, h) = ground (arith, ascii-is_utf8 (b ∷ c ∷ []) h)
ascii-is_utf8 (a ∷ b ∷ c ∷ d ∷ rest) (ha, h) = ground (arith, ascii-is_utf8 (b ∷ c ∷ d ∷ rest) h)

unfoldable pub from_utf8 : Bytes → Option Bytes
unfolding is_utf8
from_utf8 s = if is_utf8 s then some s else none

-- The characters of well-formed UTF-8: `pending` bytes of a character are to come, and `acc` holds
-- the bits of those before.
unfoldable pub decode_from : ℕ → ℕ → Bytes → Bytes
decode_from pending acc [] = []
decode_from zero acc (b ∷ s) =
    if ltb b 0x80
    then b ∷ decode_from 0 0 s
    else if ltb b 0xe0
    then decode_from 1 (b - 0xc0) s
    else if ltb b 0xf0
    then decode_from 2 (b - 0xe0) s
    else decode_from 3 (b - 0xf0) s
decode_from (suc zero) acc (b ∷ s) = (acc * 64 + (b - 0x80)) ∷ decode_from 0 0 s
decode_from (suc (suc pending)) acc (b ∷ s) = decode_from (suc pending) (acc * 64 + (b - 0x80)) s

unfoldable pub decode : Bytes → Bytes
unfolding decode_from
decode s = decode_from 0 0 s
