-- ===== src/Query/UnitPrefix.antt =====
-- `consume_au_unit_prefix` of server/src/forward.rs: "3/827a" at the start of a query. The code scans
-- bytes; behind an ASCII character no byte but ASCII whitespace passes its test for whitespace, so
-- the characters tell the same. In place of an offset the text behind the match is returned.
pub mod Shape
use geocoder.Prelude.{
  ℕ, Bool, true, false, not, ◌&&◌, ◌||◌, List, [], ◌∷◌, Option, none, some, if◌then◌else◌, leb,
  ◌==◌, Text, is_digit, is_empty,
}
use geocoder.Strings.Unicode.{is_ascii_alphanumeric}
use geocoder.Query.Postcodes.{first_is}

-- `while i < bytes.len() && test(bytes[i]) { i += 1 }`: what is passed over, and what is left.
unfoldable pub span : (ℕ → Bool) → Text → Text × Text
span test [] = ([], [])
span test (c ∷ s) =
    let (passed, left) = span test s in if test c then (c ∷ passed, left) else ([], c ∷ s)

abbrev pub is_byte_space : ℕ → Bool
is_byte_space c = (leb 9 c && leb c 13) || (c == 32)

abbrev pub ends_word : Text → Bool
ends_word [] = true
ends_word (c ∷ s) = is_byte_space c

-- From the house number on.
unfoldable pub consume_number : Text → Text → Option (Text × Text × Text)
unfolding span
consume_number unit s =
    let (hn, rest) = span is_ascii_alphanumeric s in
    if first_is is_digit s && ends_word rest then some (unit, hn, rest) else none

-- From the slash on.
unfoldable pub consume_slash : Text → Text → Option (Text × Text × Text)
unfolding span consume_number
consume_slash unit [] = none
consume_slash unit (c ∷ s) =
    if c == b'/' then consume_number unit (span is_byte_space s).1 else none

unfoldable pub consume_au_unit_prefix : Text → Option (Text × Text × Text)
unfolding span consume_slash
consume_au_unit_prefix input =
    let (unit, behind) = span is_digit (span is_byte_space input).1 in
    if is_empty unit then none else consume_slash unit (span is_byte_space behind).1
