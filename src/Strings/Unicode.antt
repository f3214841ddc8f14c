-- ===== src/Strings/Unicode.antt =====
-- The tables of Rust's standard library that the program reads through `char::is_alphanumeric`,
-- `is_alphabetic`, `to_lowercase` and `str::to_lowercase`, as a parameter; the UTF-8 bytes of a text.
use geocoder.Prelude.{
  ℕ, ◌+◌, ◌/◌, ◌%◌, ◌<◌, ◌≡◌, refl, Bool, ◌&&◌, ◌||◌, [], ◌∷◌, ◌++◌, leb, ltb, if◌then◌else◌, Text,
  is_digit, to_lower, map,
}

pub record CharTables : Type 0 where
  pub is_alphanumeric : ℕ → Bool
  pub is_alphabetic : ℕ → Bool
  pub to_lowercase : ℕ → Text
  pub str_to_lowercase : Text → Text

abbrev pub is_ascii_alphanumeric : ℕ → Bool
is_ascii_alphanumeric c = is_digit c || (leb b'a' c && leb c b'z') || (leb b'A' c && leb c b'Z')

abbrev pub is_ascii_alphabetic : ℕ → Bool
is_ascii_alphabetic c = (leb b'a' c && leb c b'z') || (leb b'A' c && leb c b'Z')

-- What the documentation says of ASCII characters.
pub record IsAsciiCorrect (tables : CharTables) : Type 0 where
  pub alphanumeric : (c : ℕ) → c < 0x80 → tables.is_alphanumeric c ≡ is_ascii_alphanumeric c
  pub alphabetic : (c : ℕ) → c < 0x80 → tables.is_alphabetic c ≡ is_ascii_alphabetic c
  pub lowercase : (c : ℕ) → c < 0x80 → tables.to_lowercase c ≡ to_lower c ∷ []

-- Tables that know ASCII alone.
abbrev pub ascii_tables : CharTables
ascii_tables = record {
  is_alphanumeric = is_ascii_alphanumeric;
  is_alphabetic = is_ascii_alphabetic;
  to_lowercase = λ c. to_lower c ∷ [];
  str_to_lowercase = map to_lower;
}

pub ascii_tables-IsAsciiCorrect : IsAsciiCorrect ascii_tables
ascii_tables-IsAsciiCorrect = record {
  alphanumeric = λ c h. refl;
  alphabetic = λ c h. refl;
  lowercase = λ c h. refl;
}

-- `char::encode_utf8`.
unfoldable pub encode_char : ℕ → Text
encode_char c =
    if ltb c 0x80
    then c ∷ []
    else if ltb c 0x800
    then (0xc0 + c / 64) ∷ (0x80 + c % 64) ∷ []
    else if ltb c 0x10000
    then (0xe0 + c / 4096) ∷ (0x80 + c / 64 % 64) ∷ (0x80 + c % 64) ∷ []
    else (0xf0 + c / 262144) ∷ (0x80 + c / 4096 % 64) ∷ (0x80 + c / 64 % 64) ∷ (0x80 + c % 64) ∷ []

-- `str::as_bytes`.
unfoldable pub as_bytes : Text → Text
unfolding encode_char
as_bytes [] = []
as_bytes (c ∷ s) = encode_char c ++ as_bytes s
