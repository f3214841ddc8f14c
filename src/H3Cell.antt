-- ===== src/H3Cell.antt =====
-- `parse_h3_res` of server/src/h3_cell.rs. A text is the list of its characters.
pub mod Accepted
use geocoder.Prelude.{
  ℕ, ◌+◌, ◌-◌, ◌*◌, Bool, true, false, List, [], ◌∷◌, ◌++◌, Option, none, some, if◌then◌else◌, ◌==◌,
  ltb, leb, ◌>>=◌, Text, length, is_digit, is_empty, split, trim,
}

abbrev pub max_resolutions : ℕ
max_resolutions = 4

-- The messages of the code, with what they tell.
pub data H3Error : Type 0 where
  not_an_integer : Text → H3Error
  out_of_range : ℕ → H3Error
  too_many : ℕ → H3Error

pub data Parsed : Type 0 where
  ok : List ℕ → Parsed
  err : H3Error → Parsed

-- The digits of a `u8` behind `n`.
unfoldable pub u8_digits : Text → ℕ → Option ℕ
u8_digits [] n = some n
u8_digits (c ∷ s) n =
    let m = n * 10 + (c - b'0') in
    let rest = u8_digits s m in if is_digit c then if ltb m 256 then rest else none else none

-- `str::parse::<u8>`: one or more digits, which a plus sign may precede.
unfoldable pub parse_u8 : Text → Option ℕ
unfolding u8_digits
parse_u8 [] = none
parse_u8 (c ∷ s) =
    if c == b'+' then if is_empty s then none else u8_digits s 0 else u8_digits (c ∷ s) 0

unfoldable pub check_count : List ℕ → Parsed
check_count out = if ltb max_resolutions (length out) then err (too_many (length out)) else ok out

-- The loop over the tokens, and the test of the length behind it.
unfoldable pub read_tokens : List Text → List ℕ → Parsed
read_tokens [] out = check_count out
read_tokens (tok ∷ toks) out =
    if is_empty (trim tok) then read_tokens toks out else elim (parse_u8 (trim tok)) [
      | none ↦ err (not_an_integer (trim tok))
      | some res ↦ if ltb 15 res then err (out_of_range res) else read_tokens toks (out ++ res ∷ [])
    ]

unfoldable pub parse_h3_res : Text → Parsed
parse_h3_res raw =
    let trimmed = trim raw in
    if is_empty trimmed then ok [] else read_tokens (split trimmed b',') []
