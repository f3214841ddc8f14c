-- ===== src/Housenumber.antt =====
-- server/src/housenumber.rs: house numbers as ranges with a suffix, and the test whether a query
-- means a stored one. A `u32` is a number below 2 ^ 32; slices of a text are texts.
pub mod Digits
pub mod Parse
pub mod Matching
pub mod Unit
use geocoder.Prelude.{
  ℕ, ◌+◌, ◌-◌, ◌*◌, ◌^◌, min, max, Bool, true, false, not, ◌&&◌, ◌||◌, [], ◌∷◌, ◌++◌, Option, none,
  some, Text, ◌==◌, ltb, leb, if◌then◌else◌, ◌>>=◌, is_digit, is_empty, all, eq_ignore_case,
  trim_start, trim, split_once, drop,
}

pub record ParsedHn : Type 0 where
  pub first : ℕ
  pub last : ℕ
  pub suffix : Text

-- `checked_mul` and `checked_add` on a `u32`: the true result, if it fits.
abbrev pub checked_u32 : ℕ → Option ℕ
checked_u32 n = if ltb n (2 ^ 32) then some n else none

-- The loop of `parse_digits_and_suffix`: the number read and where the digits end.
unfoldable pub scan_digits : Text → ℕ → ℕ → Option (ℕ × ℕ)
scan_digits [] acc digits_end = some (acc, digits_end)
scan_digits (c ∷ s) acc digits_end =
    let rest = (do
      a ← checked_u32 (acc * 10)
      b ← checked_u32 (a + (c - b'0'))
      scan_digits s b (digits_end + 1)) in
    if is_digit c then rest else some (acc, digits_end)

unfoldable pub parse_digits_and_suffix : Text → Option (ℕ × Text)
unfolding scan_digits
parse_digits_and_suffix s = do
  let t = trim_start s
  (acc, digits_end) ← scan_digits t 0 0
  if digits_end == 0 then none else some (acc, trim (drop digits_end t))

-- Behind `split_once('-')`.
unfoldable pub parse_range : Option (Text × Text) → Text → Option ParsedHn
unfolding parse_digits_and_suffix
parse_range (some (first, last)) trimmed = do
  (f, fs) ← parse_digits_and_suffix (trim first)
  (l, _) ← parse_digits_and_suffix (trim last)
  some (record { first = min f l; last = max f l; suffix = fs })
parse_range none trimmed = do
  (n, suffix) ← parse_digits_and_suffix trimmed
  some (record { first = n; last = n; suffix = suffix })

unfoldable pub parse_hn : Text → Option ParsedHn
unfolding parse_range
parse_hn hn =
    let trimmed = trim hn in
    if is_empty trimmed then none else parse_range (split_once trimmed b'-') trimmed

unfoldable pub ranges_overlap : ℕ × ℕ → ℕ × ℕ → Bool
ranges_overlap q s = leb (max q.0 s.0) (min q.1 s.1)

-- The early returns on the two suffixes: `false` means that the query is turned down.
unfoldable pub suffix_allows : ParsedHn → ParsedHn → Bool
suffix_allows q s =
    if is_empty q.suffix
    then true
    else if is_empty s.suffix
    then not (s.first == s.last)
    else eq_ignore_case q.suffix s.suffix

unfoldable pub housenumber_matches : Text → Text → Bool
unfolding parse_hn ranges_overlap suffix_allows
housenumber_matches query stored =
    if eq_ignore_case query stored then true else elim (parse_hn query) [
      | none ↦ false
      | some q ↦ elim (parse_hn stored) [
        | none ↦ false
        | some s ↦ suffix_allows q s && ranges_overlap (q.first, q.last) (s.first, s.last)
      ]
    ]

abbrev pub starts_with_digit : Text → Bool
starts_with_digit [] = false
starts_with_digit (c ∷ s) = is_digit c

-- The three early returns behind the split.
unfoldable pub check_unit : Text → Text → Option (Text × Text)
check_unit lhs rhs =
    if is_empty lhs || is_empty rhs
    then none
    else if not (all is_digit lhs)
    then none
    else if not (starts_with_digit rhs)
    then none
    else some (lhs, rhs)

unfoldable pub parse_au_unit_address : Text → Option (Text × Text)
unfolding check_unit
parse_au_unit_address s = do (lhs, rhs) ← split_once (trim s) b'/'; check_unit (trim lhs) (trim rhs)
