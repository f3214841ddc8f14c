-- ===== src/Postcode/Normalise.antt =====
-- `normalise_locality` and `ascii_fold_char` of server/src/postcode.rs.
pub mod Words
pub mod Case
use geocoder.Prelude.{
  ℕ, ◌+◌, ◌-◌, ◌<◌, ◌≡◌, ◌≢◌, refl, ap, sym, ◌∙◌, Bool, true, false, not, ◌&&◌, ◌||◌, [], ◌∷◌, ◌++◌,
  arith, leb, ltb, ◌==◌, if◌then◌else◌, Text, codes, any, is_digit, to_lower, map, reverse, All,
  Bool-cases, inl, inr,
}
use geocoder.Strings.Unicode.{CharTables, IsAsciiCorrect, is_ascii_alphanumeric}

abbrev pub one_of : ℕ → Text → Bool
one_of c s = any (λ d. c == d) s

unfoldable pub ascii_fold_char : ℕ → Text
ascii_fold_char c =
    if one_of c (codes "áàâäãå")
    then codes "a"
    else if one_of c (codes "ÁÀÂÄÃÅ")
    then codes "A"
    else if one_of c (codes "éèêë")
    then codes "e"
    else if one_of c (codes "ÉÈÊË")
    then codes "E"
    else if one_of c (codes "íìîï")
    then codes "i"
    else if one_of c (codes "ÍÌÎÏ")
    then codes "I"
    else if one_of c (codes "óòôöõø")
    then codes "o"
    else if one_of c (codes "ÓÒÔÖÕØ")
    then codes "O"
    else if one_of c (codes "úùûü")
    then codes "u"
    else if one_of c (codes "ÚÙÛÜ")
    then codes "U"
    else if one_of c (codes "ñ")
    then codes "n"
    else if one_of c (codes "Ñ")
    then codes "N"
    else if one_of c (codes "ç")
    then codes "c"
    else if one_of c (codes "Ç")
    then codes "C"
    else if one_of c (codes "ß")
    then codes "ss"
    else c ∷ []

-- `if out.ends_with(' ') { out.pop(); }`
unfoldable pub pop_space : Text → Text
pop_space [] = []
pop_space (c ∷ []) = if c == b' ' then [] else c ∷ []
pop_space (c ∷ d ∷ s) = c ∷ pop_space (d ∷ s)

-- The tables of the standard library are an argument.
module _ (tables : CharTables) where
  open tables use {is_alphanumeric, to_lowercase}

  -- The inner loop over the characters that one character folds to.
  unfoldable pub push_folded : Text → Text → Bool → Text × Bool
  push_folded [] out last_was_space = (out, last_was_space)
  push_folded (c ∷ folded) out last_was_space =
      if is_alphanumeric c
      then push_folded folded (out ++ to_lowercase c) false
      else if not last_was_space
      then push_folded folded (out ++ b' ' ∷ []) true
      else push_folded folded out last_was_space

  unfoldable pub push_all : Text → Text → Bool → Text
  unfolding push_folded ascii_fold_char
  push_all [] out last_was_space = out
  push_all (ch ∷ s) out last_was_space =
      let (out', last') = push_folded (ascii_fold_char ch) out last_was_space in
      push_all s out' last'

  unfoldable pub normalise_locality : Text → Text
  unfolding push_all pop_space
  normalise_locality s = pop_space (push_all s [] true)
