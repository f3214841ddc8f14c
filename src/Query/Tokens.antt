-- ===== src/Query/Tokens.antt =====
-- `tokenize_user_input` of server/src/forward.rs: the tokens of what a user typed.
pub mod Folds
use geocoder.Prelude.{
  ℕ, zero, suc, ◌+◌, ◌-◌, Bool, true, false, not, ◌&&◌, ◌||◌, List, [], ◌∷◌, ◌++◌, map, Option,
  none, some, if◌then◌else◌, ltb, leb, ◌==◌, length, get_elem?, Text, codes, text_eq, is_empty,
  to_lower, split,
}
use geocoder.Strings.Unicode.{CharTables}
use geocoder.Strings.Pieces.{split_by}
use geocoder.Autocomplete.Abbreviations.{nonempty, map_word}
use geocoder.Postcode.Normalise.{ascii_fold_char}
use geocoder.Query.Words.{
  canonicalise_token, street_st_position, canonicalise_compound_ordinals, canonicalise_ordinals,
}

-- `ascii_fold`, by the same table as `ascii_fold_char` of server/src/postcode.rs.
unfoldable pub ascii_fold : Text → Text
unfolding ascii_fold_char
ascii_fold [] = []
ascii_fold (ch ∷ s) = ascii_fold_char ch ++ ascii_fold s

-- Writes at one index.
abbrev pub set_token : ℕ → Text → List Text → List Text
set_token i t [] = []
set_token zero t (u ∷ us) = t ∷ us
set_token (suc i) t (u ∷ us) = u ∷ set_token i t us

abbrev pub token_at_is : Text → ℕ → List Text → Bool
token_at_is t i words = elim (get_elem? words i) [ none ↦ false | some w ↦ text_eq w t ]

-- Saint, Mount and Fort before the last token; `map_word` is the same match as in
-- server/src/autocomplete.rs.
unfoldable pub apply_place_abbreviation_fold : List Text → List Text
unfolding map_word
apply_place_abbreviation_fold [] = []
apply_place_abbreviation_fold (t ∷ []) = t ∷ []
apply_place_abbreviation_fold (t ∷ u ∷ ts) = map_word t ∷ apply_place_abbreviation_fold (u ∷ ts)

module _ (tables : CharTables) where
  open tables use {is_alphanumeric, is_alphabetic, to_lowercase}

  -- The inner loop of `join_dotted_initials`: the letters that a dot follows, and what stands behind.
  unfoldable pub dotted : Text → Text × Text
  dotted [] = ([], [])
  dotted (c ∷ []) = ([], c ∷ [])
  dotted (c ∷ d ∷ s) = elim (is_alphabetic c && (d == b'.')) [
    | true ↦ let (letters, rest) = dotted s in (c ∷ letters, rest)
    | false ↦ ([], c ∷ d ∷ s)
  ]

  -- One more letter, without a dot.
  abbrev pub last_initial : Text × Text → Text × Text
  last_initial (letters, []) = (letters, [])
  last_initial (letters, c ∷ rest) =
      if not (is_empty letters) && is_alphabetic c
      then (letters ++ c ∷ [], rest)
      else (letters, c ∷ rest)

  abbrev pub starts_word : Option ℕ → Bool
  starts_word none = true
  starts_word (some c) = not (is_alphanumeric c)

  abbrev pub word_ends : Text → Bool
  word_ends [] = true
  word_ends (c ∷ s) = not (is_alphanumeric c)

  -- The letters at this place, with the number of characters they take, if they are initials.
  unfoldable pub initials_at : Option ℕ → Text → Option (Text × ℕ)
  unfolding dotted
  initials_at prev s =
      let (letters, rest) = if starts_word prev then last_initial (dotted s) else ([], s) in
      if leb 2 (length letters) && word_ends rest
      then some (letters, length s - length rest)
      else none

  -- The outer loop; `skip` characters were consumed already.
  unfoldable pub join_initials : Option ℕ → ℕ → Text → Text
  unfolding initials_at
  join_initials prev skip [] = []
  join_initials prev (suc skip) (c ∷ s) = join_initials (some c) skip s
  join_initials prev zero (c ∷ s) = elim (initials_at prev (c ∷ s)) [
    | none ↦ c ∷ join_initials (some c) 0 s
    | some (letters, taken) ↦ letters ++ join_initials (some c) (taken - 1) s
  ]

  unfoldable pub join_dotted_initials : Text → Text
  unfolding join_initials
  join_dotted_initials s = join_initials none 0 s

  -- `t.chars().flat_map(char::to_lowercase)`.
  unfoldable pub lowercase_all : Text → Text
  lowercase_all [] = []
  lowercase_all (c ∷ s) = to_lowercase c ++ lowercase_all s

  -- The `map` over the words of a component: a first "dr" of more than two words is Doctor.
  unfoldable pub token_of : Bool → Text → Text
  unfolding lowercase_all canonicalise_token text_eq
  token_of leads t =
      let lower = lowercase_all t in
      if leads && text_eq lower (codes "dr") then codes "doctor" else canonicalise_token lower

  abbrev pub tokens_of : List Text → List Text
  tokens_of [] = []
  tokens_of (w ∷ ws) = token_of (ltb 2 (suc (length ws))) w ∷ map (token_of false) ws

  -- "St" at the end of a component, or before compass words, is Street.
  unfoldable pub spell_street : List Text → List Text
  unfolding street_st_position text_eq
  spell_street part = elim (street_st_position part) [
    | none ↦ part
    | some pos ↦
        if token_at_is (codes "st") pos part then set_token pos (codes "street") part else part
  ]

  -- `part` before the ordinals: the words of a component between what is neither letter nor digit.
  unfoldable pub component_words : Text → List Text
  unfolding split_by nonempty token_of spell_street
  component_words component =
      spell_street (tokens_of (nonempty (split_by (λ c. not (is_alphanumeric c)) component)))

  unfoldable pub component_tokens : Text → List Text
  unfolding component_words canonicalise_compound_ordinals canonicalise_ordinals
  component_tokens component =
      canonicalise_ordinals true (canonicalise_compound_ordinals (component_words component))

  unfoldable pub raw_tokens : List Text → List Text
  unfolding component_tokens
  raw_tokens [] = []
  raw_tokens (component ∷ components) = component_tokens component ++ raw_tokens components

  unfoldable pub tokenize_user_input : Text → List Text
  unfolding ascii_fold join_dotted_initials raw_tokens split apply_place_abbreviation_fold to_lower
  tokenize_user_input s =
      apply_place_abbreviation_fold
        (raw_tokens (split (join_dotted_initials (map to_lower (ascii_fold s))) b','))
