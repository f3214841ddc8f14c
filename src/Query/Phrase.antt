-- ===== src/Query/Phrase.antt =====
-- `canonicalise_phrase` of server/src/forward.rs: a name as it is indexed, its abbreviations written
-- out and its ordinals in digits. `lowercase` stands for `str::to_lowercase`.
pub mod Rows
pub mod Words
pub mod Symmetry
use geocoder.Prelude.{
  ℕ, zero, suc, ◌+◌, Bool, true, false, not, ◌&&◌, ◌||◌, List, [], ◌∷◌, ◌++◌, map, Option, none,
  some, if◌then◌else◌, ltb, ◌==◌, length, Text, codes, text_eq, to_lower,
}
use geocoder.Strings.Tables.{lookup_text}
use geocoder.Strings.Pieces.{split_whitespace, trim_end_matches, join}
use geocoder.Query.Words.{
  street_type_abbreviations, street_st_position, canonicalise_compound_ordinals,
  canonicalise_ordinals,
}
use geocoder.Query.Tokens.{ascii_fold}
use geocoder.Query.Freeform.{is_at}

-- The match on a key that is not the last one.
abbrev pub place_words : List (Text × Text)
place_words =
    (codes "saint", codes "st")
    ∷ (codes "sainte", codes "st")
    ∷ (codes "st", codes "st")
    ∷ (codes "ste", codes "st")
    ∷ (codes "mount", codes "mt")
    ∷ (codes "mt", codes "mt")
    ∷ (codes "fort", codes "ft")
    ∷ (codes "ft", codes "ft")
    ∷ []

abbrev pub is_dot : ℕ → Bool
is_dot c = c == b'.'

abbrev pub is_dot_or_comma : ℕ → Bool
is_dot_or_comma c = (c == b'.') || (c == b',')

-- The view of a word that the tables are read with.
unfoldable pub key_of : Text → Text
unfolding trim_end_matches ascii_fold to_lower
key_of word = map to_lower (ascii_fold (trim_end_matches is_dot word))

abbrev pub or_word : Option Text → Text → Text
or_word none word = word
or_word (some full) word = full

-- The body of the loop at index `i` of `len` words.
unfoldable pub phrase_word : Option ℕ → ℕ → ℕ → Text → Text
unfolding key_of text_eq
phrase_word st_at len i word =
    let key = key_of word in
    if is_at st_at i && text_eq key (codes "st")
    then codes "street"
    else if (i == 0) && text_eq key (codes "dr") && ltb 2 len
    then codes "doctor"
    else or_word (lookup_text street_type_abbreviations key)
        (if suc i == len then word else or_word (lookup_text place_words key) word)

unfoldable pub phrase_words : Option ℕ → ℕ → ℕ → List Text → List Text
unfolding phrase_word
phrase_words st_at len i [] = []
phrase_words st_at len i (word ∷ words) =
    phrase_word st_at len i word ∷ phrase_words st_at len (suc i) words

-- The words behind the loop, joined by one space.
unfoldable pub spelled_out : Text → Text
unfolding split_whitespace key_of street_st_position phrase_words join
spelled_out s =
    let words = split_whitespace s in
    let st_at = street_st_position (map key_of words) in
    join (codes " ") (phrase_words st_at (length words) 0 words)

abbrev pub texts_eq : List Text → List Text → Bool
texts_eq [] [] = true
texts_eq [] (u ∷ us) = false
texts_eq (t ∷ ts) [] = false
texts_eq (t ∷ ts) (u ∷ us) = text_eq t u && texts_eq ts us

-- A word stays as it is written unless its token changed.
unfoldable pub merge_words : List Text → List Text → List Text → List Text
unfolding text_eq
merge_words (word ∷ words) (new ∷ tokens) (old ∷ before) =
    (if text_eq new old then word else new) ∷ merge_words words tokens before
merge_words [] tokens before = []
merge_words (word ∷ words) [] before = []
merge_words (word ∷ words) (new ∷ tokens) [] = []

module _ (lowercase : Text → Text) where
  unfoldable pub ordinal_view : Text → Text
  unfolding trim_end_matches ascii_fold
  ordinal_view word = lowercase (ascii_fold (trim_end_matches is_dot_or_comma word))

  -- The ordinals of a text whose abbreviations are written out.
  unfoldable pub with_ordinals : Text → Text
  unfolding split_whitespace canonicalise_compound_ordinals canonicalise_ordinals ordinal_view
      merge_words join text_eq
  with_ordinals out =
      let words = canonicalise_compound_ordinals (split_whitespace out) in
      let compound_changed = not (length words == length (split_whitespace out)) in
      let before = map ordinal_view words in
      let tokens = canonicalise_ordinals false before in
      if texts_eq tokens before && not compound_changed
      then out
      else join (codes " ") (merge_words words tokens before)

  unfoldable pub canonicalise_phrase : Text → Text
  unfolding spelled_out with_ordinals split_whitespace
  canonicalise_phrase s = elim (split_whitespace s) [
    | [] ↦ []
    | word ∷ words ↦ with_ordinals (spelled_out s)
  ]
