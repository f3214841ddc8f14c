-- ===== src/Autocomplete/Abbreviations.antt =====
-- `fold_place_abbreviations` of server/src/autocomplete.rs.
pub mod Folded
use geocoder.Prelude.{
  ℕ, Bool, true, false, ◌||◌, not, List, [], ◌∷◌, ◌++◌, if◌then◌else◌, ltb, length, is_empty, split,
  text_eq, codes, Text,
}

-- `s.split(' ').filter(|t| !t.is_empty())`
unfoldable pub nonempty : List Text → List Text
nonempty [] = []
nonempty (t ∷ ts) = let rest = nonempty ts in if is_empty t then rest else t ∷ rest

unfoldable pub words : Text → List Text
unfolding nonempty split
words s = nonempty (split s b' ')

-- The last word.
unfoldable pub map_last : Text → Text
unfolding text_eq
map_last tok = if text_eq tok (codes "st") then codes "street" else tok

-- A word before the last.
unfoldable pub map_word : Text → Text
unfolding text_eq
map_word tok =
    if text_eq tok (codes "saint")
      || (text_eq tok (codes "sainte") || (text_eq tok (codes "st") || text_eq tok (codes "ste")))
    then codes "st"
    else if text_eq tok (codes "mount") || text_eq tok (codes "mt")
    then codes "mt"
    else if text_eq tok (codes "fort") || text_eq tok (codes "ft")
    then codes "ft"
    else tok

-- The loop over the words, which puts a space before each but the first.
unfoldable pub push_words : List Text → Text
unfolding map_last map_word
push_words [] = []
push_words (t ∷ []) = map_last t
push_words (t ∷ u ∷ ts) = map_word t ++ b' ' ∷ push_words (u ∷ ts)

unfoldable pub fold_place_abbreviations : Text → Text
unfolding words push_words
fold_place_abbreviations s =
    let parts = words s in if ltb (length parts) 2 then s else push_words parts
