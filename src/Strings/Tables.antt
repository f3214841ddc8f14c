-- ===== src/Strings/Tables.antt =====
-- Matches on literals: whether a text is one of them, and what one stands for.
use geocoder.Prelude.{
  Bool, false, ◌||◌, List, [], ◌∷◌, Option, none, some, if◌then◌else◌, Text, text_eq,
}

abbrev pub is_one_of_texts : List Text → Text → Bool
is_one_of_texts [] s = false
is_one_of_texts (t ∷ ts) s = text_eq s t || is_one_of_texts ts s

abbrev pub lookup_text : List (Text × Text) → Text → Option Text
lookup_text [] s = none
lookup_text ((t, v) ∷ rows) s = if text_eq s t then some v else lookup_text rows s
