-- ===== src/Query/Phrase/Rows.antt =====
-- The table of street types of server/src/forward.rs, row by row.
use geocoder.Prelude.{
  ◌≡◌, refl, sym, subst, Bool, true, false, not, ◌&&◌, List, [], ◌∷◌, map, Option, some,
  if◌then◌else◌, arith, Text, codes, text_eq, to_lower, inl, inr, ◌⊎◌,
}
use geocoder.Strings.Tables.{lookup_text}
use geocoder.Postcode.Pool.{text_eq-eq}
use geocoder.Autocomplete.Abbreviations.{map_word}
use geocoder.Query.Words.{street_type_abbreviations, is_directional}
use geocoder.Query.Phrase.{place_words, or_word}

-- What holds of a row of the table of street types.
abbrev pub row_ok : Text → Text → Bool
row_ok abbr full =
    text_eq (map_word full) full
    && not (text_eq full (codes "st"))
    && not (text_eq abbr (codes "st"))
    && not (is_directional (map to_lower full))
    && not (is_directional (map to_lower abbr))

abbrev rows_ok : List (Text × Text) → Bool
rows_ok [] = true
rows_ok ((abbr, full) ∷ rows) = row_ok abbr full && rows_ok rows

rows_ok-street_type_abbreviations : rows_ok street_type_abbreviations ≡ true
unfolding map_word text_eq is_directional to_lower
rows_ok-street_type_abbreviations = refl

pub and_first : (a b : Bool) → (a && b) ≡ true → a ≡ true
and_first true b h = refl
and_first false b h = h

pub and_second : (a b : Bool) → (a && b) ≡ true → b ≡ true
and_second true b h = h
and_second false b h = absurd (cc)

if_some :
    (b : Bool) (v full : Text) (l : Option Text)
    → (if b then some v else l) ≡ some full
    → ((b ≡ true) × (v ≡ full)) ⊎ ((b ≡ false) × (l ≡ some full))
if_some true v full l h = inl (refl, cc)
if_some false v full l h = inr (refl, h)

rows_ok-lookup_text :
    (rows : List (Text × Text)) (w full : Text)
    → rows_ok rows ≡ true
    → lookup_text rows w ≡ some full
    → row_ok w full ≡ true
rows_ok-lookup_text [] w full ok found = absurd (cc)
rows_ok-lookup_text ((abbr, v) ∷ rows) w full ok found =
    elim (if_some (text_eq w abbr) v full (lookup_text rows w) found) [
      | inl (e, value) ↦
          let same : abbr ≡ w = sym (text_eq-eq w abbr e) in
          let here : row_ok abbr v ≡ true = and_first (row_ok abbr v) (rows_ok rows) ok in
          subst (λ t. row_ok t full ≡ true) same (subst (λ u. row_ok abbr u ≡ true) value here)
      | inr (e, rest) ↦
          rows_ok-lookup_text rows w full (and_second (row_ok abbr v) (rows_ok rows) ok) rest
    ]

pub place_word-map_word : (w : Text) → or_word (lookup_text place_words w) w ≡ map_word w
unfolding map_word
place_word-map_word w = ground arith

pub row_ok-map_word : (w full : Text) → row_ok w full ≡ true → text_eq (map_word full) full ≡ true
row_ok-map_word w full row = ground arith

pub row_ok-not_st :
    (w full : Text)
    → row_ok w full ≡ true
    → (text_eq full (codes "st") ≡ false) × (text_eq w (codes "st") ≡ false)
row_ok-not_st w full row = (ground arith, ground arith)

pub row_ok-not_directional :
    (w full : Text)
    → row_ok w full ≡ true
    → is_directional (map to_lower full) ≡ is_directional (map to_lower w)
row_ok-not_directional w full row = ground arith

-- What the table says of a word holds of it.
unfoldable pub Fits : Text → Option Text → Type 0
Fits w l = (full : Text) → l ≡ some full → row_ok w full ≡ true

pub table-Fits : (w : Text) → Fits w (lookup_text street_type_abbreviations w)
unfolding Fits
table-Fits w full found =
    rows_ok-lookup_text street_type_abbreviations w full rows_ok-street_type_abbreviations found
