-- ===== src/Query/Words.antt =====
-- The words of a query and of an indexed name, and the spellings that server/src/forward.rs takes
-- for one: street types, ordinals and the leading Saint, Mount and Fort.
pub mod Ordinals
use geocoder.Prelude.{
  ℕ, zero, suc, ◌+◌, Bool, true, false, not, ◌&&◌, ◌||◌, List, [], ◌∷◌, ◌^◌, Option, none, some,
  if◌then◌else◌, ltb, Text, codes, text_eq, is_empty, all, is_digit, to_lower, map, ◌>>=◌,
}
use geocoder.Strings.Tables.{is_one_of_texts, lookup_text}
use geocoder.Strings.Decimal.{parse_below}
use geocoder.OpenAddresses.{strip_any}
use geocoder.OpenAddresses.Ordinal.{ordinal}

abbrev pub street_type_abbreviations : List (Text × Text)
street_type_abbreviations =
    (codes "hwy", codes "highway")
    ∷ (codes "pde", codes "parade")
    ∷ (codes "tce", codes "terrace")
    ∷ (codes "ter", codes "terrace")
    ∷ (codes "cres", codes "crescent")
    ∷ (codes "blvd", codes "boulevard")
    ∷ (codes "blv", codes "boulevard")
    ∷ (codes "bvd", codes "boulevard")
    ∷ (codes "ln", codes "lane")
    ∷ (codes "ave", codes "avenue")
    ∷ (codes "av", codes "avenue")
    ∷ (codes "rd", codes "road")
    ∷ (codes "dr", codes "drive")
    ∷ (codes "tr", codes "trail")
    ∷ (codes "ct", codes "court")
    ∷ (codes "cl", codes "close")
    ∷ (codes "pl", codes "place")
    ∷ (codes "pkwy", codes "parkway")
    ∷ (codes "sq", codes "square")
    ∷ (codes "cir", codes "circle")
    ∷ (codes "trl", codes "trail")
    ∷ (codes "xing", codes "crossing")
    ∷ (codes "aly", codes "alley")
    ∷ (codes "fwy", codes "freeway")
    ∷ (codes "expy", codes "expressway")
    ∷ (codes "plz", codes "plaza")
    ∷ (codes "hts", codes "heights")
    ∷ (codes "pt", codes "point")
    ∷ (codes "ctr", codes "center")
    ∷ (codes "cv", codes "cove")
    ∷ (codes "gdns", codes "gardens")
    ∷ (codes "grv", codes "grove")
    ∷ (codes "gve", codes "grove")
    ∷ (codes "gr", codes "grove")
    ∷ (codes "jct", codes "junction")
    ∷ (codes "mnr", codes "manor")
    ∷ (codes "pk", codes "park")
    ∷ (codes "rdg", codes "ridge")
    ∷ (codes "rte", codes "route")
    ∷ (codes "vlg", codes "village")
    ∷ (codes "vw", codes "view")
    ∷ (codes "wy", codes "way")
    ∷ (codes "esp", codes "esplanade")
    ∷ (codes "cct", codes "circuit")
    ∷ (codes "crs", codes "crescent")
    ∷ (codes "qy", codes "quay")
    ∷ (codes "tpke", codes "turnpike")
    ∷ (codes "wk", codes "walk")
    ∷ (codes "wlk", codes "walk")
    ∷ (codes "cswy", codes "causeway")
    ∷ (codes "brg", codes "bridge")
    ∷ (codes "byp", codes "bypass")
    ∷ (codes "lp", codes "loop")
    ∷ (codes "pwy", codes "parkway")
    ∷ (codes "jr", codes "junior")
    ∷ (codes "sr", codes "senior")
    ∷ []

unfoldable pub canonicalise_token : Text → Text
unfolding text_eq
canonicalise_token token = elim (lookup_text street_type_abbreviations token) [
  | none ↦ token
  | some full ↦ full
]

abbrev pub directionals : List Text
directionals =
    codes "n"
    ∷ codes "s"
    ∷ codes "e"
    ∷ codes "w"
    ∷ codes "ne"
    ∷ codes "nw"
    ∷ codes "se"
    ∷ codes "sw"
    ∷ codes "north"
    ∷ codes "south"
    ∷ codes "east"
    ∷ codes "west"
    ∷ codes "northeast"
    ∷ codes "northwest"
    ∷ codes "southeast"
    ∷ codes "southwest"
    ∷ []

unfoldable pub is_directional : Text → Bool
unfolding text_eq
is_directional word = is_one_of_texts directionals word

-- `rposition`: the last index whose word passes.
unfoldable pub rposition : (Text → Bool) → List Text → Option ℕ
rposition test [] = none
rposition test (w ∷ ws) = elim (rposition test ws) [
  | some i ↦ some (suc i)
  | none ↦ if test w then some 0 else none
]

unfoldable pub street_st_position : List Text → Option ℕ
unfolding is_directional rposition to_lower
street_st_position words = do
  end ← rposition (λ w. not (is_directional (map to_lower w))) words
  if ltb 0 end then some end else none

-- A full word of the table of street types, but for the two that are suffixes of names.
abbrev pub is_full_word : List (Text × Text) → Text → Bool
is_full_word [] word = false
is_full_word ((abbr, full) ∷ rows) word =
    (text_eq full word && not (text_eq full (codes "junior") || text_eq full (codes "senior")))
    || is_full_word rows word

unfoldable pub is_street_type : Text → Bool
unfolding text_eq
is_street_type word =
    text_eq word (codes "street")
    || text_eq word (codes "way")
    || is_full_word street_type_abbreviations word

abbrev pub ordinal_words : List Text
ordinal_words =
    codes "first"
    ∷ codes "second"
    ∷ codes "third"
    ∷ codes "fourth"
    ∷ codes "fifth"
    ∷ codes "sixth"
    ∷ codes "seventh"
    ∷ codes "eighth"
    ∷ codes "ninth"
    ∷ codes "tenth"
    ∷ codes "eleventh"
    ∷ codes "twelfth"
    ∷ codes "thirteenth"
    ∷ codes "fourteenth"
    ∷ codes "fifteenth"
    ∷ codes "sixteenth"
    ∷ codes "seventeenth"
    ∷ codes "eighteenth"
    ∷ codes "nineteenth"
    ∷ codes "twentieth"
    ∷ []

-- The index of a word.
abbrev pub position : List Text → Text → Option ℕ
position [] word = none
position (w ∷ ws) word = elim (text_eq w word) [
  | true ↦ some 0
  | false ↦ position ws word >>= λ i. some (suc i)
]

-- `tens` of `canonicalise_compound_ordinals`.
unfoldable pub tens_of : Text → Option ℕ
unfolding text_eq
tens_of word =
    if text_eq word (codes "twenty")
    then some 20
    else if text_eq word (codes "thirty")
    then some 30
    else if text_eq word (codes "forty")
    then some 40
    else if text_eq word (codes "fifty")
    then some 50
    else if text_eq word (codes "sixty")
    then some 60
    else if text_eq word (codes "seventy")
    then some 70
    else if text_eq word (codes "eighty")
    then some 80
    else if text_eq word (codes "ninety")
    then some 90
    else none

-- The word for one to nine, which is among the first nine of the table.
unfoldable pub ones_of : Text → Option ℕ
unfolding text_eq
ones_of word = position ordinal_words word >>= λ ones. if ltb ones 9 then some ones else none

-- "twenty" and "first" become "21st"; the loop goes on behind the word that it wrote.
unfoldable pub canonicalise_compound_ordinals : List Text → List Text
unfolding tens_of ones_of to_lower
canonicalise_compound_ordinals [] = []
canonicalise_compound_ordinals (w ∷ []) = w ∷ []
canonicalise_compound_ordinals (w ∷ v ∷ words) = elim (tens_of (map to_lower w)) [
  | none ↦ w ∷ canonicalise_compound_ordinals (v ∷ words)
  | some tens ↦ elim (ones_of (map to_lower v)) [
    | none ↦ w ∷ canonicalise_compound_ordinals (v ∷ words)
    | some ones ↦ ordinal (tens + ones + 1) ∷ canonicalise_compound_ordinals words
  ]
]

abbrev pub ordinal_suffixes : List Text
ordinal_suffixes = codes "st" ∷ codes "nd" ∷ codes "rd" ∷ codes "th" ∷ []

-- The digits in front of the first suffix that fits, if there are digits alone.
unfoldable pub ordinal_digits : Text → Option Text
unfolding strip_any
ordinal_digits tok = strip_any ordinal_suffixes tok >>= λ digits.
    if not (is_empty digits) && all is_digit digits then some digits else none

abbrev pub before_street_type : List Text → Bool
before_street_type [] = false
before_street_type (next ∷ tokens) = is_street_type next

-- The number that a token stands for as an ordinal. `is_house` holds for a first token of a query.
unfoldable pub ordinal_of : Bool → Text → List Text → Option ℕ
unfolding text_eq ordinal_digits is_street_type parse_below
ordinal_of is_house tok tokens = elim (position ordinal_words tok) [
  | some pos ↦ some (pos + 1)
  | none ↦ elim (ordinal_digits tok) [
    | some digits ↦ parse_below (2 ^ 32) digits
    | none ↦
        if not is_house && all is_digit tok && before_street_type tokens
        then parse_below (2 ^ 32) tok
        else none
  ]
]

unfoldable pub canonicalise_ordinals : Bool → List Text → List Text
unfolding ordinal_of
canonicalise_ordinals is_house [] = []
canonicalise_ordinals is_house (tok ∷ tokens) =
    let rest = canonicalise_ordinals false tokens in
    elim (ordinal_of is_house tok tokens) [ none ↦ tok ∷ rest | some n ↦ ordinal n ∷ rest ]
