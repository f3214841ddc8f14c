-- ===== src/Autocomplete/Hits.antt =====
-- The prefix searches of server/src/autocomplete.rs over maps whose walks are a parameter: the ids
-- that the fst crate yields for a key. A text is the list
-- of its characters where it is typed and of its bytes in the files. `F` is the type of a coordinate.
pub mod Sorted
use geocoder.Prelude.{
  ℕ, Bool, true, false, not, ◌&&◌, ◌||◌, List, [], ◌∷◌, ◌++◌, Option, none, some, if◌then◌else◌,
  ltb, ◌==◌, is_empty, length, get_elem?, take, drop, to_lower, Text, codes, trim,
}
use geocoder.Bytes.{Bytes, until_nul}
use geocoder.Bytes.Utf8.{from_utf8}
use geocoder.GeoIndex.{or_empty}
use geocoder.Strings.Unicode.{CharTables, as_bytes}
use geocoder.Postcode.Normalise.{one_of}
use geocoder.Autocomplete.Abbreviations.{fold_place_abbreviations}
use geocoder.Autocomplete.Ranking.{Item, fst_walk_cap, walk}
use geocoder.Autocomplete.Countries.{Code, code_eq, lower}

pub record AutocompleteEntry (F : Type 0) : Type 0 where
  pub name_offset : ℕ
  pub suburb_offset : ℕ
  pub lat : F
  pub lng : F
  pub rank : ℕ
  pub kind : ℕ

pub record Hit (F : Type 0) : Type 0 where
  pub name : Bytes
  pub suburb : Option Bytes
  pub kind : ℕ
  pub rank : ℕ
  pub lat : F
  pub lng : F

-- The records and the string pool of a map.
pub record Records (F : Type 0) : Type 0 where
  pub entries : List (AutocompleteEntry F)
  pub strings : Bytes

-- `read_cstr`, which is empty beyond the end and on bytes that are not UTF-8.
unfoldable pub name_at : Bytes → ℕ → Bytes
unfolding until_nul from_utf8
name_at pool offset = or_empty (from_utf8 (until_nul (drop offset pool)))

unfoldable pub entry_to_hit : {F : Type 0} → AutocompleteEntry F → Bytes → Hit F
unfolding name_at
entry_to_hit entry strings = record {
  name = name_at strings entry.name_offset;
  suburb =
      if is_empty (name_at strings entry.suburb_offset)
      then none
      else some (name_at strings entry.suburb_offset);
  kind = entry.kind;
  rank = entry.rank;
  lat = entry.lat;
  lng = entry.lng;
}

-- The order of `str`, that of the bytes.
unfoldable pub bytes_le : Bytes → Bytes → Bool
bytes_le [] t = true
bytes_le (c ∷ s) [] = false
bytes_le (c ∷ s) (d ∷ t) = ltb c d || ((c == d) && bytes_le s t)

abbrev pub hit_le : {F : Type 0} → Hit F → Hit F → Bool
hit_le a b = ltb a.rank b.rank || ((a.rank == b.rank) && bytes_le a.name b.name)

-- `sort_by` with the order of ranks and then of names.
unfoldable pub insert_hit : {F : Type 0} → Hit F → List (Hit F) → List (Hit F)
unfolding bytes_le
insert_hit h [] = h ∷ []
insert_hit h (k ∷ hits) =
    let rest = insert_hit h hits in if hit_le h k then h ∷ k ∷ hits else k ∷ rest

unfoldable pub sort_hits : {F : Type 0} → List (Hit F) → List (Hit F)
unfolding insert_hit
sort_hits [] = []
sort_hits (h ∷ hits) = insert_hit h (sort_hits hits)

unfoldable pub hits_of : {F : Type 0} → Records F → List Item → List (Hit F)
unfolding entry_to_hit
hits_of records [] = []
hits_of records ((rank, id) ∷ heap) =
    let rest = hits_of records heap in
    elim (get_elem? records.entries id) [
      | none ↦ rest
      | some e ↦ entry_to_hit e records.strings ∷ rest
    ]

unfoldable pub heap_into_sorted_hits : {F : Type 0} → Records F → List Item → List (Hit F)
unfolding sort_hits hits_of
heap_into_sorted_hits records heap = sort_hits (hits_of records heap)

abbrev pub rank_at : {F : Type 0} → Records F → ℕ → Option ℕ
rank_at records id = elim (get_elem? records.entries id) [ none ↦ none | some e ↦ some e.rank ]

-- What `starts_with` of both kinds of map does with the ids of its walk.
unfoldable pub top_hits : {F : Type 0} → Records F → List ℕ → ℕ → List (Hit F)
unfolding walk heap_into_sorted_hits
top_hits records ids limit =
    heap_into_sorted_hits records (walk (rank_at records) limit fst_walk_cap ids [])

-- `starting` are the ids of the walk along the prefix of a country, `equal` of the walk along a key.
pub record UnifiedAutocomplete (F : Type 0) : Type 0 where
  pub records : Records F
  pub starting : Code → Text → List ℕ
  pub equal : Code → Text → List ℕ

pub record AutocompleteCountry (F : Type 0) : Type 0 where
  pub records : Records F
  pub starting : Text → List ℕ
  pub get : Text → Option ℕ

pub record Autocomplete (F : Type 0) : Type 0 where
  pub unified : Option (UnifiedAutocomplete F)
  pub per_country : List (Code × AutocompleteCountry F)

abbrev pub fst_min_prefix_len : ℕ
fst_min_prefix_len = 2

-- Letters with an accent, of either case, become lower case letters.
unfoldable pub ascii_fold_char : ℕ → Text
ascii_fold_char c =
    if one_of c (codes "áàâäãåÁÀÂÄÃÅ")
    then codes "a"
    else if one_of c (codes "éèêëÉÈÊË")
    then codes "e"
    else if one_of c (codes "íìîïÍÌÎÏ")
    then codes "i"
    else if one_of c (codes "óòôöõøÓÒÔÖÕØ")
    then codes "o"
    else if one_of c (codes "úùûüÚÙÛÜ")
    then codes "u"
    else if one_of c (codes "ñÑ")
    then codes "n"
    else if one_of c (codes "çÇ")
    then codes "c"
    else if one_of c (codes "ß")
    then codes "ss"
    else c ∷ []

module _ (tables : CharTables) where
  abbrev ends_in_space : Text → Bool
  ends_in_space [] = false
  ends_in_space (c ∷ []) = c == b' '
  ends_in_space (c ∷ d ∷ s) = ends_in_space (d ∷ s)

  -- The characters that one character folds to.
  unfoldable pub push_chars : Text → Text → Text
  push_chars [] out = out
  push_chars (c ∷ chars) out = push_chars chars (
      if tables.is_alphanumeric c
      then out ++ tables.to_lowercase c
      else if not (ends_in_space out) && not (is_empty out)
      then out ++ b' ' ∷ []
      else out)

  unfoldable pub push_text : Text → Text → Text
  unfolding ascii_fold_char push_chars
  push_text [] out = out
  push_text (c ∷ q) out = push_text q (push_chars (ascii_fold_char c) out)

  unfoldable pub normalise_prefix : Text → Text
  unfolding push_text fold_place_abbreviations trim
  normalise_prefix q = fold_place_abbreviations (trim (push_text q []))

  module _ {F : Type 0} where
    -- `starts_with` and `get_exact` of the unified map.
    unfoldable pub unified_starts_with : UnifiedAutocomplete F → Code → Text → ℕ → List (Hit F)
    unfolding normalise_prefix top_hits
    unified_starts_with self country_code q limit =
        let key = normalise_prefix q in
        if limit == 0
        then []
        else if is_empty key
        then []
        else top_hits self.records (self.starting country_code key) limit

    abbrev first_hit : Records F → List ℕ → Option (Hit F)
    first_hit records [] = none
    first_hit records (id ∷ ids) = elim (get_elem? records.entries id) [
      | none ↦ none
      | some e ↦ some (entry_to_hit e records.strings)
    ]

    unfoldable pub unified_get_exact : UnifiedAutocomplete F → Code → Text → Option (Hit F)
    unfolding normalise_prefix entry_to_hit as_bytes
    unified_get_exact self country_code q =
        let key = normalise_prefix q in
        if ltb (length (as_bytes key)) fst_min_prefix_len
        then none
        else first_hit self.records (self.equal country_code key)

    -- `starts_with` and `get_exact` of the map of one country, whose prefix is normalised already.
    unfoldable pub country_starts_with : AutocompleteCountry F → Text → ℕ → List (Hit F)
    unfolding top_hits
    country_starts_with self q limit =
        if limit == 0
        then []
        else if is_empty q
        then []
        else top_hits self.records (self.starting q) limit

    unfoldable pub country_get_exact : AutocompleteCountry F → Text → Option (Hit F)
    unfolding normalise_prefix entry_to_hit as_bytes
    country_get_exact self q =
        let key = normalise_prefix q in
        if ltb (length (as_bytes key)) fst_min_prefix_len
        then none
        else elim (self.get key) [ none ↦ none | some id ↦ first_hit self.records (id ∷ []) ]

    abbrev pub country_of :
        List (Code × AutocompleteCountry F) → Code → Option (AutocompleteCountry F)
    country_of [] cc' = none
    country_of ((k, country) ∷ countries) cc' =
        if code_eq k cc' then some country else country_of countries cc'

    -- Behind the unified map, the map of the country.
    unfoldable pub country_search : Autocomplete F → Code → Text → ℕ → List (Hit F)
    unfolding to_lower normalise_prefix country_starts_with
    country_search self country_code q limit =
        elim (country_of self.per_country (lower country_code)) [
          | none ↦ []
          | some country ↦ country_starts_with country (normalise_prefix q) limit
        ]

    unfoldable pub search : Autocomplete F → Code → Text → ℕ → List (Hit F)
    unfolding unified_starts_with country_search
    search self country_code q limit = elim self.unified [
      | none ↦ country_search self country_code q limit
      | some u ↦
          let hits = unified_starts_with u country_code q limit in
          let others = country_search self country_code q limit in
          if is_empty hits then others else hits
    ]

    abbrev country_exact : Autocomplete F → Code → Text → Option (Hit F)
    country_exact self country_code q = elim (country_of self.per_country (lower country_code)) [
      | none ↦ none
      | some country ↦ country_get_exact country q
    ]

    unfoldable pub exact_match : Autocomplete F → Code → Text → Option (Hit F)
    unfolding to_lower unified_get_exact country_get_exact
    exact_match self country_code q = elim self.unified [
      | none ↦ country_exact self country_code q
      | some u ↦ elim (unified_get_exact u country_code q) [
        | some hit ↦ some hit
        | none ↦ country_exact self country_code q
      ]
    ]

    abbrev pub all_hits : List (Code × AutocompleteCountry F) → Text → ℕ → List (Hit F)
    all_hits [] q limit = []
    all_hits ((k, country) ∷ countries) q limit =
        country_starts_with country q limit ++ all_hits countries q limit

    unfoldable pub search_any : Autocomplete F → Text → ℕ → List (Hit F)
    unfolding normalise_prefix country_starts_with sort_hits
    search_any self q limit =
        take limit (sort_hits (all_hits self.per_country (normalise_prefix q) limit))
