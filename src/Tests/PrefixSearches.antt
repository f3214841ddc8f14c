-- ===== src/Tests/PrefixSearches.antt =====
-- The searches of server/src/autocomplete.rs on a small map, with numbers for coordinates.
use geocoder.Prelude.{
  ℕ, ◌≡◌, ◌++◌, refl, [], ◌∷◌, some, codes, trim, trim_start, trim_end, is_whitespace, split,
  to_lower, text_eq,
}
use geocoder.Bytes.{until_nul}
use geocoder.Bytes.Utf8.{is_utf8, from_utf8}
use geocoder.Strings.Unicode.{ascii_tables}
use geocoder.Autocomplete.Abbreviations.{
  nonempty, words, map_last, map_word, push_words, fold_place_abbreviations,
}
use geocoder.Autocomplete.Ranking.{heap_push, heap_push_bounded, walk}
use geocoder.Autocomplete.Countries.{
  Code, lower, collect, collect_countries, contains_code, has_country, any_of,
  has_country-collect_countries,
}
use geocoder.Autocomplete.Hits.{
  AutocompleteEntry, Records, UnifiedAutocomplete, Autocomplete, ascii_fold_char, push_chars,
  push_text, normalise_prefix, name_at, entry_to_hit, bytes_le, insert_hit, sort_hits, hits_of,
  heap_into_sorted_hits, top_hits, unified_starts_with, country_starts_with, country_search, search,
}
use geocoder.Autocomplete.Hits.Sorted.{IsAnswer, search-IsAnswer}

abbrev entry : ℕ → ℕ → AutocompleteEntry ℕ
entry name rank = record {
  name_offset = name;
  suburb_offset = 0;
  lat = 0;
  lng = 0;
  rank = rank;
  kind = 1;
}

-- The pool: "" at 0, "b" at 1, "a" at 3, "c" at 5.
abbrev records : Records ℕ
records = record {
  entries = entry 1 4 ∷ entry 3 4 ∷ entry 5 2 ∷ entry 5 9 ∷ [];
  strings = 0 ∷ (codes "b" ++ 0 ∷ (codes "a" ++ 0 ∷ (codes "c" ++ 0 ∷ [])));
}

abbrev unified : UnifiedAutocomplete ℕ
unified = record {
  records = records;
  starting = λ cc' key. 3 ∷ 0 ∷ 1 ∷ 2 ∷ 7 ∷ [];
  equal = λ cc' key. [];
}

abbrev maps : Autocomplete ℕ
maps = record { unified = some unified; per_country = [] }

abbrev australia : Code
australia = (b'A', b'U')

program : Unit {0}
unfolding trim trim_start trim_end is_whitespace split to_lower text_eq until_nul is_utf8 from_utf8
    nonempty words map_last map_word push_words fold_place_abbreviations heap_push heap_push_bounded
    walk ascii_fold_char push_chars push_text normalise_prefix name_at entry_to_hit bytes_le
    insert_hit sort_hits hits_of heap_into_sorted_hits top_hits unified_starts_with
    country_starts_with country_search search collect collect_countries contains_code has_country
program = tt

folded : normalise_prefix ascii_tables (codes " Saint-Étienne!") ≡ codes "st etienne"
unfolding program
folded = refl

best_three :
    search ascii_tables maps australia (codes "syd") 3
    ≡ entry_to_hit (entry 5 2) records.strings
      ∷ entry_to_hit (entry 3 4) records.strings
      ∷ entry_to_hit (entry 1 4) records.strings
      ∷ []
unfolding program
best_three = refl

search-IsAnswer_example : IsAnswer 3 (search ascii_tables maps australia (codes "syd") 3)
search-IsAnswer_example = search-IsAnswer ascii_tables maps australia (codes "syd") 3

has_country-collect_countries_example :
    has_country
      (collect_countries (codes "ausydney" ∷ codes "auyass" ∷ codes "nzwellington" ∷ []))
      australia
    ≡ any_of (lower australia) (codes "ausydney" ∷ codes "auyass" ∷ codes "nzwellington" ∷ [])
has_country-collect_countries_example =
    has_country-collect_countries (codes "ausydney" ∷ codes "auyass" ∷ codes "nzwellington" ∷ [])
      australia
