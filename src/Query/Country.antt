-- ===== src/Query/Country.antt =====
-- `country_suffix` of server/src/forward.rs: the country at the end of a query.
use geocoder.Prelude.{
  not, ◌&&◌, ◌||◌, List, [], ◌∷◌, map, reverse, Option, none, some, if◌then◌else◌, ◌==◌, Text,
  codes, text_eq, is_empty, is_whitespace, trim, trim_end, eq_ignore_case, ◌>>=◌,
}
use geocoder.Strings.Unicode.{CharTables}
use geocoder.Strings.Tables.{lookup_text}
use geocoder.Strings.Pieces.{trim_end_matches}
use geocoder.Query.Postcodes.{to_upper}

abbrev pub country_names : List (Text × Text)
country_names =
    (codes "australia", codes "AU")
    ∷ (codes "aus", codes "AU")
    ∷ (codes "au", codes "AU")
    ∷ (codes "new zealand", codes "NZ")
    ∷ (codes "nzl", codes "NZ")
    ∷ (codes "nz", codes "NZ")
    ∷ (codes "united states", codes "US")
    ∷ (codes "united states of america", codes "US")
    ∷ (codes "usa", codes "US")
    ∷ (codes "us", codes "US")
    ∷ (codes "canada", codes "CA")
    ∷ (codes "can", codes "CA")
    ∷ (codes "united kingdom", codes "GB")
    ∷ (codes "uk", codes "GB")
    ∷ (codes "great britain", codes "GB")
    ∷ (codes "gbr", codes "GB")
    ∷ (codes "gb", codes "GB")
    ∷ []

abbrev pub or_else {ℓ} : {A : Type ℓ} → Option A → Option A → Option A
or_else none b = b
or_else (some a) b = some a

-- `rsplit_once(',')`, on the reversed text and what was passed.
unfoldable pub rsplit_comma : Text → Text → Option (Text × Text)
rsplit_comma [] tail = none
rsplit_comma (c ∷ rev) tail =
    let more = rsplit_comma rev (c ∷ tail) in if c == b',' then some (reverse rev, tail) else more

-- `aliases` is the map of the names of an index.
module _ (tables : CharTables) (aliases : Text → Option Text) (explicit_code : Option Text) where
  unfoldable pub resolve : Text → Option Text
  unfolding trim text_eq eq_ignore_case to_upper
  resolve tail =
      let tail' = tables.str_to_lowercase (trim tail) in
      or_else (lookup_text country_names tail') (
        or_else (aliases tail') (
          explicit_code >>= λ cc'.
          if eq_ignore_case cc' tail' then some (map to_upper cc') else none))

  -- The loop over the spaces from the right.
  unfoldable pub suffix_at : Text → Text → Option (Text × Text)
  unfolding resolve trim_end_matches is_whitespace
  suffix_at [] tail = none
  suffix_at (c ∷ rev) tail =
      let more = suffix_at rev (c ∷ tail) in
      let body = trim_end_matches (λ d. is_whitespace d || (d == b',')) (reverse rev) in
      let here : Option (Text × Text) =
        if is_whitespace c && not (is_empty body)
        then (resolve (c ∷ tail) >>= λ code. some (body, code))
        else none in
      or_else here more

  unfoldable pub country_suffix : Text → Option (Text × Text)
  unfolding rsplit_comma suffix_at resolve trim_end
  country_suffix input =
      let behind_comma : Option (Text × Text) = rsplit_comma (reverse input) [] >>= λ (body, tail).
      resolve tail >>= λ code. some (trim_end body, code) in
      or_else behind_comma (suffix_at (reverse input) [])
