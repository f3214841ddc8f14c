-- ===== src/Admin/Config.antt =====
-- `AdminConfig` of server/src/admin_config.rs. A map is the list of its entries; areas are of the
-- type `A`.
use geocoder.Prelude.{
  ℕ, List, [], ◌∷◌, map, Option, none, some, if◌then◌else◌, ◌==◌, Text, text_eq, ◌>>=◌,
}
use geocoder.Strings.Decimal.{parse_unsigned}
use geocoder.Query.Postcodes.{to_upper}

pub data AdminField : Type 0 where
  country state county county_if_empty city city_if_empty postcode ignore : AdminField

pub record AdminEntry (A : Type 0) : Type 0 where
  pub field : AdminField
  pub max_area : Option A

abbrev pub LevelMap : Type 0 → Type 0
LevelMap A = List (ℕ × AdminEntry A)

pub record AdminConfig (A : Type 0) : Type 0 where
  pub defaults : LevelMap A
  pub by_country : List (Text × LevelMap A)

module _ {A : Type 0} where
  abbrev pub get_level : LevelMap A → ℕ → Option (AdminEntry A)
  get_level [] level = none
  get_level ((l, entry) ∷ levels) level = if l == level then some entry else get_level levels level

  abbrev pub get_country : List (Text × LevelMap A) → Text → Option (LevelMap A)
  get_country [] cc' = none
  get_country ((k, levels) ∷ countries) cc' =
      if text_eq k cc' then some levels else get_country countries cc'

  -- `filter(|e| e.field != AdminField::Ignore)`.
  abbrev pub unless_ignored : Option (AdminEntry A) → Option (AdminEntry A)
  unless_ignored none = none
  unless_ignored (some entry) = elim entry.field [ ignore ↦ none | _ ↦ some entry ]

  unfoldable pub lookup : AdminConfig A → Option Text → ℕ → Option (AdminEntry A)
  unfolding text_eq to_upper
  lookup config country_code level =
      let overridden : Option (AdminEntry A) = country_code >>= λ cc'.
      get_country config.by_country (map to_upper cc') >>= λ levels. get_level levels level in
      elim overridden [
        | some entry ↦ unless_ignored (some entry)
        | none ↦ unless_ignored (get_level config.defaults level)
      ]

  -- `to_level_map`: the keys that are numbers of a byte.
  unfoldable pub to_level_map : List (Text × AdminEntry A) → LevelMap A
  unfolding parse_unsigned
  to_level_map [] = []
  to_level_map ((k, entry) ∷ section) =
      let rest = to_level_map section in
      elim (parse_unsigned 256 k) [ none ↦ rest | some level ↦ (level, entry) ∷ rest ]
