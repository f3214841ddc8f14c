-- ===== src/I18n.antt =====
-- The records of alternate names of server/src/i18n.rs.
pub mod Entities
use geocoder.Prelude.{
  ℕ, Bool, true, false, ◌&&◌, ◌||◌, List, [], ◌∷◌, map, if◌then◌else◌, ltb, ◌==◌,
}

pub record I18nRecord : Type 0 where
  pub entity_type : ℕ
  pub alias_type : ℕ
  pub lang_code : ℕ
  pub entity_id : ℕ
  pub name_id : ℕ

-- `<` on pairs.
abbrev pub before : ℕ × ℕ → ℕ × ℕ → Bool
before (a, b) (c, d) = ltb a c || ((a == c) && ltb b d)

abbrev pub entity : I18nRecord → ℕ × ℕ
entity rec = (rec.entity_type, rec.entity_id)

abbrev pub is_entity : ℕ × ℕ → I18nRecord → Bool
is_entity (entity_type, entity_id) rec =
    (rec.entity_type == entity_type) && (rec.entity_id == entity_id)

-- `&records[records.partition_point(test)..]`: the records behind those that pass the test, which
-- stand first in a file in order.
unfoldable pub skip_while : (I18nRecord → Bool) → List I18nRecord → List I18nRecord
skip_while test [] = []
skip_while test (rec ∷ records) =
    let rest = skip_while test records in if test rec then rest else rec ∷ records

unfoldable pub take_while : (I18nRecord → Bool) → List I18nRecord → List I18nRecord
take_while test [] = []
take_while test (rec ∷ records) =
    let rest = take_while test records in if test rec then rec ∷ rest else []

abbrev pub alternate : I18nRecord → ℕ × ℕ × ℕ
alternate rec = (rec.alias_type, rec.lang_code, rec.name_id)

unfoldable pub alternates_for : List I18nRecord → ℕ × ℕ → List (ℕ × ℕ × ℕ)
unfolding skip_while take_while
alternates_for records key =
    map alternate (take_while (is_entity key) (skip_while (λ rec. before (entity rec) key) records))
