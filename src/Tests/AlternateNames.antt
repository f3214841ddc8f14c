-- ===== src/Tests/AlternateNames.antt =====
-- server/src/i18n.rs on a small file.
use geocoder.Prelude.{◌≡◌, refl, ℕ, List, [], ◌∷◌, map}
use geocoder.I18n.{I18nRecord, skip_while, take_while, alternate, alternates_for}
use geocoder.I18n.Entities.{of_entity, alternates_for_lem}

abbrev alias : ℕ → ℕ → ℕ → ℕ → I18nRecord
alias type id lang name = record {
  entity_type = type;
  alias_type = 0;
  lang_code = lang;
  entity_id = id;
  name_id = name;
}

abbrev names : List I18nRecord
names = alias 0 5 100 1 ∷ alias 0 7 100 2 ∷ alias 0 7 101 3 ∷ alias 1 2 100 4 ∷ []

two_names : alternates_for names (0, 7) ≡ (0, 100, 2) ∷ (0, 101, 3) ∷ []
unfolding skip_while take_while alternates_for
two_names = refl

alternates_for_lem_example : alternates_for names (0, 7) ≡ map alternate (of_entity (0, 7) names)
alternates_for_lem_example =
    alternates_for_lem names (0, 7)
      ((refl, (refl, (refl, tt))), ((refl, (refl, tt)), ((refl, tt), (tt, tt))))
