-- ===== src/Shadow/Compare.antt =====
-- The comparator of server/src/shadow.rs. The distance between two points is floating-point, so
-- `far` stands for its comparison with 1000 m, where there is a distance.
pub mod Symmetry
pub mod Axes
use geocoder.Prelude.{
  ℕ, Bool, true, false, not, ◌&&◌, ◌||◌, List, [], ◌∷◌, map, Option, none, some, if◌then◌else◌,
  ◌==◌, is_empty, is_whitespace, to_lower, text_eq, eq_ignore_case, Text,
}
use geocoder.Shadow.Worker.{Verdict, match_, mismatch, zero_results}

unfoldable pub compare_str_ci : Option Text → Option Text → Option Bool
unfolding eq_ignore_case
compare_str_ci none b = none
compare_str_ci (some x) none = none
compare_str_ci (some x) (some y) = some (eq_ignore_case x y)

-- `str::contains` of a text.
unfoldable pub begins : Text → Text → Bool
begins s [] = true
begins [] (d ∷ t) = false
begins (c ∷ s) (d ∷ t) = (c == d) && begins s t

unfoldable pub contains : Text → Text → Bool
unfolding begins
contains [] t = is_empty t
contains (c ∷ s) t = begins (c ∷ s) t || contains s t

-- The first character of each word, between runs of whitespace. `at_start` holds where a word
-- would begin.
unfoldable pub initials : Bool → Text → Text
unfolding is_whitespace
initials at_start [] = []
initials at_start (c ∷ s) =
    let next = initials true s in
    let more = initials false s in
    if is_whitespace c then next else if at_start then c ∷ more else more

unfoldable pub matches_initials : Text → Text → Bool
unfolding initials text_eq
matches_initials short long =
    if is_empty short
    then false
    else let firsts = initials true long in not (is_empty firsts) && text_eq short firsts

unfoldable pub compare_admin : Option Text → Option Text → Option Bool
unfolding contains matches_initials to_lower text_eq
compare_admin none b = none
compare_admin (some x) none = none
compare_admin (some x) (some y) =
    let xl = map to_lower x in
    let yl = map to_lower y in
    if text_eq xl yl || (contains xl yl || contains yl xl)
    then some true
    else if matches_initials xl yl || matches_initials yl xl
    then some true
    else some false

pub data Endpoint : Type 0 where
  reverse search : Endpoint

-- `OurSnapshot` and the part of `GoogleSnapshot` that is compared.
pub record Snapshot : Type 0 where
  pub country_code : Option Text
  pub state : Option Text
  pub city : Option Text
  pub road : Option Text

pub record Comparison : Type 0 where
  pub outcome : Verdict
  pub country_match : Option Bool
  pub state_match : Option Bool
  pub city_match : Option Bool
  pub road_match : Option Bool

abbrev pub is_some : Option Bool → Bool
is_some none = false
is_some (some b) = true

abbrev pub is_false : Option Bool → Bool
is_false none = false
is_false (some b) = not b

abbrev pub or_false : Option Bool → Bool
or_false none = false
or_false (some b) = b

-- The outcome of the four axes and the distance.
unfoldable pub outcome_of :
    Option Bool → Option Bool → Option Bool → Option Bool → Option Bool → Verdict
outcome_of country state city road far =
    let any_compared =
      (is_some country || (is_some state || (is_some city || is_some road))) || is_some far in
    let any_mismatch =
      (is_false country || (is_false state || (is_false city || is_false road))) || or_false far in
    if not any_compared then zero_results else if any_mismatch then mismatch else match_

unfoldable pub compare : Endpoint → Snapshot → Snapshot → Option Bool → Comparison
unfolding compare_str_ci compare_admin outcome_of
compare endpoint ours google far =
    let country_match = compare_str_ci ours.country_code google.country_code in
    let state_match = compare_admin ours.state google.state in
    let city_match = compare_admin ours.city google.city in
    let road_match : Option Bool = elim endpoint [
      | reverse ↦ compare_admin ours.road google.road
      | search ↦ none
    ] in
    let distance : Option Bool = elim endpoint [ reverse ↦ none | search ↦ far ] in
    record {
      outcome = outcome_of country_match state_match city_match road_match distance;
      country_match = country_match;
      state_match = state_match;
      city_match = city_match;
      road_match = road_match;
    }
