-- ===== src/Display.antt =====
-- `format_rules`, `format_address` and `country_to_state_abbreviation` of server/src/lib.rs. A `str`
-- is the list of its bytes, and `out`, the buffer that the code appends to, is passed on.
pub mod Parts
pub mod Sections
use geocoder.Prelude.{
  ℕ, ◌+◌, Bool, true, false, ◌&&◌, ◌||◌, List, [], ◌∷◌, ◌++◌, Option, none, some, if◌then◌else◌,
  ltb, ◌==◌, length, take, codes, text_eq, is_empty, ◌>>=◌,
}
use geocoder.Bytes.{Bytes}

-- The fields that the display name is made of.
pub record AddressDetails : Type 0 where
  pub house_number : Option Bytes
  pub road : Option Bytes
  pub city : Option Bytes
  pub state : Option Bytes
  pub postcode : Option Bytes
  pub country : Option Bytes
  pub country_code : Option Bytes

abbrev pub is_one_of : List Bytes → Bytes → Bool
is_one_of [] s = false
is_one_of (t ∷ ts) s = text_eq s t || is_one_of ts s

abbrev pub number_first_countries : List Bytes
number_first_countries =
    codes "US"
    ∷ codes "CA"
    ∷ codes "AU"
    ∷ codes "NZ"
    ∷ codes "GB"
    ∷ codes "IE"
    ∷ codes "ZA"
    ∷ codes "IN"
    ∷ codes "NG"
    ∷ codes "KE"
    ∷ codes "GH"
    ∷ codes "PK"
    ∷ codes "PH"
    ∷ codes "TH"
    ∷ codes "MY"
    ∷ []

abbrev pub postcode_first_countries : List Bytes
postcode_first_countries = codes "JP" ∷ codes "KR" ∷ codes "CN" ∷ codes "TW" ∷ []

-- Whether the number stands behind the road, whether the postcode stands before the city, and
-- whether the state is shown.
unfoldable pub format_rules : Option Bytes → Bool × Bool × Bool
format_rules none = (true, true, false)
format_rules (some code) =
    if is_one_of number_first_countries code
    then (false, false, true)
    else if is_one_of postcode_first_countries code
    then (false, true, true)
    else (true, true, false)

-- `append_comma`.
unfoldable pub append_comma : Bytes → Bytes
append_comma s = if is_empty s then s else s ++ codes ", "

-- `String::ends_with(' ')` with `String::pop`: the last byte of a `str` is 32 exactly when its last
-- character is the space.
unfoldable pub pop_trailing_space : Bytes → Bytes
pop_trailing_space [] = []
pop_trailing_space (c ∷ []) = if c == 32 then [] else c ∷ []
pop_trailing_space (c ∷ d ∷ s) = c ∷ pop_trailing_space (d ∷ s)

unfoldable pub push_road : Bool → AddressDetails → Bytes → Bytes
push_road number_after addr out = elim addr.road [
  | none ↦ out
  | some road ↦ elim addr.house_number [
    | none ↦ out ++ road
    | some hn ↦
        if number_after then out ++ road ++ codes " " ++ hn else out ++ hn ++ codes " " ++ road
  ]
]

abbrev pub push_option : Option Bytes → Bytes → Bytes
push_option none out = out
push_option (some s) out = out ++ s

-- `", "` or `" "` before a field, if the city section, which starts at `start`, has something.
abbrev pub push_after : Bytes → ℕ → Option Bytes → Bytes → Bytes
push_after separator start none out = out
push_after separator start (some s) out =
    (if ltb start (length out) then out ++ separator else out) ++ s

unfoldable pub push_state : Bool → ℕ → AddressDetails → Bytes → Bytes
push_state include_state start addr out =
    if include_state then push_after (codes ", ") start addr.state out else out

-- The city section behind the position `start`, its body's start.
unfoldable pub push_city_section : Bool → Bool → ℕ → AddressDetails → Bytes → Bytes
unfolding push_state
push_city_section postcode_before_city include_state start addr out =
    if postcode_before_city
    then push_state include_state start addr (
        push_option addr.city
          (elim addr.postcode [ none ↦ out | some pc ↦ out ++ pc ++ codes " " ]))
    else push_after (codes " ") start addr.postcode
        (push_state include_state start addr (push_option addr.city out))

-- An empty city section is rolled back with its comma; a space at the end is taken off.
unfoldable pub close_city_section : ℕ → ℕ → Bytes → Bytes
unfolding pop_trailing_space
close_city_section section_start body_start out =
    if length out == body_start then take section_start out else pop_trailing_space out

unfoldable pub push_country : AddressDetails → Bytes → Bytes
unfolding append_comma
push_country addr out = elim addr.country [
  | none ↦ out
  | some country ↦ append_comma out ++ country
]

abbrev pub is_none : Option Bytes → Bool
is_none none = true
is_none (some s) = false

unfoldable pub format_address : AddressDetails → Option Bytes
unfolding format_rules push_road append_comma push_city_section close_city_section push_country
format_address addr =
    if is_none addr.road && is_none addr.city && is_none addr.country
    then none
    else let (number_after, postcode_before_city, include_state) = format_rules addr.country_code in
      let street = push_road number_after addr [] in
      let section_start = length street in
      let opened = append_comma street in
      let body_start = length opened in
      let filled = push_city_section postcode_before_city include_state body_start addr opened in
      let closed = close_city_section section_start body_start filled in
      let out = push_country addr closed in if is_empty out then none else some out

-- The abbreviation of a state that the postcode lookup knows.
abbrev pub australian_states : List (Bytes × Bytes)
australian_states =
    (codes "New South Wales", codes "NSW")
    ∷ (codes "Victoria", codes "VIC")
    ∷ (codes "Queensland", codes "QLD")
    ∷ (codes "Western Australia", codes "WA")
    ∷ (codes "South Australia", codes "SA")
    ∷ (codes "Tasmania", codes "TAS")
    ∷ (codes "Northern Territory", codes "NT")
    ∷ (codes "Australian Capital Territory", codes "ACT")
    ∷ []

abbrev pub abbreviation_in : List (Bytes × Bytes) → Bytes → Option Bytes
abbreviation_in [] name = none
abbreviation_in ((state, abbreviation) ∷ states) name =
    if text_eq name state then some abbreviation else abbreviation_in states name

unfoldable pub country_to_state_abbreviation : Bytes → Option Bytes → Option Bytes
unfolding text_eq
country_to_state_abbreviation country_code state_name =
    if text_eq country_code (codes "AU")
    then (state_name >>= abbreviation_in australian_states)
    else none
