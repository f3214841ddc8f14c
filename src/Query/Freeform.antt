-- ===== src/Query/Freeform.antt =====
-- `parse_freeform_query_inner` of server/src/forward.rs: the parts of an address in the tokens of a
-- query. What the loop does with a token is an `Arm`: the first of its tests that holds decides.
pub mod Arms
pub mod Accounted
use geocoder.Prelude.{
  ℕ, zero, suc, ◌+◌, ◌-◌, Bool, true, false, not, ◌&&◌, ◌||◌, List, [], ◌∷◌, ◌++◌, map, Option,
  none, some, if◌then◌else◌, ltb, leb, ◌==◌, length, Text, codes, text_eq, is_empty, is_digit, all,
  to_lower, ◌>>=◌,
}
use geocoder.Strings.Tables.{is_one_of_texts}
use geocoder.Query.Words.{ordinal_suffixes}
use geocoder.Query.Postcodes.{first_is}
use geocoder.Query.States.{state_of}
use geocoder.OpenAddresses.{strip_suffix}

abbrev pub unit_words : List Text
unit_words =
    codes "apt"
    ∷ codes "apartment"
    ∷ codes "unit"
    ∷ codes "suite"
    ∷ codes "ste"
    ∷ codes "flat"
    ∷ codes "rm"
    ∷ codes "room"
    ∷ []

-- `ParsedQuery`, but for `rest`.
pub record Fields : Type 0 where
  pub house_number : Option Text
  pub unit : Option Text
  pub state : Option Text

-- What the loop reads: the number of tokens, the country, where the postcode begins, and the last
-- token before the first comma.
pub record Setting : Type 0 where
  pub count : ℕ
  pub country_code : Option Text
  pub postcode_start : Option ℕ
  pub first_component_end : Option ℕ

pub data Arm : Type 0 where
  postcode_tail skipped floor_marker house word : Arm
  unit_word : Text → Arm
  state_name : Text → Arm

abbrev pub is_missing : Option Text → Bool
is_missing none = true
is_missing (some s) = false

abbrev pub is_at : Option ℕ → ℕ → Bool
is_at none i = false
is_at (some k) i = k == i

-- `postcode.is_some_and(|(start, _)| i >= start)`.
abbrev pub in_postcode : Setting → ℕ → Bool
in_postcode env i = elim env.postcode_start [ none ↦ false | some start ↦ leb start i ]

-- `next.starts_with(digit) || next.len() == 1`, the length in bytes.
abbrev pub can_be_unit : Text → Bool
can_be_unit next =
    first_is is_digit next || elim next [ [] ↦ false | c ∷ s ↦ is_empty s && ltb c 128 ]

abbrev pub strips_to_digits : Text → Text → Bool
strips_to_digits suffix value = elim (strip_suffix suffix value) [
  | none ↦ false
  | some digits ↦ not (is_empty digits) && all is_digit digits
]

abbrev pub any_suffix : List Text → (Text → Bool) → Bool
any_suffix [] test = false
any_suffix (suffix ∷ more) test = test suffix || any_suffix more test

unfoldable pub floor_ordinal : Text → Bool
unfolding strip_suffix
floor_ordinal value = any_suffix ordinal_suffixes (λ suffix. strips_to_digits suffix value)

abbrev pub ends_with : Text → Text → Bool
ends_with suffix value = elim (strip_suffix suffix value) [ none ↦ false | some s ↦ true ]

abbrev pub next_is_floor : List Text → Bool
next_is_floor [] = false
next_is_floor (next ∷ tokens) = text_eq next (codes "floor")

abbrev pub floor_before : Option Text → Bool
floor_before none = false
floor_before (some prev) = floor_ordinal prev

abbrev pub arm_when : Bool → Arm → Option Arm
arm_when true arm = some arm
arm_when false arm = none

-- The last token before the postcode, or the last.
abbrev pub state_tail : Setting → ℕ → Bool
state_tail env i = elim env.postcode_start [
  | none ↦ i == env.count - 1
  | some start ↦ i == start - 1
]

abbrev pub first_arm : List (Option Arm) → Arm
first_arm [] = word
first_arm (none ∷ arms) = first_arm arms
first_arm (some arm ∷ arms) = arm

abbrev pub all_digits : Text → Bool
all_digits tok = not (is_empty tok) && all is_digit tok

module _ (env : Setting) (i : ℕ) (prev : Option Text) (tok : Text) (tokens : List Text)
    (skip : Bool) (f : Fields) where
  unfoldable pub unit_arm : Option Arm
  unfolding text_eq
  unit_arm = elim tokens [
    | [] ↦ none
    | next ∷ _ ↦
        arm_when (is_missing f.unit && is_one_of_texts unit_words tok && can_be_unit next)
          (unit_word next)
  ]

  unfoldable pub floor_arm : Option Arm
  unfolding floor_ordinal text_eq
  floor_arm =
      arm_when
        ((next_is_floor tokens && floor_ordinal tok)
          || (text_eq tok (codes "floor") && ltb 0 i && floor_before prev))
        floor_marker

  -- A first token that a digit begins, unless it is an ordinal before other tokens.
  unfoldable pub leading_arm : Option Arm
  unfolding floor_ordinal
  leading_arm =
      arm_when
        (is_missing f.house_number
          && (i == 0)
          && first_is is_digit tok
          && not (all_digits tok)
          && not (ltb 1 env.count && floor_ordinal tok))
        house

  unfoldable pub digits_arm : Option Arm
  digits_arm =
      arm_when
        (is_missing f.house_number
          && all_digits tok
          && ((i == 0) || ((i == env.count - 1) && (leb (length tok) 3 || (length tok == 5)))))
        house

  unfoldable pub component_arm : Option Arm
  unfolding strip_suffix
  component_arm =
      arm_when
        (is_missing f.house_number
          && is_at env.first_component_end i
          && first_is is_digit tok
          && not (any_suffix ordinal_suffixes (λ suffix. ends_with suffix tok)))
        house

  unfoldable pub state_arm : Option Arm
  unfolding state_of
  state_arm =
      if is_missing f.state && ltb 1 env.count
      then (state_of env.country_code (state_tail env i) tok >>= λ full. some (state_name full))
      else none

  -- What the tests come to, in the order of the loop.
  abbrev pub arms : List (Option Arm)
  arms =
      arm_when (in_postcode env i) postcode_tail
      ∷ arm_when skip skipped
      ∷ unit_arm
      ∷ floor_arm
      ∷ leading_arm
      ∷ digits_arm
      ∷ component_arm
      ∷ state_arm
      ∷ []

  unfoldable pub arm_of : Arm
  unfolding unit_arm floor_arm leading_arm digits_arm component_arm state_arm
  arm_of = first_arm arms

-- The fields behind a token.
unfoldable pub fill : Arm → Text → Fields → Fields
fill postcode_tail tok f = f
fill skipped tok f = f
fill floor_marker tok f = f
fill word tok f = f
fill house tok f = record { house_number = some tok; unit = f.unit; state = f.state }
fill (unit_word next) tok f = record {
  house_number = f.house_number;
  unit = some next;
  state = f.state;
}
fill (state_name full) tok f = record {
  house_number = f.house_number;
  unit = f.unit;
  state = some full;
}

-- `skip_next` behind a token; a token of the postcode is passed over before it is looked at.
unfoldable pub skip_next : Arm → Bool → Bool
skip_next postcode_tail skip = skip
skip_next skipped skip = false
skip_next floor_marker skip = false
skip_next word skip = false
skip_next house skip = false
skip_next (unit_word next) skip = true
skip_next (state_name full) skip = false

-- What is pushed to `rest`.
unfoldable pub keep : Arm → Text → List Text → List Text
keep postcode_tail tok rest = rest
keep skipped tok rest = rest
keep floor_marker tok rest = rest
keep word tok rest = tok ∷ rest
keep house tok rest = rest
keep (unit_word next) tok rest = rest
keep (state_name full) tok rest = rest

unfoldable pub read_query_tokens :
    Setting → ℕ → Option Text → List Text → Bool → Fields → Fields × List Text
unfolding arm_of fill skip_next keep
read_query_tokens env i prev [] skip f = (f, [])
read_query_tokens env i prev (tok ∷ tokens) skip f =
    let arm = arm_of env i prev tok tokens skip f in
    let (f', rest) =
      read_query_tokens env (suc i) (some tok) tokens (skip_next arm skip) (fill arm tok f) in
    (f', keep arm tok rest)
