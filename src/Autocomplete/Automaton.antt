-- ===== src/Autocomplete/Automaton.antt =====
-- `CountryPrefixAutomaton` of server/src/autocomplete.rs.
pub mod Language
pub mod Pruning
use geocoder.Prelude.{
  ℕ, zero, suc, Bool, true, false, not, List, [], ◌∷◌, Option, none, some, if◌then◌else◌, ◌==◌,
  length, get_elem?, to_lower,
}
use geocoder.Bytes.{Bytes}

pub record CountryPrefixAutomaton : Type 0 where
  pub cc0 : ℕ
  pub cc1 : ℕ
  pub tail : Bytes
  pub exact : Bool

-- `lower`: the two bytes of a country code in lower case.
unfoldable pub lower : ℕ × ℕ → ℕ × ℕ
unfolding to_lower
lower cc = (to_lower cc.0, to_lower cc.1)

-- `CountryPrefixAutomaton::starts_with` and `equals`.
unfoldable pub starts_with : ℕ × ℕ → Bytes → CountryPrefixAutomaton
unfolding lower
starts_with cc prefix =
    let (cc0, cc1) = lower cc in record { cc0 = cc0; cc1 = cc1; tail = prefix; exact = false }

unfoldable pub equals : ℕ × ℕ → Bytes → CountryPrefixAutomaton
unfolding lower
equals cc key =
    let (cc0, cc1) = lower cc in record { cc0 = cc0; cc1 = cc1; tail = key; exact = true }

pub data CpaState : Type 0 where
  need_cc0 : CpaState
  need_cc1 : CpaState
  matching_prefix : ℕ → CpaState
  past_prefix : CpaState
  dead : CpaState

module _ (self : CountryPrefixAutomaton) where
  open self use {cc0, cc1, tail, exact}

  abbrev pub start : CpaState
  start = need_cc0

  unfoldable pub is_match : CpaState → Bool
  is_match need_cc0 = false
  is_match need_cc1 = false
  is_match (matching_prefix i) = i == length tail
  is_match past_prefix = not exact
  is_match dead = false

  unfoldable pub can_match : CpaState → Bool
  can_match need_cc0 = true
  can_match need_cc1 = true
  can_match (matching_prefix i) = true
  can_match past_prefix = true
  can_match dead = false

  unfoldable pub will_always_match : CpaState → Bool
  will_always_match need_cc0 = false
  will_always_match need_cc1 = false
  will_always_match (matching_prefix i) = if exact then false else i == length tail
  will_always_match past_prefix = if exact then false else true
  will_always_match dead = false

  -- `tail[i]` is in range exactly when `i < tail.len()`, which the code tests first.
  unfoldable pub accept : CpaState → ℕ → CpaState
  accept need_cc0 byte = if byte == cc0 then need_cc1 else dead
  accept need_cc1 byte = if byte == cc1 then matching_prefix 0 else dead
  accept (matching_prefix i) byte = elim (get_elem? tail i) [
    | some expected ↦ if byte == expected then matching_prefix (suc i) else dead
    | none ↦ if exact then dead else past_prefix
  ]
  accept past_prefix byte = if exact then dead else past_prefix
  accept dead byte = dead

  -- The state behind a key, as the walk of the map computes it byte by byte.
  unfoldable pub run : CpaState → Bytes → CpaState
  unfolding accept
  run state [] = state
  run state (byte ∷ key) = run (accept state byte) key
