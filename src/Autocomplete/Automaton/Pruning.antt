-- ===== src/Autocomplete/Automaton/Pruning.antt =====
-- What `CountryPrefixAutomaton` of server/src/autocomplete.rs says of the subtrees that a walk may
-- skip or take whole.
use geocoder.Prelude.{
  ℕ, zero, suc, ◌≡◌, ◌↔◌, refl, sym, ◌∙◌, subst, true, false, [], ◌∷◌, append-nil, inl, inr, arith,
  ◌==◌, ==_iff, length, drop, Bool-cases,
}
use geocoder.Bytes.{Bytes}
use geocoder.Autocomplete.Automaton.{
  CountryPrefixAutomaton, CpaState, need_cc0, need_cc1, matching_prefix, past_prefix, dead,
  is_match, can_match, will_always_match, accept, run,
}
use geocoder.Autocomplete.Automaton.Language.{
  spelled, spelled_of_eq, accepts, Occurring, is_match-run_from, accept-Occurring,
}

drop_all : (tail : Bytes) (i : ℕ) → i ≡ length tail → drop i tail ≡ []
drop_all [] zero e = refl
drop_all [] (suc i) e = refl
drop_all (c ∷ tail) zero e = absurd (omega (arith, e))
drop_all (c ∷ tail) (suc i) e = drop_all tail i (omega (arith, e))

module _ (self : CountryPrefixAutomaton) where
  open self use {cc0, cc1, tail, exact}

  run-dead : (key : Bytes) → run self dead key ≡ dead
  unfolding run accept
  run-dead [] = refl
  run-dead (b ∷ key) = run-dead key

  spelled_whole : (word : Bytes) → spelled exact word word ≡ true
  spelled_whole word =
      subst (λ t. spelled exact word t ≡ true) (append-nil word)
        (spelled_of_eq exact word [] (λ x. refl))

  completion :
      (state : CpaState)
      → Occurring self state
      → can_match self state ≡ true
      → (key : Bytes) × (accepts self state key ≡ true)
  unfolding can_match
  completion need_cc0 o h = (cc0 ∷ cc1 ∷ tail, spelled_whole (cc0 ∷ cc1 ∷ tail))
  completion need_cc1 o h = (cc1 ∷ tail, spelled_whole (cc1 ∷ tail))
  completion (matching_prefix i) o h = (drop i tail, spelled_whole (drop i tail))
  completion past_prefix o h = ([], rw o refl)
  completion dead o h = cc

  alive :
      (state : CpaState) (key : Bytes)
      → is_match self (run self state key) ≡ true
      → can_match self state ≡ true
  unfolding can_match is_match
  alive need_cc0 key h = refl
  alive need_cc1 key h = refl
  alive (matching_prefix i) key h = refl
  alive past_prefix key h = refl
  alive dead key h =
      let q : is_match self dead ≡ true = subst (λ st. is_match self st ≡ true) (run-dead key) h in
      cc

  spelled_open : (key : Bytes) → exact ≡ false → spelled exact [] key ≡ true
  unfolding spelled
  spelled_open [] x = refl
  spelled_open (b ∷ key) x = rw x refl

  always :
      (state : CpaState) (key : Bytes)
      → Occurring self state
      → will_always_match self state ≡ true
      → accepts self state key ≡ true
  unfolding will_always_match
  always need_cc0 key o h = cc
  always need_cc1 key o h = cc
  always (matching_prefix i) key o h = elim (Bool-cases exact) [
    | inl x ↦ let q : false ≡ true = rw x at h in cc
    | inr x ↦
        let q : (i == length tail) ≡ true = rw x at h in
        subst (λ w. spelled exact w key ≡ true)
          (sym (drop_all tail i ((==_iff i (length tail)).0 q))) (spelled_open key x)
  ]
  always past_prefix key o h = rw o refl
  always dead key o h = cc

  -- In every state that a walk reaches: `can_match` tells exactly whether some key leads on to a
  -- match, and in a state for which `will_always_match` holds every key does.
  pub can_match-run :
      (state : CpaState)
      → Occurring self state
      → ((can_match self state ≡ true)
          ↔ ((key : Bytes) × (is_match self (run self state key) ≡ true)))
        × (will_always_match self state ≡ true
            → (key : Bytes) → is_match self (run self state key) ≡ true)
  can_match-run state o = (
    (
      λ h. let (key, a) = completion state o h in (key, is_match-run_from self state key o ∙ a),
      λ w. alive state w.0 w.1,
    ),
    λ h key. is_match-run_from self state key o ∙ always state key o h,
  )

  pub run-Occurring :
      (state : CpaState) (key : Bytes) → Occurring self state → Occurring self (run self state key)
  unfolding run
  run-Occurring state [] o = o
  run-Occurring state (b ∷ key) o =
      run-Occurring (accept self state b) key (accept-Occurring self state b o)
