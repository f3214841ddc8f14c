-- ===== src/Autocomplete/Automaton/Language.antt =====
-- The keys that `CountryPrefixAutomaton` of server/src/autocomplete.rs matches.
use geocoder.Prelude.{
  ℕ, zero, suc, ◌≤◌, ◌≡◌, ◌↔◌, refl, ap, sym, ◌∙◌, subst, Bool, true, false, not, ◌&&◌, [], ◌∷◌,
  ◌++◌, none, some, inl, inr, arith, if◌then◌else◌, ◌==◌, ==_refl, ne→==, length, get_elem?, drop,
  lt_of_get_elem?, Bool-cases, Option-cases,
}
use geocoder.Bytes.{Bytes}
use geocoder.Autocomplete.Automaton.{
  CountryPrefixAutomaton, CpaState, need_cc0, need_cc1, matching_prefix, past_prefix, dead, start,
  is_match, accept, run,
}

-- Whether a key is the word, or the word and more unless it has to be exact.
unfoldable pub spelled : Bool → Bytes → Bytes → Bool
spelled exact [] [] = true
spelled exact [] (b ∷ key) = not exact
spelled exact (c ∷ word) [] = false
spelled exact (c ∷ word) (b ∷ key) = (b == c) && spelled exact word key

drop-cons :
    (tail : Bytes) (i : ℕ) {b : ℕ} → get_elem? tail i ≡ some b → drop i tail ≡ b ∷ drop (suc i) tail
drop-cons [] i e = cc
drop-cons (c ∷ tail) zero {b} e = let q : c ≡ b = cc in ap (λ d. d ∷ tail) q
drop-cons (c ∷ tail) (suc i) e = drop-cons tail i e

pub drop-nil :
    (tail : Bytes) (i : ℕ)
    → i ≤ length tail
    → get_elem? tail i ≡ none
    → (i ≡ length tail) × (drop i tail ≡ [])
drop-nil [] zero o e = (refl, refl)
drop-nil [] (suc i) o e = absurd (omega (arith, o))
drop-nil (c ∷ tail) zero o e = cc
drop-nil (c ∷ tail) (suc i) o e = let (p, q) = drop-nil tail i (omega (arith, o)) e in (ap suc p, q)

module _ (self : CountryPrefixAutomaton) where
  open self use {cc0, cc1, tail, exact}

  -- Whether the rest of a key leads from a state to a match.
  abbrev pub accepts : CpaState → Bytes → Bool
  accepts need_cc0 key = spelled exact (cc0 ∷ cc1 ∷ tail) key
  accepts need_cc1 key = spelled exact (cc1 ∷ tail) key
  accepts (matching_prefix i) key = spelled exact (drop i tail) key
  accepts past_prefix key = not exact
  accepts dead key = false

  -- The states that occur: no more than the tail is matched.
  abbrev pub Occurring : CpaState → Type 0
  Occurring (matching_prefix i) = i ≤ length tail
  Occurring past_prefix = exact ≡ false
  Occurring _ = Unit

  accepts-nil : (state : CpaState) → Occurring state → is_match self state ≡ accepts state []
  unfolding is_match spelled
  accepts-nil need_cc0 o = refl
  accepts-nil need_cc1 o = refl
  accepts-nil (matching_prefix i) o = elim (Option-cases (get_elem? tail i)) [
    | inl e ↦ let (p, q) = drop-nil tail i o e in rw (q, p) (==_refl (length tail))
    | inr (b, e) ↦
        rw (drop-cons tail i e)
          (ne→== i (length tail) (λ p. let lt = lt_of_get_elem? tail i e in omega arith))
  ]
  accepts-nil past_prefix o = refl
  accepts-nil dead o = refl

  accept_next :
      (i byte : ℕ) {b : ℕ}
      → get_elem? tail i ≡ some b
      → accept self (matching_prefix i) byte ≡ (if byte == b then matching_prefix (suc i) else dead)
  unfolding accept
  accept_next i byte e = rw (accept, e) refl

  accept_end :
      (i byte : ℕ)
      → get_elem? tail i ≡ none
      → accept self (matching_prefix i) byte ≡ (if exact then dead else past_prefix)
  unfolding accept
  accept_end i byte e = rw (accept, e) refl

  accepts-cons :
      (state : CpaState) (byte : ℕ) (key : Bytes)
      → Occurring state
      → accepts state (byte ∷ key) ≡ accepts (accept self state byte) key
  unfolding accept spelled
  accepts-cons need_cc0 byte key o = elim (Bool-cases (byte == cc0)) [
    | inl e ↦ rw e refl
    | inr e ↦ rw e refl
  ]
  accepts-cons need_cc1 byte key o = elim (Bool-cases (byte == cc1)) [
    | inl e ↦ rw e refl
    | inr e ↦ rw e refl
  ]
  accepts-cons (matching_prefix i) byte key o = elim (Option-cases (get_elem? tail i)) [
    | inl e ↦
        let (p, q) = drop-nil tail i o e in
        elim (Bool-cases exact) [
          | inl x ↦ rw (accept_end i byte e, q, x) refl
          | inr x ↦ rw (accept_end i byte e, q, x) refl
        ]
    | inr (b, e) ↦ elim (Bool-cases (byte == b)) [
      | inl x ↦ rw (accept_next i byte e, drop-cons tail i e, x) refl
      | inr x ↦ rw (accept_next i byte e, drop-cons tail i e, x) refl
    ]
  ]
  accepts-cons past_prefix byte key o = rw o refl
  accepts-cons dead byte key o = refl

  pub accept-Occurring :
      (state : CpaState) (byte : ℕ) → Occurring state → Occurring (accept self state byte)
  unfolding accept
  accept-Occurring need_cc0 byte o = elim (Bool-cases (byte == cc0)) [
    | inl e ↦ rw e tt
    | inr e ↦ rw e tt
  ]
  accept-Occurring need_cc1 byte o = elim (Bool-cases (byte == cc1)) [
    | inl e ↦ rw e (omega arith)
    | inr e ↦ rw e tt
  ]
  accept-Occurring (matching_prefix i) byte o = elim (Option-cases (get_elem? tail i)) [
    | inl e ↦ elim (Bool-cases exact) [
      | inl x ↦ rw (accept_end i byte e, x) tt
      | inr x ↦
          let q : accept self (matching_prefix i) byte ≡ past_prefix =
            accept_end i byte e ∙ rw x refl in
          subst Occurring (sym q) x
    ]
    | inr (b, e) ↦ elim (Bool-cases (byte == b)) [
      | inl x ↦ rw (accept_next i byte e, x) (omega (arith, lt_of_get_elem? tail i e))
      | inr x ↦ rw (accept_next i byte e, x) tt
    ]
  ]
  accept-Occurring past_prefix byte o =
      let q : accept self past_prefix byte ≡ past_prefix = rw o refl in subst Occurring (sym q) o
  accept-Occurring dead byte o = tt

  pub is_match-run_from :
      (state : CpaState) (key : Bytes)
      → Occurring state
      → is_match self (run self state key) ≡ accepts state key
  unfolding run
  is_match-run_from state [] o = accepts-nil state o
  is_match-run_from state (b ∷ key) o =
      is_match-run_from (accept self state b) key (accept-Occurring state b o)
      ∙ sym (accepts-cons state b key o)

pub spelled-eq :
    (exact : Bool) (word key : Bytes)
    → spelled exact word key ≡ true
    → (rest : Bytes) × (key ≡ word ++ rest) × (exact ≡ true → rest ≡ [])
unfolding spelled
spelled-eq exact [] [] h = ([], refl, λ x. refl)
spelled-eq exact [] (b ∷ key) h = (b ∷ key, refl, λ x. let q : not true ≡ true = rw x at h in cc)
spelled-eq exact (c ∷ word) [] h = cc
spelled-eq exact (c ∷ word) (b ∷ key) h =
    let same : b ≡ c = ground arith in
    let more : spelled exact word key ≡ true = ground arith in
    let (rest, q, x) = spelled-eq exact word key more in (rest, rw (same, q) refl, x)

pub spelled_of_eq :
    (exact : Bool) (word rest : Bytes)
    → (exact ≡ true → rest ≡ [])
    → spelled exact word (word ++ rest) ≡ true
unfolding spelled
spelled_of_eq exact [] [] x = refl
spelled_of_eq exact [] (b ∷ rest) x = elim (Bool-cases exact) [
  | inl e ↦ let q = x e in cc
  | inr e ↦ rw e refl
]
spelled_of_eq exact (c ∷ word) rest x = rw (==_refl c) (spelled_of_eq exact word rest x)

module _ (self : CountryPrefixAutomaton) where
  open self use {cc0, cc1, tail, exact}

  -- The walk ends in a match exactly at the keys that begin with the country code and the tail
  -- and, in the exact mode, hold nothing more.
  pub is_match-run :
      (key : Bytes)
      → (is_match self (run self (start self) key) ≡ true)
        ↔ ((rest : Bytes) × (key ≡ (cc0 ∷ cc1 ∷ tail) ++ rest) × (exact ≡ true → rest ≡ []))
  is_match-run key = (
    λ h.
        spelled-eq exact (cc0 ∷ cc1 ∷ tail) key
          (sym (is_match-run_from self (start self) key tt) ∙ h),
    λ w.
        let (rest, q, x) = w in
        is_match-run_from self (start self) key tt
        ∙ rw q (spelled_of_eq exact (cc0 ∷ cc1 ∷ tail) rest x),
  )
