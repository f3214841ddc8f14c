-- ===== src/Postcode/Normalise/Case.antt =====
-- ASCII case makes no difference to `normalise_locality` of server/src/postcode.rs.
use geocoder.Prelude.{
  ℕ, ◌<◌, ◌≡◌, refl, ap, ◌∙◌, Bool, true, false, ◌⊎◌, inl, inr, [], ◌∷◌, leb, Text, codes, all,
  to_lower, map, arith,
}
use geocoder.Strings.Unicode.{CharTables, IsAsciiCorrect, is_ascii_alphanumeric}
use geocoder.Postcode.Normalise.{
  one_of, ascii_fold_char, pop_space, push_folded, push_all, normalise_locality,
}

one_of-ascii : (c : ℕ) (s : Text) → c < 128 → all (leb 128) s ≡ true → one_of c s ≡ false
one_of-ascii c [] h a = refl
one_of-ascii c (d ∷ s) h a = ground (arith, one_of-ascii c s h)

-- An ASCII character folds to itself.
pub fold_ascii : (c : ℕ) → c < 128 → ascii_fold_char c ≡ c ∷ []
unfolding ascii_fold_char
fold_ascii c h =
    rw
      (
        one_of-ascii c (codes "áàâäãå") h refl,
        one_of-ascii c (codes "ÁÀÂÄÃÅ") h refl,
        one_of-ascii c (codes "éèêë") h refl,
        one_of-ascii c (codes "ÉÈÊË") h refl,
        one_of-ascii c (codes "íìîï") h refl,
        one_of-ascii c (codes "ÍÌÎÏ") h refl,
        one_of-ascii c (codes "óòôöõø") h refl,
        one_of-ascii c (codes "ÓÒÔÖÕØ") h refl,
        one_of-ascii c (codes "úùûü") h refl,
        one_of-ascii c (codes "ÚÙÛÜ") h refl,
        one_of-ascii c (codes "ñ") h refl,
        one_of-ascii c (codes "Ñ") h refl,
        one_of-ascii c (codes "ç") h refl,
        one_of-ascii c (codes "Ç") h refl,
        one_of-ascii c (codes "ß") h refl,
      )
      refl

pub to_lower-cases : (c : ℕ) → (to_lower c ≡ c) ⊎ ((c < 128) × (to_lower c < 128))
unfolding to_lower
to_lower-cases c = ground arith

lower_alphanumeric : (c : ℕ) → is_ascii_alphanumeric (to_lower c) ≡ is_ascii_alphanumeric c
unfolding to_lower
lower_alphanumeric c = ground arith

pub lower_idem : (c : ℕ) → to_lower (to_lower c) ≡ to_lower c
unfolding to_lower
lower_idem c = ground arith

module _ (tables : CharTables) (correct : IsAsciiCorrect tables) where
  open tables use {is_alphanumeric, to_lowercase}

  same_class :
      (c : ℕ) → c < 128 → to_lower c < 128 → is_alphanumeric (to_lower c) ≡ is_alphanumeric c
  unfolding to_lower
  same_class c h h' =
      rw (correct.alphanumeric (to_lower c) h', correct.alphanumeric c h) (lower_alphanumeric c)

  same_lower : (c : ℕ) → c < 128 → to_lower c < 128 → to_lowercase (to_lower c) ≡ to_lowercase c
  same_lower c h h' =
      rw (correct.lowercase (to_lower c) h', correct.lowercase c h)
        (ap (λ d. d ∷ []) (lower_idem c))

  push_folded-to_lower :
      (c : ℕ) (out : Text) (last : Bool)
      → push_folded tables (ascii_fold_char (to_lower c)) out last
        ≡ push_folded tables (ascii_fold_char c) out last
  unfolding push_folded
  push_folded-to_lower c out last = elim (to_lower-cases c) [
    | inl e ↦ ap (λ d. push_folded tables (ascii_fold_char d) out last) e
    | inr (h, h') ↦
        rw (fold_ascii (to_lower c) h', fold_ascii c h, same_class c h h', same_lower c h h') refl
  ]

  push_all-to_lower :
      (s out : Text) (last : Bool)
      → push_all tables (map to_lower s) out last ≡ push_all tables s out last
  unfolding push_all
  push_all-to_lower [] out last = refl
  push_all-to_lower (ch ∷ s) out last =
      ap (λ r. push_all tables (map to_lower s) r.0 r.1) (push_folded-to_lower ch out last)
      ∙ (push_all-to_lower s (push_folded tables (ascii_fold_char ch) out last).0
          (push_folded tables (ascii_fold_char ch) out last).1)

  -- Two names that differ in the case of ASCII letters have the same key, when the tables say of
  -- ASCII characters what the documentation says.
  pub normalise_locality-to_lower :
      (s : Text) → normalise_locality tables (map to_lower s) ≡ normalise_locality tables s
  unfolding normalise_locality
  normalise_locality-to_lower s = ap pop_space (push_all-to_lower s [] true)
