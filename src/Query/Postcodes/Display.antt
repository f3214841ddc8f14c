-- ===== src/Query/Postcodes/Display.antt =====
-- `display_postcode` of server/src/forward.rs only adds a space.
use geocoder.Prelude.{
  ℕ, ◌≡◌, refl, sym, ap, ◌∙◌, true, [], ◌∷◌, ◌++◌, Option, none, some, arith, take, drop,
  take-append-drop, Text, Bool-cases, inl, inr,
}
use geocoder.Strings.Unicode.{is_ascii_alphanumeric}
use geocoder.Query.Postcodes.{to_upper, normalize_postcode, split_at, display_postcode}

pub normalize_postcode-append :
    (s t : Text) → normalize_postcode (s ++ t) ≡ normalize_postcode s ++ normalize_postcode t
unfolding normalize_postcode
normalize_postcode-append [] t = refl
normalize_postcode-append (c ∷ s) t = ground (arith, normalize_postcode-append s t)

upper_kept :
    (c : ℕ)
    → is_ascii_alphanumeric c ≡ true
    → (is_ascii_alphanumeric (to_upper c) ≡ true) × (to_upper (to_upper c) ≡ to_upper c)
unfolding to_upper
upper_kept c h = ground arith

pub normalize_postcode_idem :
    (s : Text) → normalize_postcode (normalize_postcode s) ≡ normalize_postcode s
unfolding normalize_postcode
normalize_postcode_idem [] = refl
normalize_postcode_idem (c ∷ s) = elim (Bool-cases (is_ascii_alphanumeric c)) [
  | inl h ↦
      let (k, u) = upper_kept c h in
      rw (h, k)
        (ap (λ d. d ∷ normalize_postcode (normalize_postcode s)) u
          ∙ ap (λ r. to_upper c ∷ r) (normalize_postcode_idem s))
  | inr h ↦ rw h (normalize_postcode_idem s)
]

spaced :
    (o : Option ℕ) (c : Text)
    → normalize_postcode
        (elim o as (λ x. Text) [ none ↦ c | some at ↦ take at c ++ b' ' ∷ drop at c ])
      ≡ normalize_postcode c
unfolding normalize_postcode
spaced none c = refl
spaced (some at) c =
    normalize_postcode-append (take at c) (b' ' ∷ drop at c)
    ∙ sym (normalize_postcode-append (take at c) (drop at c))
    ∙ ap normalize_postcode (take-append-drop at c)

-- The code as it is shown normalises to what the code itself normalises to, in every country.
pub normalize_postcode-display_postcode :
    (code : Text) (country_code : Option Text)
    → normalize_postcode (display_postcode code country_code) ≡ normalize_postcode code
unfolding display_postcode
normalize_postcode-display_postcode code country_code =
    spaced (split_at (normalize_postcode code) country_code) (normalize_postcode code)
    ∙ normalize_postcode_idem code
