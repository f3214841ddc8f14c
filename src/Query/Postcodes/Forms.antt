-- ===== src/Query/Postcodes/Forms.antt =====
-- The forms of a postcode that server/src/forward.rs tests for, written out.
use geocoder.Prelude.{
  ℕ, ◌-◌, ◌≤◌, ◌<◌, ◌≡◌, refl, ap, ◌∙◌, Bool, true, false, ◌&&◌, ◌||◌, List, [], ◌∷◌, ◌++◌, Option,
  none, some, arith, length, take, drop, Text, codes, Bool-cases, inl, inr, ◌⊎◌, leb, all, any,
  is_digit, eq_ignore_case, ◌==◌,
}
use geocoder.Strings.Unicode.{is_ascii_alphanumeric, is_ascii_alphabetic}
use geocoder.Query.Postcodes.{
  ca_postcode, gb_postcode, postcode_shape, spaced_code, first_is, mixed, first_token_digit,
  five_digit_house, two_token_code,
}

-- Four to ten ASCII letters and digits, and a digit.
pub record IsShaped (code : Text) : Type 0 where
  pub least : 4 ≤ length code
  pub most : length code ≤ 10
  pub plain : all is_ascii_alphanumeric code ≡ true
  pub with_digit : any is_digit code ≡ true

-- Five digits that may be the number of a house: in Australia and New Zealand, and where no country
-- is known behind a first token that begins with no digit.
abbrev pub MayBeHouse : Option Text → List Text → ℕ → Text → Type 0
MayBeHouse none tokens start code =
    (length code ≡ 5)
    × (all is_digit code ≡ true)
    × (0 < start)
    × (first_token_digit tokens ≡ false)
MayBeHouse (some country) tokens start code =
    (length code ≡ 5)
    × (all is_digit code ≡ true)
    × ((eq_ignore_case country (codes "AU") ≡ true) ⊎ (eq_ignore_case country (codes "NZ") ≡ true))

-- Two tokens that are one code.
pub data IsPair (first one : Text) : Type 0 where
  canadian :
      (a b c d e f : ℕ)
      → first ++ one ≡ a ∷ b ∷ c ∷ d ∷ e ∷ f ∷ []
      → all is_ascii_alphabetic (a ∷ c ∷ e ∷ []) ≡ true
      → all is_digit (b ∷ d ∷ f ∷ []) ≡ true
      → IsPair first one
  british :
      5 ≤ length (first ++ one)
      → length (first ++ one) ≤ 7
      → first_is is_ascii_alphabetic (first ++ one) ≡ true
      → first_is is_digit (drop (length (first ++ one) - 3) (first ++ one)) ≡ true
      → all is_ascii_alphabetic (drop (length (first ++ one) - 2) (first ++ one)) ≡ true
      → any is_digit (take (length (first ++ one) - 3) (first ++ one)) ≡ true
      → IsPair first one
  both_mixed :
      any is_digit first ≡ true
      → any is_ascii_alphabetic first ≡ true
      → any is_digit one ≡ true
      → any is_ascii_alphabetic one ≡ true
      → IsPair first one
  four_and_two :
      length first ≡ 4
      → all is_digit first ≡ true
      → length one ≡ 2
      → all is_ascii_alphabetic one ≡ true
      → IsPair first one
  two_numbers :
      4 ≤ length first
      → length first ≤ 5
      → all is_digit first ≡ true
      → 3 ≤ length one
      → length one ≤ 4
      → all is_digit one ≡ true
      → IsPair first one

pub shape-IsShaped : (code : Text) → postcode_shape code ≡ true → IsShaped code
unfolding postcode_shape
shape-IsShaped code h = record {
  least = ground (arith, h);
  most = ground (arith, h);
  plain = ground (arith, h);
  with_digit = ground (arith, h);
}

ca_postcode-IsPair :
    (first one : Text) (s : Text) → first ++ one ≡ s → ca_postcode s ≡ true → IsPair first one
unfolding ca_postcode
ca_postcode-IsPair first one [] e h = absurd (cc)
ca_postcode-IsPair first one (a ∷ []) e h = absurd (cc)
ca_postcode-IsPair first one (a ∷ b ∷ []) e h = absurd (cc)
ca_postcode-IsPair first one (a ∷ b ∷ c ∷ []) e h = absurd (cc)
ca_postcode-IsPair first one (a ∷ b ∷ c ∷ d ∷ []) e h = absurd (cc)
ca_postcode-IsPair first one (a ∷ b ∷ c ∷ d ∷ x ∷ []) e h = absurd (cc)
ca_postcode-IsPair first one (a ∷ b ∷ c ∷ d ∷ x ∷ f ∷ []) e h =
    canadian a b c d x f e (ground (arith, h)) (ground (arith, h))
ca_postcode-IsPair first one (a ∷ b ∷ c ∷ d ∷ x ∷ f ∷ g ∷ s) e h = absurd (cc)

gb_postcode-IsPair : (first one : Text) → gb_postcode (first ++ one) ≡ true → IsPair first one
unfolding gb_postcode
gb_postcode-IsPair first one h =
    british (ground (arith, h)) (ground (arith, h)) (ground (arith, h)) (ground (arith, h))
      (ground (arith, h)) (ground (arith, h))

or_either : (a b : Bool) → (a || b) ≡ true → (a ≡ true) ⊎ (b ≡ true)
or_either true b h = inl refl
or_either false b h = inr h

spaced_code-IsPair : (first one : Text) → spaced_code first one ≡ true → IsPair first one
unfolding spaced_code
spaced_code-IsPair first one h =
    elim (or_either
      ((mixed first && mixed one)
        || ((length first == 4)
            && all is_digit first
            && (length one == 2)
            && all is_ascii_alphabetic one))
      (leb 4 (length first)
        && leb (length first) 5
        && all is_digit first
        && leb 3 (length one)
        && leb (length one) 4
        && all is_digit one)
      h) [
        | inr k ↦
            two_numbers (ground (arith, k)) (ground (arith, k)) (ground (arith, k))
              (ground (arith, k)) (ground (arith, k)) (ground (arith, k))
        | inl j ↦
            elim (or_either (mixed first && mixed one)
              ((length first == 4)
                && all is_digit first
                && (length one == 2)
                && all is_ascii_alphabetic one)
              j) [
                | inl k ↦
                    both_mixed (ground (arith, k)) (ground (arith, k)) (ground (arith, k))
                      (ground (arith, k))
                | inr k ↦
                    four_and_two (ground (arith, k)) (ground (arith, k)) (ground (arith, k))
                      (ground (arith, k))
              ]
      ]

and_both : (a b : Bool) → (a && b) ≡ true → (a ≡ true) × (b ≡ true)
and_both true b h = (refl, h)
and_both false b h = absurd (cc)

pub two_token_code-IsPair :
    (first one : Text)
    → two_token_code first one ≡ true
    → IsShaped (first ++ one) × IsPair first one
unfolding two_token_code
two_token_code-IsPair first one h =
    let code = first ++ one in
    let (shape, form) =
      and_both (postcode_shape code) (ca_postcode code || gb_postcode code || spaced_code first one)
        h in
    (
      shape-IsShaped code shape,
      elim (or_either (ca_postcode code || gb_postcode code) (spaced_code first one) form) [
        | inr k ↦ spaced_code-IsPair first one k
        | inl j ↦ elim (or_either (ca_postcode code) (gb_postcode code) j) [
          | inl k ↦ ca_postcode-IsPair first one code refl k
          | inr k ↦ gb_postcode-IsPair first one k
        ]
      ],
    )

-- What the code lets pass as a postcode is not the number of a house.
pub five_digit_house-MayBeHouse :
    (country : Option Text) (tokens : List Text) (last : ℕ) (one : Text)
    → five_digit_house tokens last one country ≡ false
    → ¬ MayBeHouse country tokens last one
unfolding five_digit_house
five_digit_house-MayBeHouse none tokens last one h (five, digits, behind, first) = ground arith
five_digit_house-MayBeHouse (some cc) tokens last one h (five, digits, inl au) = ground arith
five_digit_house-MayBeHouse (some cc) tokens last one h (five, digits, inr nz) = ground arith

-- The same the other way.
pub IsShaped-shape : (code : Text) → IsShaped code → postcode_shape code ≡ true
unfolding postcode_shape
IsShaped-shape code s = ground (arith, s.least, s.most, s.plain, s.with_digit)

or_right : (a b : Bool) → b ≡ true → (a || b) ≡ true
or_right true b h = refl
or_right false b h = h

or_left : (a b : Bool) → a ≡ true → (a || b) ≡ true
or_left true b h = refl
or_left false b h = cc

six-ca_postcode :
    (a b c d e f : ℕ)
    → all is_ascii_alphabetic (a ∷ c ∷ e ∷ []) ≡ true
    → all is_digit (b ∷ d ∷ f ∷ []) ≡ true
    → ca_postcode (a ∷ b ∷ c ∷ d ∷ e ∷ f ∷ []) ≡ true
unfolding ca_postcode
six-ca_postcode a b c d e f letters digits = ground (arith, letters, digits)

IsPair-form :
    (first one : Text)
    → IsPair first one
    → (ca_postcode (first ++ one) || gb_postcode (first ++ one) || spaced_code first one) ≡ true
unfolding gb_postcode spaced_code
IsPair-form first one (canadian a b c d e f same letters digits) =
    let code = first ++ one in
    let ca : ca_postcode code ≡ true =
      ap ca_postcode same ∙ six-ca_postcode a b c d e f letters digits in
    or_left (ca_postcode code || gb_postcode code) (spaced_code first one)
      (or_left (ca_postcode code) (gb_postcode code) ca)
IsPair-form first one (british h1 h2 h3 h4 h5 h6) =
    let code = first ++ one in
    let gb : gb_postcode code ≡ true = ground (arith, h1, h2, h3, h4, h5, h6) in
    or_left (ca_postcode code || gb_postcode code) (spaced_code first one)
      (or_right (ca_postcode code) (gb_postcode code) gb)
IsPair-form first one (both_mixed h1 h2 h3 h4) =
    let sp : spaced_code first one ≡ true = ground (arith, h1, h2, h3, h4) in
    or_right (ca_postcode (first ++ one) || gb_postcode (first ++ one)) (spaced_code first one) sp
IsPair-form first one (four_and_two h1 h2 h3 h4) =
    let sp : spaced_code first one ≡ true = ground (arith, h1, h2, h3, h4) in
    or_right (ca_postcode (first ++ one) || gb_postcode (first ++ one)) (spaced_code first one) sp
IsPair-form first one (two_numbers h1 h2 h3 h4 h5 h6) =
    let sp : spaced_code first one ≡ true = ground (arith, h1, h2, h3, h4, h5, h6) in
    or_right (ca_postcode (first ++ one) || gb_postcode (first ++ one)) (spaced_code first one) sp

pub IsPair-two_token_code :
    (first one : Text)
    → IsShaped (first ++ one)
    → IsPair first one
    → two_token_code first one ≡ true
unfolding two_token_code
IsPair-two_token_code first one shape pair =
    rw (IsShaped-shape (first ++ one) shape) (IsPair-form first one pair)

MayBeHouse-house :
    (country : Option Text) (tokens : List Text) (last : ℕ) (one : Text)
    → five_digit_house tokens last one country ≡ true
    → MayBeHouse country tokens last one
unfolding five_digit_house
MayBeHouse-house none tokens last one h =
    (ground (arith, h), ground (arith, h), ground (arith, h), ground (arith, h))
MayBeHouse-house (some cc') tokens last one h = (
  ground (arith, h),
  ground (arith, h),
  elim (Bool-cases (eq_ignore_case cc' (codes "AU"))) [
    | inl au ↦ inl au
    | inr other ↦ inr (ground (arith, h, other))
  ],
)

pub not_house :
    (country : Option Text) (tokens : List Text) (last : ℕ) (one : Text)
    → ¬ MayBeHouse country tokens last one
    → five_digit_house tokens last one country ≡ false
not_house country tokens last one no_house =
    elim (Bool-cases (five_digit_house tokens last one country)) [
      | inl h ↦ absurd (no_house (MayBeHouse-house country tokens last one h))
      | inr f ↦ f
    ]
