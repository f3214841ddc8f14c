-- ===== src/Query/Postcodes/Trailing.antt =====
-- What `trailing_postcode` of server/src/forward.rs finds at the end of a query.
use geocoder.Prelude.{
  ℕ, zero, suc, ◌≡◌, refl, sym, ap, ◌∙◌, ◌↔◌, get_elem?-lt, subst, true, false, List, [], ◌∷◌, ◌++◌,
  Option, some, arith, length, get_elem?, Text, Bool-cases, inl, inr, >>=-eq-some,
}
use geocoder.Query.Postcodes.{
  normalize_postcode, postcode_shape, five_digit_house, two_token_code, one_token_code, code_at,
  trailing_postcode,
}
use geocoder.Query.Postcodes.Forms.{
  IsShaped, IsPair, MayBeHouse, shape-IsShaped, two_token_code-IsPair, five_digit_house-MayBeHouse,
  IsShaped-shape, IsPair-two_token_code, not_house,
}

-- The code that the tokens from `start` on are, which are the last two, or the last when the last two
-- are none.
pub data IsTail (tokens : List Text) (country : Option Text) (start : ℕ) (code : Text)
    : Type 0 where
  last_token :
      (t : Text)
      → suc start ≡ length tokens
      → get_elem? tokens start ≡ some t
      → code ≡ normalize_postcode t
      → IsShaped code
      → ¬ MayBeHouse country tokens start code
      → ((before : ℕ) (u : Text)
          → start ≡ suc before
          → get_elem? tokens before ≡ some u
          → ¬ (IsShaped (normalize_postcode u ++ code) × IsPair (normalize_postcode u) code))
      → IsTail tokens country start code
  last_two :
      (u t : Text)
      → suc (suc start) ≡ length tokens
      → get_elem? tokens start ≡ some u
      → get_elem? tokens (suc start) ≡ some t
      → code ≡ normalize_postcode u ++ normalize_postcode t
      → IsShaped code
      → IsPair (normalize_postcode u) (normalize_postcode t)
      → IsTail tokens country start code

-- One token makes a code only if it has its shape and is no house number.
one_token_code_lem :
    (tokens : List Text) (last : ℕ) (one : Text) (country : Option Text) {start : ℕ} {code : Text}
    → one_token_code tokens last one country ≡ some (start, code)
    → (start ≡ last)
      × (code ≡ one)
      × (postcode_shape one ≡ true)
      × (five_digit_house tokens last one country ≡ false)
unfolding one_token_code
one_token_code_lem tokens last one country h = ground arith

one_token_code-IsTail :
    (tokens : List Text) (last : ℕ) (t : Text) (country : Option Text) {start : ℕ} {code : Text}
    → suc last ≡ length tokens
    → get_elem? tokens last ≡ some t
    → ((before : ℕ) (u : Text)
        → last ≡ suc before
        → get_elem? tokens before ≡ some u
        → two_token_code (normalize_postcode u) (normalize_postcode t) ≡ false)
    → one_token_code tokens last (normalize_postcode t) country ≡ some (start, code)
    → IsTail tokens country start code
one_token_code-IsTail tokens last t country {start} {code} e g single h =
    let (at, c, shape, house) = one_token_code_lem tokens last (normalize_postcode t) country h in
    let here : IsTail tokens country last (normalize_postcode t) =
      last_token t e g refl (shape-IsShaped (normalize_postcode t) shape)
        (five_digit_house-MayBeHouse country tokens last (normalize_postcode t) house)
        (λ before u place k (shaped, pair).
          let two =
            IsPair-two_token_code (normalize_postcode u) (normalize_postcode t) shaped pair in
          let both : true ≡ false = sym two ∙ single before u place k in cc) in
    subst (λ i. IsTail tokens country i code) (sym at)
      (subst (IsTail tokens country last) (sym c) here)

some_pair :
    (a c : ℕ) (b d : Text)
    → ◌≡◌ {A = Option (ℕ × Text)} (some (a, b)) (some (c, d))
    → (a ≡ c) × (b ≡ d)
some_pair a c b d h = (cc, cc)

-- The token before the last is one.
same_before :
    (tokens : List Text) (before before' : ℕ) (u u' t : Text)
    → suc before ≡ suc before'
    → get_elem? tokens before ≡ some u
    → get_elem? tokens before' ≡ some u'
    → two_token_code (normalize_postcode u) (normalize_postcode t) ≡ false
    → two_token_code (normalize_postcode u') (normalize_postcode t) ≡ false
same_before tokens before before' u u' t place g g' one =
    let same : before ≡ before' = omega (arith, place) in
    let same_token : some u ≡ some u' = sym g ∙ ap (λ (i : ℕ). get_elem? tokens i) same ∙ g' in
    subst (λ v. two_token_code (normalize_postcode v) (normalize_postcode t) ≡ false)
      (cc (same_token)) one

code_at-IsTail :
    (tokens : List Text) (last : ℕ) (country : Option Text) {start : ℕ} {code : Text}
    → suc last ≡ length tokens
    → code_at tokens last country ≡ some (start, code)
    → IsTail tokens country start code
unfolding code_at
code_at-IsTail tokens zero country e h =
    let (t, g, k) = >>=-eq-some (get_elem? tokens 0) _ h in
    one_token_code-IsTail tokens 0 t country e g (λ before u place. absurd (omega (arith, place))) k
code_at-IsTail tokens (suc before) country {start} {code} e h =
    let (t, g, k) = >>=-eq-some (get_elem? tokens (suc before)) _ h in
    let (u, g', k') = >>=-eq-some (get_elem? tokens before) _ k in
    elim (Bool-cases (two_token_code (normalize_postcode u) (normalize_postcode t))) [
      | inl two ↦
          let q : some (before, normalize_postcode u ++ normalize_postcode t) ≡ some (start, code) =
            rw two at k' in
          let (at, c) =
            some_pair before start (normalize_postcode u ++ normalize_postcode t) code q in
          let (shape, form) =
            two_token_code-IsPair (normalize_postcode u) (normalize_postcode t) two in
          subst (λ i. IsTail tokens country i code) at
            (subst (IsTail tokens country before) c (last_two u t e g' g refl shape form))
      | inr one ↦
          one_token_code-IsTail tokens (suc before) t country e g
            (λ before' u' place k''. same_before tokens before before' u u' t place g' k'' one)
            (rw one at k')
    ]

code_at-last_two :
    (tokens : List Text) (before : ℕ) (country : Option Text) (u t : Text)
    → get_elem? tokens before ≡ some u
    → get_elem? tokens (suc before) ≡ some t
    → two_token_code (normalize_postcode u) (normalize_postcode t) ≡ true
    → code_at tokens (suc before) country
      ≡ some (before, normalize_postcode u ++ normalize_postcode t)
unfolding code_at
code_at-last_two tokens before country u t g g' two = rw (code_at, g', g, two) refl

one_token_code-last :
    (tokens : List Text) (last : ℕ) (country : Option Text) (one : Text)
    → IsShaped one
    → ¬ MayBeHouse country tokens last one
    → one_token_code tokens last one country ≡ some (last, one)
unfolding one_token_code
one_token_code-last tokens last country one shape no_house =
    rw (IsShaped-shape one shape, not_house country tokens last one no_house) refl

code_at-last_token :
    (tokens : List Text) (last : ℕ) (country : Option Text) (t : Text)
    → suc last ≡ length tokens
    → get_elem? tokens last ≡ some t
    → IsShaped (normalize_postcode t)
    → ¬ MayBeHouse country tokens last (normalize_postcode t)
    → ((before : ℕ) (u : Text)
        → last ≡ suc before
        → get_elem? tokens before ≡ some u
        → ¬ (
            IsShaped (normalize_postcode u ++ normalize_postcode t)
            × IsPair (normalize_postcode u) (normalize_postcode t)))
    → code_at tokens last country ≡ some (last, normalize_postcode t)
unfolding code_at
code_at-last_token tokens zero country t e g shape no_house single =
    rw (code_at, g) (one_token_code-last tokens 0 country (normalize_postcode t) shape no_house)
code_at-last_token tokens (suc before) country t e g shape no_house single =
    let (u, k) = get_elem?-lt tokens before (omega (arith, e)) in
    elim (Bool-cases (two_token_code (normalize_postcode u) (normalize_postcode t))) [
      | inl two ↦ absurd (
          single before u refl k
            (two_token_code-IsPair (normalize_postcode u) (normalize_postcode t) two))
      | inr one ↦
          rw (code_at, g, k, one)
            (one_token_code-last tokens (suc before) country (normalize_postcode t) shape no_house)
    ]

IsTail-code_at :
    (tokens : List Text) (last : ℕ) (country : Option Text) (start : ℕ) (code : Text)
    → suc last ≡ length tokens
    → IsTail tokens country start code
    → code_at tokens last country ≡ some (start, code)
IsTail-code_at tokens last country start code e (last_token t e' g c shape no_house single) =
    let at : last ≡ start = omega (arith, e, e') in
    let shape' : IsShaped (normalize_postcode t) = subst IsShaped c shape in
    let no_house' = subst (λ x. ¬ MayBeHouse country tokens start x) c no_house in
    ap (λ (i : ℕ). code_at tokens i country) at
    ∙ code_at-last_token tokens start country t e' g shape' no_house' (λ before u place k.
      subst (λ x. ¬ (IsShaped (normalize_postcode u ++ x) × IsPair (normalize_postcode u) x)) c
        (single before u place k))
    ∙ ap (λ x. some (start, x)) (sym c)
IsTail-code_at tokens last country start code e (last_two u t e' g g' c shape pair) =
    let at : last ≡ suc start = omega (arith, e, e') in
    let two : two_token_code (normalize_postcode u) (normalize_postcode t) ≡ true =
      IsPair-two_token_code (normalize_postcode u) (normalize_postcode t) (subst IsShaped c shape)
        pair in
    ap (λ (i : ℕ). code_at tokens i country) at
    ∙ code_at-last_two tokens start country u t g g' two
    ∙ ap (λ x. some (start, x)) (sym c)

trailing_postcode-IsTail :
    (tokens : List Text) (country : Option Text) {start : ℕ} {code : Text}
    → trailing_postcode tokens country ≡ some (start, code)
    → IsTail tokens country start code
unfolding trailing_postcode
trailing_postcode-IsTail [] country h = absurd (cc)
trailing_postcode-IsTail (t ∷ tokens) country h =
    code_at-IsTail (t ∷ tokens) (length tokens) country refl h

none_there : (start : ℕ) (code : Text) (country : Option Text) → ¬ IsTail [] country start code
none_there start code country (last_token t e g c shape no_house single) = cc
none_there start code country (last_two u t e g g' c shape pair) = cc

IsTail-trailing_postcode :
    (tokens : List Text) (country : Option Text) (start : ℕ) (code : Text)
    → IsTail tokens country start code
    → trailing_postcode tokens country ≡ some (start, code)
unfolding trailing_postcode
IsTail-trailing_postcode [] country start code h = absurd (none_there start code country h)
IsTail-trailing_postcode (t ∷ tokens) country start code h =
    IsTail-code_at (t ∷ tokens) (length tokens) country start code refl h

-- A postcode is found at the end of a query exactly when the last two tokens are one, or else the last
-- token is: with four to ten letters and digits, and a digit, as two in the form of Canada or of
-- Britain or in a form that is written with a space, and as one not of five digits that may be the
-- number of a house.
pub trailing_postcode_iff :
    (tokens : List Text) (country : Option Text) (start : ℕ) (code : Text)
    → (trailing_postcode tokens country ≡ some (start, code)) ↔ IsTail tokens country start code
trailing_postcode_iff tokens country start code =
    (trailing_postcode-IsTail tokens country, IsTail-trailing_postcode tokens country start code)
