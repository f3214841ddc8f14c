-- ===== src/Query/Freeform/Arms.antt =====
-- What each arm of the loop of `parse_freeform_query_inner` in server/src/forward.rs knows.
use geocoder.Prelude.{
  All, ℕ, ◌≡◌, refl, subst, Bool, true, false, not, ◌&&◌, ◌||◌, List, [], ◌∷◌, Option, none, some,
  arith, ltb, ◌==◌, ◌⊎◌, inl, inr, Text, codes, is_digit, is_empty, all, >>=-eq-some, Bool-cases,
}
use geocoder.Postcode.Pool.{text_eq-eq}
use geocoder.Strings.Tables.{is_one_of_texts}
use geocoder.Query.Postcodes.{first_is}
use geocoder.Query.States.{state_of}
use geocoder.Query.Freeform.{
  Fields, Setting, Arm, postcode_tail, skipped, floor_marker, house, word, unit_word, state_name,
  unit_words, is_missing, is_at, in_postcode, can_be_unit, floor_ordinal, floor_before,
  next_is_floor, arm_when, state_tail, unit_arm, floor_arm, all_digits, leading_arm, digits_arm,
  component_arm, state_arm, first_arm, arms, arm_of,
}

-- A floor, or the ordinal before it.
abbrev pub IsFloor : Option Text → Text → List Text → Type 0
IsFloor prev tok tokens =
    ((floor_ordinal tok ≡ true) × (next_is_floor tokens ≡ true))
    ⊎ ((tok ≡ codes "floor") × (floor_before prev ≡ true))

abbrev pub Facts : Setting → ℕ → Option Text → Text → List Text → Bool → Fields → Arm → Type 0
Facts env i prev tok tokens skip f postcode_tail = in_postcode env i ≡ true
Facts env i prev tok tokens skip f skipped = skip ≡ true
Facts env i prev tok tokens skip f floor_marker = IsFloor prev tok tokens
Facts env i prev tok tokens skip f word = Unit {0}
Facts env i prev tok tokens skip f house = (f.house_number ≡ none) × (first_is is_digit tok ≡ true)
Facts env i prev tok tokens skip f (unit_word next) =
    (f.unit ≡ none)
    × (is_one_of_texts unit_words tok ≡ true)
    × (can_be_unit next ≡ true)
    × ((ts : List Text) × (tokens ≡ next ∷ ts))
Facts env i prev tok tokens skip f (state_name full) =
    (f.state ≡ none) × (state_of env.country_code (state_tail env i) tok ≡ some full)

missing_none : (o : Option Text) → is_missing o ≡ true → o ≡ none
missing_none none h = refl
missing_none (some s) h = cc

both : (a b : Bool) → (a && b) ≡ true → (a ≡ true) × (b ≡ true)
both true b h = (refl, h)
both false b h = cc

-- The first of two, and the first and the third, of tests that hold together.
first_holds : (a b : Bool) → (a && b) ≡ true → a ≡ true
first_holds true b h = refl
first_holds false b h = cc

first_third : (a b c d e : Bool) → (a && b && c && d && e) ≡ true → (a ≡ true) × (c ≡ true)
first_third a b c d e h = ground arith

both3 : (a b c : Bool) → (a && b && c) ≡ true → (a ≡ true) × (b ≡ true)
both3 a b c h = ground arith

third3 : (a b c : Bool) → (a && b && c) ≡ true → c ≡ true
third3 a b c h = ground arith

first_third4 : (a b c d : Bool) → (a && b && c && d) ≡ true → (a ≡ true) × (c ≡ true)
first_third4 a b c d h = ground arith

digits_first :
    (tok : Text) → (not (is_empty tok) && all is_digit tok) ≡ true → first_is is_digit tok ≡ true
digits_first [] h = cc
digits_first (c ∷ tok) h = ground arith

floor_cases {ℓ} :
    {P : Type ℓ} (next here floor later before : Bool)
    → (floor ≡ true → P)
    → ((next && here) || (floor && later && before)) ≡ true
    → ((here ≡ true) × (next ≡ true)) ⊎ (P × (before ≡ true))
floor_cases true true floor later before p h = inl (refl, refl)
floor_cases true false true true true p h = inr (p refl, refl)
floor_cases true false true true false p h = cc
floor_cases true false true false before p h = cc
floor_cases true false false later before p h = cc
floor_cases false here true true true p h = inr (p refl, refl)
floor_cases false here true true false p h = cc
floor_cases false here true false before p h = cc
floor_cases false here false later before p h = cc

some_inj : (a b : Arm) → ◌≡◌ {A = Option Arm} (some a) (some b) → a ≡ b
some_inj a b h = cc

when_some : (b : Bool) (a : Arm) {arm : Arm} → arm_when b a ≡ some arm → (b ≡ true) × (a ≡ arm)
when_some true a h = (refl, cc)
when_some false a h = cc

module _ (env : Setting) (i : ℕ) (prev : Option Text) (tok : Text) (tokens : List Text)
    (skip : Bool) (f : Fields) where
  abbrev Knows : Arm → Type 0
  Knows = Facts env i prev tok tokens skip f

  abbrev Sound : Option Arm → Type 0
  Sound o = (arm : Arm) → o ≡ some arm → Knows arm

  when-Sound : (b : Bool) (a : Arm) → (b ≡ true → Knows a) → Sound (arm_when b a)
  when-Sound b a h arm e = let (t, q) = when_some b a e in subst Knows q (h t)

  leading_arm-Sound : Sound (leading_arm env i prev tok tokens skip f)
  unfolding leading_arm
  leading_arm-Sound = when-Sound _ house (λ h.
      let (m, d) = first_third (is_missing f.house_number) (i == 0) (first_is is_digit tok) _ _ h in
      (missing_none f.house_number m, d))

  digits_arm-Sound : Sound (digits_arm env i prev tok tokens skip f)
  unfolding digits_arm
  digits_arm-Sound = when-Sound _ house (λ h.
      let (m, d) = both3 (is_missing f.house_number) (all_digits tok) _ h in
      (missing_none f.house_number m, digits_first tok d))

  component_arm-Sound : Sound (component_arm env i prev tok tokens skip f)
  unfolding component_arm
  component_arm-Sound = when-Sound _ house (λ h.
      let (m, d) =
        first_third4 (is_missing f.house_number) (is_at env.first_component_end i)
          (first_is is_digit tok) _ h in
      (missing_none f.house_number m, d))

  floor_arm-Sound : Sound (floor_arm env i prev tok tokens skip f)
  unfolding floor_arm
  floor_arm-Sound =
      when-Sound _ floor_marker
        (λ h. floor_cases _ _ _ _ _ (λ e. text_eq-eq tok (codes "floor") e) h)

  state_arm-Sound : Sound (state_arm env i prev tok tokens skip f)
  unfolding state_arm
  state_arm-Sound arm e = elim (Bool-cases (is_missing f.state && ltb 1 env.count)) [
    | inl m ↦
        let (full, q, r) =
          >>=-eq-some (state_of env.country_code (state_tail env i) tok) _ (rw m at e) in
        subst Knows (some_inj (state_name full) arm r)
          (missing_none f.state (first_holds (is_missing f.state) (ltb 1 env.count) m), q)
    | inr m ↦ absurd (cc (rw m at e))
  ]

unit_arm-Sound :
    (env : Setting) (i : ℕ) (prev : Option Text) (tok : Text) (tokens : List Text) (skip : Bool)
    (f : Fields)
    → Sound env i prev tok tokens skip f (unit_arm env i prev tok tokens skip f)
unfolding unit_arm
unit_arm-Sound env i prev tok [] skip f arm e = absurd (cc)
unit_arm-Sound env i prev tok (next ∷ tokens) skip f arm e =
    when-Sound env i prev tok (next ∷ tokens) skip f _ (unit_word next)
      (λ h.
        let (m, u) =
          both3 (is_missing f.unit) (is_one_of_texts unit_words tok) (can_be_unit next) h in
        (
          missing_none f.unit m,
          u,
          third3 (is_missing f.unit) (is_one_of_texts unit_words tok) (can_be_unit next) h,
          (tokens, refl),
        ))
      arm e

-- The first arm that is there, if all that are there know their facts.
first_arm-Sound :
    (P : Arm → Type 0) (these : List (Option Arm))
    → P word
    → All (λ o. (arm : Arm) → o ≡ some arm → P arm) these
    → P (first_arm these)
first_arm-Sound P [] w h = w
first_arm-Sound P (none ∷ these) w (h, hs) = first_arm-Sound P these w hs
first_arm-Sound P (some arm ∷ these) w (h, hs) = h arm refl

-- Whatever arm is taken, its tests hold.
pub arm_of-Facts :
    (env : Setting) (i : ℕ) (prev : Option Text) (tok : Text) (tokens : List Text) (skip : Bool)
    (f : Fields)
    → Facts env i prev tok tokens skip f (arm_of env i prev tok tokens skip f)
unfolding arm_of
arm_of-Facts env i prev tok tokens skip f =
    first_arm-Sound (Facts env i prev tok tokens skip f) (arms env i prev tok tokens skip f) tt (
      when-Sound env i prev tok tokens skip f (in_postcode env i) postcode_tail (λ h. h),
      (
        when-Sound env i prev tok tokens skip f skip skipped (λ h. h),
        (
          unit_arm-Sound env i prev tok tokens skip f,
          (
            floor_arm-Sound env i prev tok tokens skip f,
            (
              leading_arm-Sound env i prev tok tokens skip f,
              (
                digits_arm-Sound env i prev tok tokens skip f,
                (
                  component_arm-Sound env i prev tok tokens skip f,
                  (state_arm-Sound env i prev tok tokens skip f, tt),
                ),
              ),
            ),
          ),
        ),
      ),
    )
