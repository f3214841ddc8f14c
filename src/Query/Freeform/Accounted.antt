-- ===== src/Query/Freeform/Accounted.antt =====
-- Where the tokens of a query go in `parse_freeform_query_inner` of server/src/forward.rs.
use geocoder.Prelude.{
  ℕ, suc, ◌≡◌, refl, ap, ◌∙◌, Bool, true, false, List, [], ◌∷◌, Option, none, some, arith, ◌⊎◌, inl,
  inr, Text, is_digit,
}
use geocoder.Strings.Tables.{is_one_of_texts}
use geocoder.Query.Postcodes.{first_is}
use geocoder.Query.States.{state_of}
use geocoder.Query.Freeform.{
  Fields, Setting, Arm, postcode_tail, skipped, floor_marker, house, word, unit_word, state_name,
  unit_words, in_postcode, can_be_unit, state_tail, arm_of, fill, skip_next, keep,
  read_query_tokens,
}
use geocoder.Query.Freeform.Arms.{IsFloor, Facts, arm_of-Facts}

-- Why a token is not among the rest.
pub data Reason (env : Setting) (f : Fields) (i : ℕ) (prev : Option Text) (tok : Text)
    (tokens : List Text) : Type 0 where
  in_code : in_postcode env i ≡ true → Reason env f i prev tok tokens
  as_unit : f.unit ≡ some tok → Reason env f i prev tok tokens
  before_unit :
      {next : Text} {ts : List Text}
      → tokens ≡ next ∷ ts
      → is_one_of_texts unit_words tok ≡ true
      → can_be_unit next ≡ true
      → f.unit ≡ some next
      → Reason env f i prev tok tokens
  as_floor : IsFloor prev tok tokens → Reason env f i prev tok tokens
  as_house :
      first_is is_digit tok ≡ true → f.house_number ≡ some tok → Reason env f i prev tok tokens
  as_state :
      {full : Text}
      → state_of env.country_code (state_tail env i) tok ≡ some full
      → f.state ≡ some full
      → Reason env f i prev tok tokens

-- Every token from an index on is kept in its place in the rest, or there is a reason why not.
pub data Accounted (env : Setting) (f : Fields)
    : ℕ → Option Text → List Text → List Text → Type 0 where
  all_read : {i : ℕ} {prev : Option Text} → Accounted env f i prev [] []
  kept :
      {i : ℕ} {prev : Option Text} {tok : Text} {tokens rest : List Text}
      → Accounted env f (suc i) (some tok) tokens rest
      → Accounted env f i prev (tok ∷ tokens) (tok ∷ rest)
  dropped :
      {i : ℕ} {prev : Option Text} {tok : Text} {tokens rest : List Text}
      → Reason env f i prev tok tokens
      → Accounted env f (suc i) (some tok) tokens rest
      → Accounted env f i prev (tok ∷ tokens) rest

-- What is set stays as it is.
record Extends (f g : Fields) : Type 0 where
  house_kept : (s : Text) → f.house_number ≡ some s → g.house_number ≡ some s
  unit_kept : (s : Text) → f.unit ≡ some s → g.unit ≡ some s
  state_kept : (s : Text) → f.state ≡ some s → g.state ≡ some s

Extends-refl : (f : Fields) → Extends f f
Extends-refl f = record { house_kept = λ s h. h; unit_kept = λ s h. h; state_kept = λ s h. h }

Extends-trans : {f g h : Fields} → Extends f g → Extends g h → Extends f h
Extends-trans a b = record {
  house_kept = λ s e. b.house_kept s (a.house_kept s e);
  unit_kept = λ s e. b.unit_kept s (a.unit_kept s e);
  state_kept = λ s e. b.state_kept s (a.state_kept s e);
}

module _ (env : Setting) (i : ℕ) (prev : Option Text) (tok : Text) (tokens : List Text)
    (skip : Bool) (f : Fields) where
  fill-Extends : (arm : Arm) → Facts env i prev tok tokens skip f arm → Extends f (fill arm tok f)
  unfolding fill
  fill-Extends postcode_tail h = Extends-refl f
  fill-Extends skipped h = Extends-refl f
  fill-Extends floor_marker h = Extends-refl f
  fill-Extends word h = Extends-refl f
  fill-Extends house (e, _) = record {
    house_kept = λ s h. absurd (cc);
    unit_kept = λ s h. h;
    state_kept = λ s h. h;
  }
  fill-Extends (unit_word next) (e, _, _, _) = record {
    house_kept = λ s h. h;
    unit_kept = λ s h. absurd (cc);
    state_kept = λ s h. h;
  }
  fill-Extends (state_name full) (e, _) = record {
    house_kept = λ s h. h;
    unit_kept = λ s h. h;
    state_kept = λ s h. absurd (cc);
  }

read-Extends :
    (env : Setting) (i : ℕ) (prev : Option Text) (tokens : List Text) (skip : Bool) (f : Fields)
    → Extends f (read_query_tokens env i prev tokens skip f).0
unfolding read_query_tokens
read-Extends env i prev [] skip f = Extends-refl f
read-Extends env i prev (tok ∷ tokens) skip f =
    let arm = arm_of env i prev tok tokens skip f in
    Extends-trans
      (fill-Extends env i prev tok tokens skip f arm (arm_of-Facts env i prev tok tokens skip f))
      (read-Extends env (suc i) (some tok) tokens (skip_next arm skip) (fill arm tok f))

-- Before a token that is passed over the unit was set to it, or the postcode has begun.
SkipOk : Setting → ℕ → List Text → Bool → Fields → Type 0
SkipOk env i tokens skip f =
    skip ≡ true
    → ((t : Text) × (ts : List Text) × (tokens ≡ t ∷ ts) × (f.unit ≡ some t))
      ⊎ (in_postcode env i ≡ true)

in_postcode-suc :
    (env : Setting) (i : ℕ) → in_postcode env i ≡ true → in_postcode env (suc i) ≡ true
in_postcode-suc env i h = ground arith

skip_next-SkipOk :
    (env : Setting) (i : ℕ) (prev : Option Text) (tok : Text) (tokens : List Text) (skip : Bool)
    (f : Fields) (arm : Arm)
    → Facts env i prev tok tokens skip f arm
    → SkipOk env (suc i) tokens (skip_next arm skip) (fill arm tok f)
unfolding skip_next fill SkipOk
skip_next-SkipOk env i prev tok tokens skip f postcode_tail h = λ e. inr (in_postcode-suc env i h)
skip_next-SkipOk env i prev tok tokens skip f skipped h = λ e. absurd (cc)
skip_next-SkipOk env i prev tok tokens skip f floor_marker h = λ e. absurd (cc)
skip_next-SkipOk env i prev tok tokens skip f word h = λ e. absurd (cc)
skip_next-SkipOk env i prev tok tokens skip f house h = λ e. absurd (cc)
skip_next-SkipOk env i prev tok tokens skip f (unit_word next) (m, u, c, (ts, q)) =
    λ e. inl (next, ts, q, refl)
skip_next-SkipOk env i prev tok tokens skip f (state_name full) h = λ e. absurd (cc)

head_eq : (t u : Text) (ts us : List Text) → ◌≡◌ {A = List Text} (u ∷ us) (t ∷ ts) → t ≡ u
head_eq t u ts us h = cc

-- One token, when those behind it are accounted for.
account :
    (env : Setting) (i : ℕ) (prev : Option Text) (tok : Text) (tokens : List Text) (skip : Bool)
    (f g : Fields) (rest : List Text) (arm : Arm)
    → Facts env i prev tok tokens skip f arm
    → SkipOk env i (tok ∷ tokens) skip f
    → Extends f g
    → Extends (fill arm tok f) g
    → Accounted env g (suc i) (some tok) tokens rest
    → Accounted env g i prev (tok ∷ tokens) (keep arm tok rest)
unfolding fill keep SkipOk
account env i prev tok tokens skip f g rest postcode_tail h ok e e' r = dropped (in_code h) r
account env i prev tok tokens skip f g rest skipped h ok e e' r = elim (ok h) [
  | inl (t, ts, q, u) ↦
      dropped (as_unit (e.unit_kept tok (u ∙ ap some (head_eq t tok ts tokens q)))) r
  | inr c ↦ dropped (in_code c) r
]
account env i prev tok tokens skip f g rest floor_marker h ok e e' r = dropped (as_floor h) r
account env i prev tok tokens skip f g rest word h ok e e' r = kept r
account env i prev tok tokens skip f g rest house (m, d) ok e e' r =
    dropped (as_house d (e'.house_kept tok refl)) r
account env i prev tok tokens skip f g rest (unit_word next) (m, u, c, (ts, q)) ok e e' r =
    dropped (before_unit q u c (e'.unit_kept next refl)) r
account env i prev tok tokens skip f g rest (state_name full) (m, q) ok e e' r =
    dropped (as_state q (e'.state_kept full refl)) r

read-Accounted :
    (env : Setting) (i : ℕ) (prev : Option Text) (tokens : List Text) (skip : Bool) (f : Fields)
    → SkipOk env i tokens skip f
    → Accounted env
        (read_query_tokens env i prev tokens skip f).0
        i
        prev
        tokens
        (read_query_tokens env i prev tokens skip f).1
unfolding read_query_tokens
read-Accounted env i prev [] skip f ok = all_read
read-Accounted env i prev (tok ∷ tokens) skip f ok =
    let arm = arm_of env i prev tok tokens skip f in
    let facts = arm_of-Facts env i prev tok tokens skip f in
    let later =
      read_query_tokens env (suc i) (some tok) tokens (skip_next arm skip) (fill arm tok f) in
    let e' = read-Extends env (suc i) (some tok) tokens (skip_next arm skip) (fill arm tok f) in
    account env i prev tok tokens skip f later.0 later.1 arm facts ok
      (Extends-trans (fill-Extends env i prev tok tokens skip f arm facts) e') e'
      (read-Accounted env (suc i) (some tok) tokens (skip_next arm skip) (fill arm tok f)
        (skip_next-SkipOk env i prev tok tokens skip f arm facts))

-- No token of a query is lost, and none is made up: with the fields at the end of the loop, every
-- token is kept in its place in the rest, or it stands in the postcode, is the unit or the word
-- before the unit, marks a floor, is the house number, or names the state.
pub read_query_tokens-Accounted :
    (env : Setting) (tokens : List Text) (f : Fields)
    → Accounted env
        (read_query_tokens env 0 none tokens false f).0
        0
        none
        tokens
        (read_query_tokens env 0 none tokens false f).1
unfolding SkipOk
read_query_tokens-Accounted env tokens f =
    read-Accounted env 0 none tokens false f (λ e. absurd (cc))
