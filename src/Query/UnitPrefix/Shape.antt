-- ===== src/Query/UnitPrefix/Shape.antt =====
-- Which queries begin with a unit and a house number for `consume_au_unit_prefix` of
-- server/src/forward.rs.
use geocoder.Prelude.{
  ℕ, ◌≡◌, refl, sym, ap, ◌∙◌, subst, ◌↔◌, Bool, true, false, ◌&&◌, [], ◌∷◌, ◌++◌, Option, none,
  some, if◌then◌else◌, ◌==◌, ==_iff, arith, Text, is_digit, is_empty, All, Bool-cases, inl, inr,
}
use geocoder.Strings.Unicode.{is_ascii_alphanumeric}
use geocoder.Query.Postcodes.{first_is}
use geocoder.Query.UnitPrefix.{
  span, is_byte_space, ends_word, consume_number, consume_slash, consume_au_unit_prefix,
}

abbrev pub Passes : (ℕ → Bool) → Text → Type 0
Passes test = All (λ c. test c ≡ true)

module _ (test : ℕ → Bool) where
  span-append : (p s : Text) → Passes test p → first_is test s ≡ false → span test (p ++ s) ≡ (p, s)
  unfolding span
  span-append [] [] h k = refl
  span-append [] (c ∷ s) h k = rw k refl
  span-append (c ∷ p) s (h, hs) k = rw (h, span-append p s hs k) refl

  span-append-eq : (s : Text) → s ≡ (span test s).0 ++ (span test s).1
  unfolding span
  span-append-eq [] = refl
  span-append-eq (c ∷ s) = elim (Bool-cases (test c)) [
    | inl h ↦ rw h (ap (λ r. c ∷ r) (span-append-eq s))
    | inr h ↦ rw h refl
  ]

  span-Passes : (s : Text) → Passes test (span test s).0
  unfolding span
  span-Passes [] = tt
  span-Passes (c ∷ s) = elim (Bool-cases (test c)) [
    | inl h ↦ rw h (h, span-Passes s)
    | inr h ↦ rw h tt
  ]

-- Spaces, the digits of the unit, spaces, a slash, spaces, the house number, which a digit begins,
-- and the rest, which is empty or begins with a space.
pub record IsUnitQuery (input unit hn rest : Text) : Type 0 where
  pub ahead : Text
  pub middle : Text
  pub after : Text
  pub spelled : input ≡ ahead ++ (unit ++ (middle ++ b'/' ∷ (after ++ (hn ++ rest))))
  pub before_space : Passes is_byte_space ahead
  pub middle_space : Passes is_byte_space middle
  pub after_space : Passes is_byte_space after
  pub unit_digits : Passes is_digit unit
  pub unit_ne : is_empty unit ≡ false
  pub hn_chars : Passes is_ascii_alphanumeric hn
  pub hn_digit : first_is is_digit hn ≡ true
  pub word_ends : ends_word rest ≡ true

-- The first character of a text that passes one test fails another.
first_fails :
    (test other : ℕ → Bool) (p s : Text)
    → ((c : ℕ) → test c ≡ true → other c ≡ false)
    → Passes test p
    → first_is other s ≡ false
    → first_is other (p ++ s) ≡ false
first_fails test other [] s apart h k = k
first_fails test other (c ∷ p) s apart (h, _) k = apart c h

first_kept : (test : ℕ → Bool) (p s : Text) → first_is test p ≡ true → first_is test (p ++ s) ≡ true
first_kept test [] s h = cc
first_kept test (c ∷ p) s h = h

number_no_space :
    (p s : Text) → first_is is_digit p ≡ true → first_is is_byte_space (p ++ s) ≡ false
number_no_space [] s h = cc
number_no_space (c ∷ p) s h = ground arith

unit_no_space :
    (p s : Text) → is_empty p ≡ false → Passes is_digit p → first_is is_byte_space (p ++ s) ≡ false
unit_no_space [] s h k = cc
unit_no_space (c ∷ p) s h (k, _) = ground arith

rest_no_letter : (s : Text) → ends_word s ≡ true → first_is is_ascii_alphanumeric s ≡ false
rest_no_letter [] h = refl
rest_no_letter (c ∷ s) h = ground arith

triple :
    {a b c d e f : Text}
    → ◌≡◌ {A = Option (Text × Text × Text)} (some (a, b, c)) (some (d, e, f))
    → (a ≡ d) × (b ≡ e) × (c ≡ f)
triple h = (cc, cc, cc)

both : (a b : Bool) → (a && b) ≡ true → (a ≡ true) × (b ≡ true)
both true b h = (refl, h)
both false b h = cc

consume-IsUnitQuery :
    {input unit hn rest : Text}
    → IsUnitQuery input unit hn rest
    → consume_au_unit_prefix input ≡ some (unit, hn, rest)
unfolding consume_au_unit_prefix consume_slash consume_number
consume-IsUnitQuery {input} {unit} {hn} {rest} q =
    let tail = q.after ++ (hn ++ rest) in
    let mid = q.middle ++ b'/' ∷ tail in
    let s1 =
      span-append is_byte_space q.ahead (unit ++ mid) q.before_space
        (unit_no_space unit mid q.unit_ne q.unit_digits) in
    let s2 = span-append is_digit unit mid q.unit_digits (
      first_fails is_byte_space is_digit q.middle (b'/' ∷ tail) (λ c h. ground arith) q.middle_space
        refl) in
    let s3 = span-append is_byte_space q.middle (b'/' ∷ tail) q.middle_space refl in
    let s4 =
      span-append is_byte_space q.after (hn ++ rest) q.after_space
        (number_no_space hn rest q.hn_digit) in
    let s5 =
      span-append is_ascii_alphanumeric hn rest q.hn_chars (rest_no_letter rest q.word_ends) in
    let d : span is_digit (span is_byte_space input).1 ≡ (unit, mid) =
      ap (λ s. span is_digit (span is_byte_space s).1) q.spelled
      ∙ ap (λ r. span is_digit r.1) s1
      ∙ s2 in
    ap (λ r. if is_empty r.0 then none else consume_slash r.0 (span is_byte_space r.1).1) d
    ∙ rw
        (
          q.unit_ne,
          s3,
          consume_slash,
          s4,
          consume_number,
          s5,
          first_kept is_digit hn rest q.hn_digit,
          q.word_ends,
        )
        refl

consume_number-some :
    (unit s : Text) {u hn rest : Text}
    → consume_number unit s ≡ some (u, hn, rest)
    → (unit ≡ u)
      × (s ≡ hn ++ rest)
      × Passes is_ascii_alphanumeric hn
      × (first_is is_digit s ≡ true)
      × (ends_word rest ≡ true)
unfolding consume_number
consume_number-some unit s {u} {hn} {rest} h =
    elim (Bool-cases (first_is is_digit s && ends_word (span is_ascii_alphanumeric s).1)) [
      | inl t ↦
          let (e1, e2, e3) = triple (rw t at h) in
          let (d, w) = both (first_is is_digit s) (ends_word (span is_ascii_alphanumeric s).1) t in
          (
            e1,
            span-append-eq is_ascii_alphanumeric s
                ∙ ap (λ p. p ++ (span is_ascii_alphanumeric s).1) e2
                ∙ ap (λ r. hn ++ r) e3,
            subst (Passes is_ascii_alphanumeric) e2 (span-Passes is_ascii_alphanumeric s),
            d,
            ap ends_word (sym e3) ∙ w,
          )
      | inr f ↦ absurd (cc (rw f at h))
    ]

hn_first :
    (hn rest : Text)
    → first_is is_digit (hn ++ rest) ≡ true
    → ends_word rest ≡ true
    → first_is is_digit hn ≡ true
hn_first [] [] h w = cc
hn_first [] (c ∷ rest) h w = ground arith
hn_first (c ∷ hn) rest h w = h

-- What stands behind the unit.
record IsSlashed (s hn rest : Text) : Type 0 where
  after : Text
  spelled : s ≡ b'/' ∷ (after ++ (hn ++ rest))
  after_space : Passes is_byte_space after
  hn_chars : Passes is_ascii_alphanumeric hn
  hn_digit : first_is is_digit hn ≡ true
  word_ends : ends_word rest ≡ true

consume_slash-some :
    (unit s : Text) {u hn rest : Text}
    → consume_slash unit s ≡ some (u, hn, rest)
    → (unit ≡ u) × IsSlashed s hn rest
unfolding consume_slash
consume_slash-some unit [] h = absurd (cc)
consume_slash-some unit (c ∷ s) {u} {hn} {rest} h = elim (Bool-cases (c == b'/')) [
  | inl t ↦
      let (e, q, chars, d, w) = consume_number-some unit (span is_byte_space s).1 (rw t at h) in
      let c_eq : c ≡ b'/' = (==_iff c b'/').0 t in
      (
        e,
        record {
          after = (span is_byte_space s).0;
          spelled =
              ap (λ x. x ∷ s) c_eq
              ∙ ap (λ r. b'/' ∷ r)
                  (span-append-eq is_byte_space s ∙ ap (λ r. (span is_byte_space s).0 ++ r) q);
          after_space = span-Passes is_byte_space s;
          hn_chars = chars;
          hn_digit = hn_first hn rest (ap (first_is is_digit) (sym q) ∙ d) w;
          word_ends = w;
        },
      )
  | inr f ↦ absurd (cc (rw f at h))
]

consume_sound :
    (input : Text) {unit hn rest : Text}
    → consume_au_unit_prefix input ≡ some (unit, hn, rest)
    → IsUnitQuery input unit hn rest
unfolding consume_au_unit_prefix
consume_sound input {unit} {hn} {rest} h =
    let start = span is_byte_space input in
    let digits = span is_digit start.1 in
    elim (Bool-cases (is_empty digits.0)) [
      | inl t ↦ absurd (cc (rw t at h))
      | inr f ↦
          let (e, q) = consume_slash-some digits.0 (span is_byte_space digits.1).1 (rw f at h) in
          record {
            ahead = start.0;
            middle = (span is_byte_space digits.1).0;
            after = q.after;
            spelled =
                span-append-eq is_byte_space input
                ∙ ap (λ r. start.0 ++ r)
                    (span-append-eq is_digit start.1
                      ∙ ap (λ r. digits.0 ++ r)
                          (span-append-eq is_byte_space digits.1
                            ∙ ap (λ r. (span is_byte_space digits.1).0 ++ r) q.spelled)
                      ∙ ap
                          (λ u.
                            u
                            ++ ((span is_byte_space digits.1).0
                                ++ b'/' ∷ (q.after ++ (hn ++ rest))))
                          e);
            before_space = span-Passes is_byte_space input;
            middle_space = span-Passes is_byte_space digits.1;
            after_space = q.after_space;
            unit_digits = subst (Passes is_digit) e (span-Passes is_digit start.1);
            unit_ne = ap is_empty (sym e) ∙ f;
            hn_chars = q.hn_chars;
            hn_digit = q.hn_digit;
            word_ends = q.word_ends;
          }
    ]

-- A unit and a house number are read off a query exactly when it begins with them and a slash
-- between, with spaces at most around the three, the unit made of digits, the house number of
-- letters and digits of which a digit is the first, and the rest empty or begun by a space.
pub consume_au_unit_prefix_iff :
    (input unit hn rest : Text)
    → (consume_au_unit_prefix input ≡ some (unit, hn, rest)) ↔ IsUnitQuery input unit hn rest
consume_au_unit_prefix_iff input unit hn rest = (consume_sound input, consume-IsUnitQuery)
