-- ===== src/Strings/Decimal/RoundTrip.antt =====
-- What `format!` writes of a number is digits, which `str::parse` reads back.
use geocoder.Prelude.{
  ℕ, zero, suc, ◌+◌, ◌-◌, ◌*◌, ◌/◌, ◌%◌, ◌≤◌, ◌<◌, ◌≡◌, refl, ap, ◌∙◌, true, false, [], ◌∷◌, ◌++◌,
  some, ltb, arith, Text, is_digit, all, is_empty, Bool-cases, inl, inr, ◌>>=◌, ltb→lt,
}
use geocoder.Strings.Decimal.{decimal_from, decimal, digits_below, parse_below}

digits_below-append :
    (bound : ℕ) (s : Text) (c n : ℕ)
    → digits_below bound (s ++ c ∷ []) n
      ≡ (digits_below bound s n >>= λ m. digits_below bound (c ∷ []) m)
unfolding digits_below
digits_below-append bound [] c n = refl
digits_below-append bound (d ∷ s) c n = elim (Bool-cases (is_digit d)) [
  | inl h ↦ elim (Bool-cases (ltb (n * 10 + (d - b'0')) bound)) [
    | inl k ↦ rw (h, k) (digits_below-append bound s c (n * 10 + (d - b'0')))
    | inr k ↦ rw (h, k) refl
  ]
  | inr h ↦ rw h refl
]

digit :
    (bound m d : ℕ)
    → d < 10
    → m * 10 + d < bound
    → digits_below bound ((b'0' + d) ∷ []) m ≡ some (m * 10 + d)
unfolding digits_below
digit bound m d h k = ground arith

digits_below-decimal_from :
    (fuel bound n : ℕ) → n ≤ fuel → n < bound → digits_below bound (decimal_from fuel n) 0 ≡ some n
unfolding decimal_from
digits_below-decimal_from zero bound n h k =
    digit bound 0 (n % 10) (omega arith) (omega arith) ∙ ap some (omega arith)
digits_below-decimal_from (suc fuel) bound n h k = elim (Bool-cases (ltb n 10)) [
  | inl small ↦ rw small (digit bound 0 n (ltb→lt _ _ small) (omega arith) ∙ ap some (omega arith))
  | inr big ↦
      rw
        (
          big,
          digits_below-append bound (decimal_from fuel (n / 10)) (b'0' + n % 10) 0,
          digits_below-decimal_from fuel bound (n / 10) (ground arith) (ground arith),
        )
        (digit bound (n / 10) (n % 10) (omega arith) (omega arith) ∙ ap some (omega arith))
]

-- A text that ends in a digit and is made of digits alone.
pub record IsNumber (s : Text) : Type 0 where
  pub front : Text
  pub last : ℕ
  pub spelled : s ≡ front ++ last ∷ []
  pub last_digit : is_digit last ≡ true
  pub digits : all is_digit s ≡ true

all-append :
    (s t : Text) → all is_digit s ≡ true → all is_digit t ≡ true → all is_digit (s ++ t) ≡ true
all-append [] t h k = k
all-append (c ∷ s) t h k = ground (arith, all-append s t)

decimal_from-IsNumber : (fuel n : ℕ) → IsNumber (decimal_from fuel n)
unfolding decimal_from
decimal_from-IsNumber zero n = record {
  front = [];
  last = b'0' + n % 10;
  spelled = refl;
  last_digit = ground arith;
  digits = ground arith;
}
decimal_from-IsNumber (suc fuel) n = elim (Bool-cases (ltb n 10)) [
  | inl small ↦ rw small (record {
    front = [];
    last = b'0' + n;
    spelled = refl;
    last_digit = ground arith;
    digits = ground arith;
  })
  | inr big ↦ rw big (record {
    front = decimal_from fuel (n / 10);
    last = b'0' + n % 10;
    spelled = refl;
    last_digit = ground arith;
    digits =
        all-append (decimal_from fuel (n / 10)) ((b'0' + n % 10) ∷ [])
          (decimal_from-IsNumber fuel (n / 10)).digits (ground arith);
  })
]

pub decimal-IsNumber : (n : ℕ) → IsNumber (decimal n)
unfolding decimal
decimal-IsNumber n = decimal_from-IsNumber n n

nil_ne : (s : Text) (c : ℕ) → ([] ≡ s ++ c ∷ []) → true ≡ false
nil_ne [] c h = cc
nil_ne (d ∷ s) c h = cc

pub IsNumber-ne : (s : Text) → IsNumber s → is_empty s ≡ false
IsNumber-ne [] h = nil_ne h.front h.last h.spelled
IsNumber-ne (c ∷ s) h = refl

pub parse_below-decimal : (bound n : ℕ) → n < bound → parse_below bound (decimal n) ≡ some n
unfolding parse_below decimal
parse_below-decimal bound n h =
    rw (IsNumber-ne (decimal_from n n) (decimal_from-IsNumber n n))
      (digits_below-decimal_from n bound n (omega arith) h)
