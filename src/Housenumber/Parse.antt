-- ===== src/Housenumber/Parse.antt =====
-- `parse_hn` of server/src/housenumber.rs: every result is a range of `u32`s, and what plain
-- numbers and ranges of plain numbers are read as.
use geocoder.Prelude.{
  ℕ, ◌+◌, ◌-◌, ◌*◌, ◌^◌, ◌≤◌, ◌<◌, min, max, ◌≡◌, refl, ap, ◌∙◌, ◌≢◌, inl, inr, false, [], ◌∷◌,
  ◌++◌, append-nil, Option, none, some, arith, Text, All, Lacks, is_empty, trim, trim_start,
  split_once, Bool-cases, Option-cases, lt→ltb, reverse, >>=-eq-some, reverse-append,
  reverse-reverse, append_assoc, sym,
}
use geocoder.Strings.Trim.{IsSolid, trim_of_solid, All-reverse}
use geocoder.Strings.Split.{split_once_lem, split_once-none}
use geocoder.Housenumber.{ParsedHn, scan_digits, parse_digits_and_suffix, parse_range, parse_hn}
use geocoder.Housenumber.Digits.{
  IsDigit, value, IsDigit-solid, digits-IsSolid, parse_digits_and_suffix_lem,
}

scan_digits-lt :
    (s : Text) (acc e : ℕ) {n k : ℕ} → acc < 2 ^ 32 → scan_digits s acc e ≡ some (n, k) → n < 2 ^ 32
unfolding scan_digits
scan_digits-lt [] acc e small h = ground arith
scan_digits-lt (c ∷ s) acc e {n} {k} small h =
    let m = acc * 10 + (c - b'0') in
    ground (arith, λ (p : m < 2 ^ 32). scan_digits-lt s m (e + 1) {n = n} {k = k} p)

pub parse_digits_and_suffix-lt :
    (s : Text) {n : ℕ} {suffix : Text} → parse_digits_and_suffix s ≡ some (n, suffix) → n < 2 ^ 32
unfolding parse_digits_and_suffix
parse_digits_and_suffix-lt s h = elim (Option-cases (scan_digits (trim_start s) 0 0)) [
  | inl e ↦ absurd (cc (rw e at h))
  | inr ((n, k), e) ↦ ground (arith, rw e at h, scan_digits-lt (trim_start s) 0 0 (omega arith) e)
]

-- The numbers of a range, in order and within a `u32`.
pub record IsRange (h : ParsedHn) : Type 0 where
  pub ordered : h.first ≤ h.last
  pub fits : h.last < 2 ^ 32

parse_range-IsRange :
    (o : Option (Text × Text)) (t : Text) {h : ParsedHn} → parse_range o t ≡ some h → IsRange h
unfolding parse_range
parse_range-IsRange (some (first, last)) t e =
    let ((f, fs), p, q) = >>=-eq-some (parse_digits_and_suffix (trim first)) _ e in
    let ((l, ls), p', q') = >>=-eq-some (parse_digits_and_suffix (trim last)) _ q in
    ground
      (arith, parse_digits_and_suffix-lt (trim first) p, parse_digits_and_suffix-lt (trim last) p')
parse_range-IsRange none t e =
    let ((n, suffix), p, q) = >>=-eq-some (parse_digits_and_suffix t) _ e in
    ground (arith, parse_digits_and_suffix-lt t p)

-- Whatever `parse_hn` returns is a range of `u32`s in ascending order.
pub parse_hn-IsRange : (t : Text) {h : ParsedHn} → parse_hn t ≡ some h → IsRange h
unfolding parse_hn
parse_hn-IsRange t e = elim (Bool-cases (is_empty (trim t))) [
  | inl b ↦ absurd (cc (rw b at e))
  | inr b ↦ parse_range-IsRange (split_once (trim t) b'-') (trim t) (rw b at e)
]

-- One or more digits whose value fits a `u32`.
pub record IsNumber (ds : Text) : Type 0 where
  pub nonempty : ds ≢ []
  pub digits : All IsDigit ds
  pub fits : value 0 ds < 2 ^ 32

IsDigit-IsSolid : (ds : Text) → All IsDigit ds → IsSolid ds
IsDigit-IsSolid [] h = tt
IsDigit-IsSolid (c ∷ ds) (hc, _) = IsDigit-solid c hc

digits-trim : (ds : Text) → All IsDigit ds → trim ds ≡ ds
digits-trim ds h =
    trim_of_solid ds (IsDigit-IsSolid ds h)
      (IsDigit-IsSolid (reverse ds) (All-reverse IsDigit ds h))

digits-Lacks : (ds : Text) → All IsDigit ds → Lacks b'-' ds
digits-Lacks [] h = tt
digits-Lacks (c ∷ ds) (hc, hd) = (ground arith, digits-Lacks ds hd)

trim-nil : trim [] ≡ []
unfolding trim
trim-nil = refl

-- What `parse_digits_and_suffix` reads in a number.
number_lem : (ds : Text) → IsNumber ds → parse_digits_and_suffix ds ≡ some (value 0 ds, [])
number_lem ds h =
    ap parse_digits_and_suffix (sym (append-nil ds))
    ∙ parse_digits_and_suffix_lem [] ds [] tt h.nonempty h.digits refl
    ∙ rw (lt→ltb _ _ h.fits, trim-nil)

is_empty-append : (s rest : Text) → s ≢ [] → is_empty (s ++ rest) ≡ false
is_empty-append [] rest h = absurd (h refl)
is_empty-append (c ∷ s) rest h = refl

is_empty-ne : (s : Text) → s ≢ [] → is_empty s ≡ false
is_empty-ne [] h = absurd (h refl)
is_empty-ne (c ∷ s) h = refl

-- A plain number stands for the range of itself, without a suffix.
pub parse_hn_single :
    (ds : Text)
    → IsNumber ds
    → parse_hn ds ≡ some (record { first = value 0 ds; last = value 0 ds; suffix = [] })
unfolding parse_hn
parse_hn_single ds h = rw (
  digits-trim ds h.digits,
  split_once-none ds b'-' (digits-Lacks ds h.digits),
  number_lem ds h,
  is_empty-ne ds h.nonempty,
)

reverse-ne-nil : (s : Text) → s ≢ [] → reverse s ≢ []
reverse-ne-nil s h e = h (sym (reverse-reverse s) ∙ ap reverse e)

span-trim : (ds es : Text) → IsNumber ds → IsNumber es → trim (ds ++ b'-' ∷ es) ≡ ds ++ b'-' ∷ es
span-trim ds es h k =
    trim_of_solid (ds ++ b'-' ∷ es) (digits-IsSolid ds (b'-' ∷ es) h.nonempty h.digits) (
      rw (reverse-append ds (b'-' ∷ es), reverse-append (b'-' ∷ []) es, append_assoc)
        (digits-IsSolid (reverse es) ((b'-' ∷ []) ++ reverse ds) (reverse-ne-nil es k.nonempty)
          (All-reverse IsDigit es k.digits)))

-- Two numbers around a hyphen stand for the numbers between them, in either order.
pub parse_hn_span :
    (ds es : Text)
    → IsNumber ds
    → IsNumber es
    → parse_hn (ds ++ b'-' ∷ es)
      ≡ some (record {
        first = min (value 0 ds) (value 0 es);
        last = max (value 0 ds) (value 0 es);
        suffix = [];
      })
unfolding parse_hn
parse_hn_span ds es h k = rw (
  span-trim ds es h k,
  split_once_lem ds es b'-' (digits-Lacks ds h.digits),
  digits-trim ds h.digits,
  digits-trim es k.digits,
  number_lem ds h,
  number_lem es k,
  is_empty-append ds (b'-' ∷ es) h.nonempty,
)
