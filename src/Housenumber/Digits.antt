-- ===== src/Housenumber/Digits.antt =====
-- `parse_digits_and_suffix` of server/src/housenumber.rs: what it reads, and when it gives up.
use mathlib.Core.List.{foldl}
use geocoder.Prelude.{
  ℕ, ◌+◌, ◌-◌, ◌*◌, ◌^◌, ◌≤◌, ◌<◌, ◌≡◌, refl, ap, ◌∙◌, ◌≢◌, inl, inr, true, false, [], ◌∷◌, ◌++◌,
  none, some, arith, Text, All, is_digit, length, drop, drop-append, trim, Bool-cases,
  if◌then◌else◌, ltb, ltb→lt, ◌==◌, is_whitespace,
}
use native.Mathlib.Nat.{zero-add}
use geocoder.Strings.Trim.{IsSpace, IsSolid, trim_start-append, trim_start_of_IsSolid}
use geocoder.Housenumber.{scan_digits, parse_digits_and_suffix, starts_with_digit}

abbrev pub IsDigit : ℕ → Type 0
IsDigit c = is_digit c ≡ true

-- The number that digits spell behind `n`, with no bound.
abbrev pub value : ℕ → Text → ℕ
value = foldl (λ n c. n * 10 + (c - b'0'))

le-value : (n : ℕ) (ds : Text) → n ≤ value n ds
le-value n [] = omega arith
le-value n (c ∷ ds) = omega (arith, le-value (n * 10 + (c - b'0')) ds)

scan_digits_stop :
    (rest : Text) (acc e : ℕ)
    → starts_with_digit rest ≡ false
    → scan_digits rest acc e ≡ some (acc, e)
unfolding scan_digits
scan_digits_stop [] acc e h = refl
scan_digits_stop (c ∷ rest) acc e h = rw h

scan_digits_fits :
    (ds rest : Text) (acc e : ℕ)
    → All IsDigit ds
    → starts_with_digit rest ≡ false
    → value acc ds < 2 ^ 32
    → scan_digits (ds ++ rest) acc e ≡ some (value acc ds, e + length ds)
unfolding scan_digits
scan_digits_fits [] rest acc e _ h fits =
    scan_digits_stop rest acc e h ∙ ap (λ (k : ℕ). some (acc, k)) (omega arith)
scan_digits_fits (c ∷ ds) rest acc e (hc, hd) h fits =
    let m = acc * 10 + (c - b'0') in
    ground (arith, le-value m ds, scan_digits_fits ds rest m (e + 1) hd h fits)

scan_digits_overflow :
    (ds rest : Text) (acc e : ℕ)
    → acc < 2 ^ 32
    → All IsDigit ds
    → 2 ^ 32 ≤ value acc ds
    → scan_digits (ds ++ rest) acc e ≡ none
unfolding scan_digits
scan_digits_overflow [] rest acc e small _ h = absurd (omega arith)
scan_digits_overflow (c ∷ ds) rest acc e small (hc, hd) h =
    let m = acc * 10 + (c - b'0') in
    ground (arith, λ (p : m < 2 ^ 32). scan_digits_overflow ds rest m (e + 1) p hd h)

pub IsDigit-solid : (c : ℕ) → IsDigit c → is_whitespace c ≡ false
unfolding is_whitespace
IsDigit-solid c h = ground arith

pub digits-IsSolid : (ds rest : Text) → ds ≢ [] → All IsDigit ds → IsSolid (ds ++ rest)
digits-IsSolid [] rest ne h = absurd (ne refl)
digits-IsSolid (c ∷ ds) rest ne (hc, _) = IsDigit-solid c hc

ne_nil-length : (ds : Text) (e : ℕ) → ds ≢ [] → (e + length ds == 0) ≡ false
ne_nil-length [] e h = absurd (h refl)
ne_nil-length (c ∷ ds) e h = ground arith

drop_digits : (ds rest : Text) → drop (0 + length ds) (ds ++ rest) ≡ rest
drop_digits ds rest = rw zero-add (drop-append ds rest)

-- A text of whitespace, digits and a rest that no digit begins is read as the true value of the
-- digits and the trimmed rest, when the value fits a `u32`; otherwise nothing is read.
pub parse_digits_and_suffix_lem :
    (w ds rest : Text)
    → All IsSpace w
    → ds ≢ []
    → All IsDigit ds
    → starts_with_digit rest ≡ false
    → parse_digits_and_suffix (w ++ (ds ++ rest))
      ≡ (if ltb (value 0 ds) (2 ^ 32) then some (value 0 ds, trim rest) else none)
unfolding parse_digits_and_suffix
parse_digits_and_suffix_lem w ds rest hw ne hd h =
    rw
      (
        trim_start-append w (ds ++ rest) hw,
        trim_start_of_IsSolid (ds ++ rest) (digits-IsSolid ds rest ne hd),
      )
      (elim (Bool-cases (ltb (value 0 ds) (2 ^ 32))) [
        | inl fits ↦ rw (
          fits,
          scan_digits_fits ds rest 0 0 hd h (ltb→lt _ _ fits),
          ne_nil-length ds 0 ne,
          drop_digits ds rest,
        )
        | inr big ↦ rw (big, scan_digits_overflow ds rest 0 0 (omega arith) hd (ground arith))
      ])

-- A text whose first character behind the whitespace is no digit is not read.
pub parse_digits_and_suffix-none :
    (w rest : Text)
    → All IsSpace w
    → IsSolid rest
    → starts_with_digit rest ≡ false
    → parse_digits_and_suffix (w ++ rest) ≡ none
unfolding parse_digits_and_suffix
parse_digits_and_suffix-none w rest hw hr h =
    rw (trim_start-append w rest hw, trim_start_of_IsSolid rest hr, scan_digits_stop rest 0 0 h)
