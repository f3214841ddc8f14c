-- ===== src/Housenumber/Unit.antt =====
-- `parse_au_unit_address` of server/src/housenumber.rs: `<unit>/<housenumber>`.
use geocoder.Prelude.{
  ◌≡◌, refl, ◌≢◌, inl, inr, true, [], ◌∷◌, ◌++◌, some, arith, Text, All, Lacks, is_digit, all, trim,
  split_once, Option-cases, subst,
}
use geocoder.Strings.Split.{split_once_lem, split_once_sound}
use geocoder.Housenumber.{starts_with_digit, check_unit, parse_au_unit_address}
use geocoder.Housenumber.Digits.{IsDigit}

all-All : (s : Text) → all is_digit s ≡ true → All IsDigit s
all-All [] h = tt
all-All (c ∷ s) h = (ground arith, all-All s (ground arith))

All-all : (s : Text) → All IsDigit s → all is_digit s ≡ true
All-all [] h = refl
All-all (c ∷ s) (hc, hs) = rw (hc, All-all s hs)

-- A unit of one or more digits, and a house number that begins with a digit.
pub record IsUnitAddress (unit hn : Text) : Type 0 where
  pub unit_ne_nil : unit ≢ []
  pub unit_digits : All IsDigit unit
  pub hn_digit : starts_with_digit hn ≡ true

check_unit-eq :
    (l r : Text) {u h : Text} → check_unit l r ≡ some (u, h) → (l ≡ u) × (r ≡ h) × IsUnitAddress l r
unfolding check_unit
check_unit-eq [] r e = absurd (cc)
check_unit-eq (c ∷ l) [] e = absurd (cc)
check_unit-eq (c ∷ l) (d ∷ r) e = ground (arith, all-All (c ∷ l))

check_unit_lem : (l r : Text) → IsUnitAddress l r → check_unit l r ≡ some (l, r)
unfolding check_unit
check_unit_lem l r h = ground (arith, All-all l h.unit_digits)

-- What is returned stands in the input around its first slash, up to whitespace: a unit of one or
-- more digits, and a house number that begins with a digit.
pub parse_au_unit_address_sound :
    (s : Text) {u h : Text}
    → parse_au_unit_address s ≡ some (u, h)
    → (left right : Text) × (trim s ≡ left ++ b'/' ∷ right)
      × Lacks b'/' left
      × (trim left ≡ u)
      × (trim right ≡ h)
      × IsUnitAddress u h
unfolding parse_au_unit_address
parse_au_unit_address_sound s {u} {h} e = elim (Option-cases (split_once (trim s) b'/')) [
  | inl n ↦ absurd (cc (rw n at e))
  | inr ((left, right), f) ↦
      let (a, l) = split_once_sound (trim s) b'/' f in
      let (p, q, w) = check_unit-eq (trim left) (trim right) {u = u} {h = h} (rw f at e) in
      (
        left,
        right,
        a,
        l,
        p,
        q,
        subst (λ x. IsUnitAddress x h) p (subst (λ y. IsUnitAddress (trim left) y) q w),
      )
]

-- Every such address is read: around the first slash, the trimmed sides are returned. The house
-- number may hold further slashes.
pub parse_au_unit_address_lem :
    (s left right : Text)
    → trim s ≡ left ++ b'/' ∷ right
    → Lacks b'/' left
    → IsUnitAddress (trim left) (trim right)
    → parse_au_unit_address s ≡ some (trim left, trim right)
unfolding parse_au_unit_address
parse_au_unit_address_lem s left right e l h =
    rw (e, split_once_lem left right b'/' l) (check_unit_lem (trim left) (trim right) h)
