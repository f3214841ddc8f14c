-- ===== src/I18n/Entities.antt =====
-- The alternate names of an entity in a file of server/src/i18n.rs that is in order.
use geocoder.Prelude.{
  ℕ, ◌≡◌, refl, ap, true, false, List, [], ◌∷◌, map, if◌then◌else◌, arith, All, Bool-cases, inl,
  inr,
}
use geocoder.I18n.{
  I18nRecord, before, entity, is_entity, skip_while, take_while, alternate, alternates_for,
}

-- No record stands behind one of a later entity.
abbrev pub InOrder : List I18nRecord → Type 0
InOrder [] = Unit {0}
InOrder (r ∷ rs) = All (λ s. before (entity s) (entity r) ≡ false) rs × InOrder rs

abbrev pub of_entity : ℕ × ℕ → List I18nRecord → List I18nRecord
of_entity key [] = []
of_entity key (r ∷ rs) = let rest = of_entity key rs in if is_entity key r then r ∷ rest else rest

before-is_entity :
    (key : ℕ × ℕ) (r : I18nRecord) → before (entity r) key ≡ true → is_entity key r ≡ false
before-is_entity (t, i) r h = ground arith

not_before_trans : (j k l : ℕ × ℕ) → before j k ≡ false → before k l ≡ false → before j l ≡ false
not_before_trans (a, b) (c, d) (e, f) h k = ground arith

-- Behind a record of a later entity no record is of the entity.
not_behind :
    (key : ℕ × ℕ) (r s : I18nRecord)
    → before (entity r) key ≡ false
    → is_entity key r ≡ false
    → before (entity s) (entity r) ≡ false
    → is_entity key s ≡ false
not_behind (t, i) r s h ne k = ground arith

none_of :
    (key : ℕ × ℕ) (rs : List I18nRecord)
    → All (λ s. is_entity key s ≡ false) rs
    → of_entity key rs ≡ []
none_of key [] h = refl
none_of key (s ∷ rs) (h, hs) = rw (h, none_of key rs hs) refl

none_behind :
    (key : ℕ × ℕ) (r : I18nRecord) (rs : List I18nRecord)
    → before (entity r) key ≡ false
    → is_entity key r ≡ false
    → All (λ s. before (entity s) (entity r) ≡ false) rs
    → All (λ s. is_entity key s ≡ false) rs
none_behind key r [] h ne a = tt
none_behind key r (s ∷ rs) h ne (b, a) = (not_behind key r s h ne b, none_behind key r rs h ne a)

none_before :
    (key : ℕ × ℕ) (r : I18nRecord) (rs : List I18nRecord)
    → before (entity r) key ≡ false
    → All (λ s. before (entity s) (entity r) ≡ false) rs
    → All (λ s. before (entity s) key ≡ false) rs
none_before key r [] h a = tt
none_before key r (s ∷ rs) h (b, a) =
    (not_before_trans (entity s) (entity r) key b h, none_before key r rs h a)

take_while-of_entity :
    (key : ℕ × ℕ) (rs : List I18nRecord)
    → InOrder rs
    → All (λ s. before (entity s) key ≡ false) rs
    → take_while (is_entity key) rs ≡ of_entity key rs
unfolding take_while
take_while-of_entity key [] o a = refl
take_while-of_entity key (r ∷ rs) (later, o) (h, a) = elim (Bool-cases (is_entity key r)) [
  | inl e ↦ rw (e, take_while-of_entity key rs o a) refl
  | inr n ↦ rw (n, none_of key rs (none_behind key r rs h n later)) refl
]

alternates-run :
    (key : ℕ × ℕ) (rs : List I18nRecord)
    → InOrder rs
    → take_while (is_entity key) (skip_while (λ rec. before (entity rec) key) rs) ≡ of_entity key rs
unfolding skip_while take_while
alternates-run key [] o = refl
alternates-run key (r ∷ rs) (later, o) = elim (Bool-cases (before (entity r) key)) [
  | inl b ↦ rw (b, before-is_entity key r b) (alternates-run key rs o)
  | inr n ↦ rw n (take_while-of_entity key (r ∷ rs) (later, o) (n, none_before key r rs n later))
]

-- In a file in order of entities the alternate names found for an entity are those of all its
-- records, in the order of the file.
pub alternates_for_lem :
    (records : List I18nRecord) (key : ℕ × ℕ)
    → InOrder records
    → alternates_for records key ≡ map alternate (of_entity key records)
unfolding alternates_for
alternates_for_lem records key o = ap (map alternate) (alternates-run key records o)
