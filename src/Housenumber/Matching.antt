-- ===== src/Housenumber/Matching.antt =====
-- `housenumber_matches` of server/src/housenumber.rs against the rules in that file's comments.
use geocoder.Prelude.{
  ℕ, ◌≤◌, min, max, ◌≡◌, refl, ◌≢◌, ◌⊎◌, inl, inr, true, false, Bool, ◌&&◌, [], ◌∷◌, ◌++◌, some,
  arith, Text, All, ◌↔◌, eq_ignore_case, Bool-cases, Option-cases, if◌then◌else◌, leb,
}
use geocoder.Housenumber.{ParsedHn, parse_hn, ranges_overlap, suffix_allows, housenumber_matches}
use geocoder.Housenumber.Digits.{IsDigit, value}
use geocoder.Housenumber.Parse.{IsRange, IsNumber, parse_hn-IsRange, parse_hn_single, parse_hn_span}

-- A building number that lies in both ranges.
abbrev pub Common : ParsedHn → ParsedHn → Type 0
Common q s = (n : ℕ) × (q.first ≤ n) × (n ≤ q.last) × (s.first ≤ n) × (n ≤ s.last)

-- The suffix discipline: a query without a suffix is free; one with a suffix wants the same suffix,
-- or a range of several numbers without a suffix.
abbrev pub Allowed : ParsedHn → ParsedHn → Type 0
Allowed q s =
    (q.suffix ≡ [])
    ⊎ ((s.suffix ≡ []) × (s.first ≢ s.last))
    ⊎ ((s.suffix ≢ []) × (eq_ignore_case q.suffix s.suffix ≡ true))

-- Both texts are read, the suffixes allow the match, and the ranges share a number.
abbrev pub Overlaps : Text → Text → Type 0
Overlaps query stored =
    (q s : ParsedHn) × (parse_hn query ≡ some q)
    × (parse_hn stored ≡ some s)
    × Allowed q s
    × Common q s

overlap-Common :
    (q s : ParsedHn)
    → ranges_overlap (q.first, q.last) (s.first, s.last) ≡ true
    → IsRange q
    → IsRange s
    → Common q s
unfolding ranges_overlap
overlap-Common q s h rq rs =
    (max q.first s.first, omega arith, ground arith, omega arith, ground arith)

Common-overlap :
    (q s : ParsedHn) → Common q s → ranges_overlap (q.first, q.last) (s.first, s.last) ≡ true
unfolding ranges_overlap
Common-overlap q s (n, a, b, c, d) = ground arith

allows-Allowed : (q s : ParsedHn) → suffix_allows q s ≡ true → Allowed q s
unfolding suffix_allows
allows-Allowed q s h = ground arith

Allowed-allows : (q s : ParsedHn) → Allowed q s → suffix_allows q s ≡ true
unfolding suffix_allows
Allowed-allows q s h = ground arith

and-split : (a b : Bool) → (a && b) ≡ true → (a ≡ true) × (b ≡ true)
and-split a b h = ground arith

matches→Overlaps :
    (query stored : Text)
    → housenumber_matches query stored ≡ true
    → (eq_ignore_case query stored ≡ true) ⊎ Overlaps query stored
unfolding housenumber_matches
matches→Overlaps query stored h = elim (Bool-cases (eq_ignore_case query stored)) [
  | inl same ↦ inl same
  | inr other ↦ elim (Option-cases (parse_hn query)) [
    | inl e ↦ absurd (cc (rw (other, e) at h))
    | inr (q, e) ↦ elim (Option-cases (parse_hn stored)) [
      | inl f ↦ absurd (cc (rw (other, e, f) at h))
      | inr (s, f) ↦
          let (a, o) = and-split _ _ (rw (other, e, f) at h) in
          inr (
            q,
            s,
            e,
            f,
            allows-Allowed q s a,
            overlap-Common q s o (parse_hn-IsRange query e) (parse_hn-IsRange stored f),
          )
    ]
  ]
]

Overlaps→matches :
    (query stored : Text) → Overlaps query stored → housenumber_matches query stored ≡ true
unfolding housenumber_matches
Overlaps→matches query stored (q, s, e, f, a, c) = elim (Bool-cases (eq_ignore_case query stored)) [
  | inl same ↦ rw same
  | inr other ↦ rw (other, e, f, Allowed-allows q s a, Common-overlap q s c)
]

-- A query matches exactly when the texts agree up to ASCII case, or both are read as ranges that
-- share a building number and the suffixes allow it: the query has no suffix, or the stored one is
-- a range of several numbers without a suffix, or both suffixes agree up to ASCII case.
pub housenumber_matches_iff :
    (query stored : Text)
    → (housenumber_matches query stored ≡ true)
      ↔ ((eq_ignore_case query stored ≡ true) ⊎ Overlaps query stored)
unfolding housenumber_matches
housenumber_matches_iff query stored = (
  matches→Overlaps query stored,
  λ h. elim h [ inl same ↦ rw same | inr o ↦ Overlaps→matches query stored o ],
)

eq_ignore_case_symm : (s t : Text) → eq_ignore_case s t ≡ eq_ignore_case t s
unfolding eq_ignore_case
eq_ignore_case_symm [] [] = refl
eq_ignore_case_symm [] (d ∷ t) = refl
eq_ignore_case_symm (c ∷ s) [] = refl
eq_ignore_case_symm (c ∷ s) (d ∷ t) = ground (arith, eq_ignore_case_symm s t)

digits_ne_span : (ds as' es : Text) → All IsDigit ds → eq_ignore_case ds (as' ++ b'-' ∷ es) ≡ false
unfolding eq_ignore_case
digits_ne_span [] [] es h = refl
digits_ne_span [] (c ∷ as') es h = refl
digits_ne_span (d ∷ ds) [] es (hd, h) = ground arith
digits_ne_span (d ∷ ds) (c ∷ as') es (hd, h) = ground (arith, digits_ne_span ds as' es h)

module _ (ns ds es : Text) (hn : IsNumber ns) (hd : IsNumber ds) (he : IsNumber es) where
  -- A plain number matches a stored range of plain numbers exactly when it lies between the two
  -- ends, in whichever order the range names them.
  pub matches_span : housenumber_matches ns (ds ++ b'-' ∷ es) ≡ (
      leb (min (value 0 ds) (value 0 es)) (value 0 ns)
      && leb (value 0 ns) (max (value 0 ds) (value 0 es)))
  unfolding housenumber_matches ranges_overlap suffix_allows
  matches_span =
      rw (digits_ne_span ns ds es hn.digits, parse_hn_single ns hn, parse_hn_span ds es hd he)
        (ground arith)

matches_parsed :
    (a b : Text) {p q : ParsedHn}
    → parse_hn a ≡ some p
    → parse_hn b ≡ some q
    → housenumber_matches a b ≡ (
        if eq_ignore_case a b
        then true
        else suffix_allows p q && ranges_overlap (p.first, p.last) (q.first, q.last))
unfolding housenumber_matches
matches_parsed a b e f = rw (e, f)

no_suffix_symm :
    (p q : ParsedHn)
    → p.suffix ≡ []
    → q.suffix ≡ []
    → (suffix_allows p q && ranges_overlap (p.first, p.last) (q.first, q.last))
      ≡ (suffix_allows q p && ranges_overlap (q.first, q.last) (p.first, p.last))
unfolding suffix_allows ranges_overlap
no_suffix_symm p q hp hq = ground arith

-- Between two texts that are read without suffixes the test is symmetric.
pub housenumber_matches_symm :
    (a b : Text) {p q : ParsedHn}
    → parse_hn a ≡ some p
    → parse_hn b ≡ some q
    → p.suffix ≡ []
    → q.suffix ≡ []
    → housenumber_matches a b ≡ housenumber_matches b a
housenumber_matches_symm a b {p} {q} e f hp hq = rw (
  matches_parsed a b e f,
  matches_parsed b a f e,
  eq_ignore_case_symm a b,
  no_suffix_symm p q hp hq,
)

-- A number with a suffix never matches a different text that is read as one number without a suffix.
pub suffix_blocks_single :
    (query stored : Text) {q s : ParsedHn}
    → eq_ignore_case query stored ≡ false
    → parse_hn query ≡ some q
    → parse_hn stored ≡ some s
    → q.suffix ≢ []
    → s.suffix ≡ []
    → s.first ≡ s.last
    → housenumber_matches query stored ≡ false
unfolding housenumber_matches suffix_allows
suffix_blocks_single query stored {q} {s} ne e f hq hs single = rw (ne, e, f) (ground arith)
