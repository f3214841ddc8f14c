-- ===== src/OpenAddresses/Countries.antt =====
-- The countries that `open` of server/src/openaddresses.rs finds in the names of a directory.
use geocoder.Prelude.{
  ◌≡◌, refl, sym, ap, ◌∙◌, Bool, true, false, ◌||◌, List, [], ◌∷◌, ◌++◌, map, none, some, Text,
  to_lower, arith, Bool-cases, Option-cases, inl, inr,
}
use geocoder.OpenAddresses.{
  CountryCode, parse_oa_country_prefix, code_eq, contains_code, push_code, collect_codes,
}

code_eq-eq : (c d : CountryCode) → code_eq c d ≡ true → c ≡ d
code_eq-eq (a, b) (c, d) h =
    let p : a ≡ c = ground arith in let q : b ≡ d = ground arith in rw (p, q) refl

-- Whether a name of the directory, in lower case, stands for the country.
abbrev pub is_named : List Text → CountryCode → Bool
is_named [] k = false
is_named (name ∷ names) k = elim (parse_oa_country_prefix (map to_lower name)) [
  | none ↦ is_named names k
  | some code ↦ code_eq code k || is_named names k
]

-- No code stands twice.
abbrev pub Unique : List CountryCode → Type 0
Unique [] = Unit {0}
Unique (c ∷ cs) = (contains_code cs c ≡ false) × Unique cs

or_assoc : (a b c : Bool) → (a || (b || c)) ≡ ((a || b) || c)
or_assoc true b c = refl
or_assoc false b c = refl

or_right_false : (a : Bool) → (a || false) ≡ a
or_right_false true = refl
or_right_false false = refl

contains_code-append :
    (cs : List CountryCode) (c k : CountryCode)
    → contains_code (cs ++ c ∷ []) k ≡ (contains_code cs k || code_eq c k)
contains_code-append [] c k = or_right_false (code_eq c k)
contains_code-append (d ∷ cs) c k =
    ap (λ b. code_eq d k || b) (contains_code-append cs c k)
    ∙ or_assoc (code_eq d k) (contains_code cs k) (code_eq c k)

absorbed :
    (cs : List CountryCode) (c k : CountryCode)
    → contains_code cs c ≡ true
    → contains_code cs k ≡ (contains_code cs k || code_eq c k)
absorbed cs c k h = elim (Bool-cases (code_eq c k)) [
  | inl e ↦ let found : contains_code cs k ≡ true = rw (sym (code_eq-eq c k e)) h in rw found refl
  | inr e ↦ rw e (sym (or_right_false (contains_code cs k)))
]

contains_code-push_code :
    (cs : List CountryCode) (c k : CountryCode)
    → contains_code (push_code cs c) k ≡ (contains_code cs k || code_eq c k)
contains_code-push_code cs c k = elim (Bool-cases (contains_code cs c)) [
  | inl h ↦ rw h (absorbed cs c k h)
  | inr h ↦ rw h (contains_code-append cs c k)
]

append-Unique :
    (cs : List CountryCode) (c : CountryCode)
    → Unique cs
    → contains_code cs c ≡ false
    → Unique (cs ++ c ∷ [])
append-Unique [] c u h = (refl, tt)
append-Unique (d ∷ cs) c (new, u) h =
    let apart : code_eq c d ≡ false = ground arith in
    let rest : contains_code cs c ≡ false = ground arith in
    (rw (contains_code-append cs c d, new) apart, append-Unique cs c u rest)

push_code-Unique : (cs : List CountryCode) (c : CountryCode) → Unique cs → Unique (push_code cs c)
push_code-Unique cs c u = elim (Bool-cases (contains_code cs c)) [
  | inl h ↦ rw h u
  | inr h ↦ rw h (append-Unique cs c u h)
]

collect_codes-Unique :
    (names : List Text) (cs : List CountryCode) → Unique cs → Unique (collect_codes names cs)
unfolding collect_codes
collect_codes-Unique [] cs u = u
collect_codes-Unique (name ∷ names) cs u =
    elim (Option-cases (parse_oa_country_prefix (map to_lower name))) [
      | inl e ↦ rw (Unique, e) (collect_codes-Unique names cs u)
      | inr (c, e) ↦
          rw (Unique, e) (collect_codes-Unique names (push_code cs c) (push_code-Unique cs c u))
    ]

collect_codes-is_named :
    (names : List Text) (cs : List CountryCode) (k : CountryCode)
    → contains_code (collect_codes names cs) k ≡ (contains_code cs k || is_named names k)
unfolding collect_codes
collect_codes-is_named [] cs k = sym (or_right_false (contains_code cs k))
collect_codes-is_named (name ∷ names) cs k =
    elim (Option-cases (parse_oa_country_prefix (map to_lower name))) [
      | inl e ↦ rw (contains_code, is_named, e) (collect_codes-is_named names cs k)
      | inr (c, e) ↦
          rw (contains_code, is_named, e)
            (collect_codes-is_named names (push_code cs c) k
              ∙ ap (λ b. b || is_named names k) (contains_code-push_code cs c k)
              ∙ sym (or_assoc (contains_code cs k) (code_eq c k) (is_named names k)))
    ]

-- The countries that are opened are exactly those that some name in the directory stands for in
-- lower case, each of them once.
pub collect_codes_lem :
    (names : List Text)
    → Unique (collect_codes names [])
      × ((k : CountryCode) → contains_code (collect_codes names []) k ≡ is_named names k)
collect_codes_lem names = (collect_codes-Unique names [] tt, λ k. collect_codes-is_named names [] k)
