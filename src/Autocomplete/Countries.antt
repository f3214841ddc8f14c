-- ===== src/Autocomplete/Countries.antt =====
-- The countries that server/src/autocomplete.rs finds in the keys of the unified map. A key is the list
-- of its bytes; a set is the list of what was inserted.
use geocoder.Prelude.{
  ℕ, ◌≡◌, refl, sym, ap, ◌∙◌, Bool, true, false, ◌&&◌, ◌||◌, List, [], ◌∷◌, Option, none, some,
  ◌==◌, to_lower, Bool-cases, inl, inr, arith,
}
use geocoder.Bytes.{Bytes}

-- A code of two bytes.
abbrev pub Code : Type 0
Code = ℕ × ℕ

abbrev pub code_eq : Code → Code → Bool
code_eq a b = (a.0 == b.0) && (a.1 == b.1)

abbrev pub lower : Code → Code
lower cc' = (to_lower cc'.0, to_lower cc'.1)

unfoldable pub contains_code : List Code → Code → Bool
contains_code [] cc' = false
contains_code (k ∷ set) cc' = code_eq k cc' || contains_code set cc'

abbrev pub is_last : Option Code → Code → Bool
is_last none cc' = false
is_last (some k) cc' = code_eq cc' k

-- The loop of `collect_countries`, which inserts a code unless it is that of the key before.
unfoldable pub collect : List Bytes → List Code → Option Code → List Code
collect [] out last = out
collect ([] ∷ keys) out last = collect keys out last
collect ((a ∷ []) ∷ keys) out last = collect keys out last
collect ((a ∷ b ∷ key) ∷ keys) out last = elim (is_last last (a, b)) [
  | true ↦ collect keys out last
  | false ↦ collect keys ((a, b) ∷ out) (some (a, b))
]

unfoldable pub collect_countries : List Bytes → List Code
unfolding collect
collect_countries keys = collect keys [] none

-- `has_country` of the unified map.
unfoldable pub has_country : List Code → Code → Bool
unfolding contains_code to_lower
has_country countries cc' = contains_code countries (lower cc')

-- A key of two bytes or more that begins with the code.
abbrev pub is_of : Code → Bytes → Bool
is_of cc' [] = false
is_of cc' (a ∷ []) = false
is_of cc' (a ∷ b ∷ key) = code_eq (a, b) cc'

abbrev pub any_of : Code → List Bytes → Bool
any_of cc' [] = false
any_of cc' (key ∷ keys) = is_of cc' key || any_of cc' keys

abbrev Known : List Code → Option Code → Type 0
Known out none = Unit {0}
Known out (some k) = contains_code out k ≡ true

code_of_eq : (k cc' : Code) → code_eq k cc' ≡ true → k ≡ cc'
code_of_eq (a, b) (k, l) h =
    let same_a : a ≡ k = ground (arith, h) in
    let same_b : b ≡ l = ground (arith, h) in λ i. (same_a i, same_b i)

code_eq_refl : (k : Code) → code_eq k k ≡ true
code_eq_refl (a, b) = ground arith

last-Known :
    (last : Option Code) (out : List Code) (k : Code)
    → is_last last k ≡ true
    → Known out last
    → contains_code out k ≡ true
last-Known none out k e h = absurd (cc)
last-Known (some l) out k e h = ap (contains_code out) (code_of_eq k l e) ∙ h

absorbed : (o c r x : Bool) → (c ≡ true → o ≡ true) → x ≡ (o || r) → x ≡ (o || (c || r))
absorbed true c r x h e = e
absorbed false false r x h e = e
absorbed false true r x h e = absurd (cc (h refl))

moved : (o c r : Bool) → ((c || o) || r) ≡ (o || (c || r))
moved true true r = refl
moved true false r = refl
moved false true r = refl
moved false false r = refl

or_no : (o : Bool) → o ≡ (o || false)
or_no true = refl
or_no false = refl

collect_contains :
    (keys : List Bytes) (out : List Code) (last : Option Code) (cc' : Code)
    → Known out last
    → contains_code (collect keys out last) cc' ≡ (contains_code out cc' || any_of cc' keys)
unfolding collect contains_code
collect_contains [] out last cc' h = or_no (contains_code out cc')
collect_contains ([] ∷ keys) out last cc' h = collect_contains keys out last cc' h
collect_contains ((a ∷ []) ∷ keys) out last cc' h = collect_contains keys out last cc' h
collect_contains ((a ∷ b ∷ key) ∷ keys) out last cc' h = elim (Bool-cases (is_last last (a, b))) [
  | inl e ↦
      rw (collect, e)
        (absorbed (contains_code out cc') (code_eq (a, b) cc') (any_of cc' keys) _
          (λ same.
            ap (contains_code out) (sym (code_of_eq (a, b) cc' same))
            ∙ last-Known last out (a, b) e h)
          (collect_contains keys out last cc' h))
  | inr e ↦
      rw (collect, e)
        (collect_contains keys ((a, b) ∷ out) (some (a, b)) cc'
            (rw (contains_code, code_eq_refl (a, b)) refl)
          ∙ moved (contains_code out cc') (code_eq (a, b) cc') (any_of cc' keys))
]

-- A country is covered by the unified map exactly when some key of two bytes or more begins with its
-- code in lower case, in whatever order the keys come.
pub has_country-collect_countries :
    (keys : List Bytes) (cc' : Code)
    → has_country (collect_countries keys) cc' ≡ any_of (lower cc') keys
unfolding has_country collect_countries contains_code
has_country-collect_countries keys cc' = collect_contains keys [] none (lower cc') tt
