-- ===== src/Display/Sections.antt =====
-- `format_address` of server/src/lib.rs writes the parts of a display name.
use geocoder.Prelude.{
  ℕ, ◌≡◌, refl, sym, ap, ◌∙◌, Bool, true, false, ◌&&◌, [], ◌∷◌, ◌++◌, append-nil, append_assoc,
  reverse, reverse-append, reverse-reverse, Bool-cases, inl, inr, ◌==◌, Option, none, some,
  if◌then◌else◌, ==_refl, length, length-append, take, lt→ltb, le→ltb, ne→==, arith, codes,
  is_empty,
}
use geocoder.Bytes.{Bytes}
use geocoder.Display.Parts.{
  value, joined, add, add_state, before_city, city_line, without_space, without_last_space,
  street_line, with_line, with_country, display_name,
}
use geocoder.Display.{
  AddressDetails, format_rules, append_comma, pop_trailing_space, push_road, push_option,
  push_after, push_state, push_city_section, close_city_section, push_country, is_none,
  format_address,
}

append_comma-joined : (s t : Bytes) → append_comma s ++ t ≡ joined s t
unfolding append_comma
append_comma-joined [] t = refl
append_comma-joined (c ∷ s) t = append_assoc (c ∷ s) (codes ", ") t

push_country-with_country :
    (addr : AddressDetails) (out : Bytes) → push_country addr out ≡ with_country addr.country out
unfolding push_country
push_country-with_country addr out =
    elim addr.country
      as (λ country.
        (elim country [ none ↦ out | some s ↦ append_comma out ++ s ]) ≡ with_country country out) [
          | none ↦ refl
          | some s ↦ append_comma-joined out s
        ]

street_option :
    (number_after : Bool) (road number : Option Bytes)
    → (elim road as (λ x. Bytes) [
      | none ↦ []
      | some r ↦ elim number as (λ x. Bytes) [
        | none ↦ r
        | some hn ↦ if number_after then r ++ codes " " ++ hn else hn ++ codes " " ++ r
      ]
    ])
      ≡ street_line number_after road number
street_option number_after none number = refl
street_option number_after (some r) none = refl
street_option true (some r) (some hn) = append_assoc r (codes " ") hn
street_option false (some r) (some hn) = append_assoc hn (codes " ") r

push_road-street_line :
    (number_after : Bool) (addr : AddressDetails)
    → push_road number_after addr [] ≡ street_line number_after addr.road addr.house_number
unfolding push_road
push_road-street_line number_after addr = street_option number_after addr.road addr.house_number

push_option-append :
    (f : Option Bytes) (o l : Bytes) → push_option f (o ++ l) ≡ o ++ push_option f l
push_option-append none o l = refl
push_option-append (some s) o l = append_assoc o l s

push_after-append :
    (sep : Bytes) (f : Option Bytes) (o l : Bytes)
    → push_after sep (length o) f (o ++ l) ≡ o ++ add sep f l
push_after-append sep none o l = refl
push_after-append sep (some s) o [] =
    let nil : Bytes = [] in
    rw (le→ltb (length o) (length (o ++ [])) (omega (arith, length-append o nil)), append-nil o)
      refl
push_after-append sep (some s) o (c ∷ l) =
    rw
      (
        lt→ltb (length o) (length (o ++ c ∷ l)) (omega (arith, length-append o (c ∷ l))),
        append_assoc o (c ∷ l) sep,
      )
      (append_assoc o (c ∷ l ++ sep) s)

push_state-append :
    (b : Bool) (addr : AddressDetails) (o l : Bytes)
    → push_state b (length o) addr (o ++ l) ≡ o ++ add_state b addr l
unfolding push_state
push_state-append false addr o l = refl
push_state-append true addr o l = push_after-append (codes ", ") addr.state o l

push_option_empty : (f : Option Bytes) (o : Bytes) → push_option f o ≡ o ++ value f
push_option_empty none o = sym (append-nil o)
push_option_empty (some s) o = refl

postcode_empty :
    (f : Option Bytes) (o : Bytes)
    → elim f as (λ x. Bytes) [ none ↦ o | some pc ↦ o ++ pc ++ codes " " ] ≡ o ++ before_city f
postcode_empty none o = sym (append-nil o)
postcode_empty (some pc) o = append_assoc o pc (codes " ")

push_city_section_lem :
    (before b : Bool) (addr : AddressDetails) (o : Bytes)
    → push_city_section before b (length o) addr o ≡ o ++ city_line before b addr
unfolding push_city_section
push_city_section_lem true b addr o =
    let postcode : Bytes = before_city addr.postcode in
    ap (λ u. push_state b (length o) addr (push_option addr.city u))
      (postcode_empty addr.postcode o)
    ∙ ap (push_state b (length o) addr) (
        push_option-append addr.city o postcode
        ∙ ap (λ u. o ++ u) (push_option_empty addr.city postcode))
    ∙ push_state-append b addr o (postcode ++ value addr.city)
push_city_section_lem false b addr o =
    let line = value addr.city in
    ap (λ u. push_after (codes " ") (length o) addr.postcode (push_state b (length o) addr u))
      (push_option_empty addr.city o)
    ∙ ap (push_after (codes " ") (length o) addr.postcode) (push_state-append b addr o line)
    ∙ push_after-append (codes " ") addr.postcode o (add_state b addr line)

take-append : (s t : Bytes) → take (length s) (s ++ t) ≡ s
take-append [] t = refl
take-append (c ∷ s) t = ap (λ u. c ∷ u) (take-append s t)

pop_trailing_space-append :
    (o : Bytes) (c : ℕ) (l : Bytes)
    → pop_trailing_space (o ++ c ∷ l) ≡ o ++ pop_trailing_space (c ∷ l)
unfolding pop_trailing_space
pop_trailing_space-append [] c l = refl
pop_trailing_space-append (d ∷ []) c l = refl
pop_trailing_space-append (d ∷ e ∷ o) c l = ap (λ u. d ∷ u) (pop_trailing_space-append (e ∷ o) c l)

pop_trailing_space-reverse :
    (s : Bytes) → pop_trailing_space (reverse s) ≡ reverse (without_space s)
unfolding pop_trailing_space
pop_trailing_space-reverse [] = refl
pop_trailing_space-reverse (c ∷ s) =
    ap pop_trailing_space (reverse-append (c ∷ []) s)
    ∙ pop_trailing_space-append (reverse s) c []
    ∙ elim (Bool-cases (c == b' ')) [
      | inl space ↦ rw space (append-nil (reverse s))
      | inr other ↦ rw other (sym (reverse-append (c ∷ []) s))
    ]

pop_trailing_space_lem : (s : Bytes) → pop_trailing_space s ≡ without_last_space s
pop_trailing_space_lem s =
    ap pop_trailing_space (sym (reverse-reverse s)) ∙ pop_trailing_space-reverse (reverse s)

take-append_comma : (street : Bytes) → take (length street) (append_comma street) ≡ street
unfolding append_comma
take-append_comma [] = refl
take-append_comma (c ∷ s) = take-append (c ∷ s) (codes ", ")

close_city_section_lem :
    (street line : Bytes)
    → close_city_section
        (length street)
        (length (append_comma street))
        (append_comma street ++ line)
      ≡ with_line street line
unfolding close_city_section
close_city_section_lem street [] =
    rw (append-nil (append_comma street), ==_refl (length (append_comma street)))
      (take-append_comma street)
close_city_section_lem street (c ∷ line) =
    let o = append_comma street in
    rw
      (ne→== (length (o ++ c ∷ line)) (length o)
        (λ e. omega (arith, length-append o (c ∷ line), e)))
      (pop_trailing_space-append o c line
        ∙ append_comma-joined street (pop_trailing_space (c ∷ line))
        ∙ ap (joined street) (pop_trailing_space_lem (c ∷ line)))

-- The display name, which the code writes into one buffer and rolls back by position, is the
-- street, the line of the city without one space at its end and the country, with a comma before
-- the line and the country if something stands before them, under the rules of the country; there
-- is none when the road, the city and the country are unknown, or all that is shown is empty.
pub format_address-display_name : (addr : AddressDetails) → format_address addr ≡ display_name addr
unfolding format_address
format_address-display_name addr =
    let rules = format_rules addr.country_code in
    let street = push_road rules.0 addr [] in
    let closed =
      ap (close_city_section (length street) (length (append_comma street)))
        (push_city_section_lem rules.1 rules.2 addr (append_comma street))
      ∙ close_city_section_lem street (city_line rules.1 rules.2 addr) in
    let whole =
      push_country-with_country addr (
        close_city_section (length street) (length (append_comma street)) (
          push_city_section rules.1 rules.2 (length (append_comma street)) addr
            (append_comma street)))
      ∙ ap (with_country addr.country) (
          closed
          ∙ ap (λ u. with_line u (city_line rules.1 rules.2 addr))
              (push_road-street_line rules.0 addr)) in
    ap
      (λ out.
        if is_none addr.road && is_none addr.city && is_none addr.country
        then none
        else if is_empty out
        then none
        else some out)
      whole
