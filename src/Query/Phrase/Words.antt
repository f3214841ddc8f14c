-- ===== src/Query/Phrase/Words.antt =====
-- One word of `canonicalise_phrase` of server/src/forward.rs.
use geocoder.Prelude.{
  ℕ, suc, ◌≡◌, refl, ap, sym, subst, ◌∙◌, Bool, true, false, ◌&&◌, map, Option, none, some,
  if◌then◌else◌, ltb, ◌==◌, Text, codes, text_eq, to_lower,
}
use geocoder.Strings.Tables.{lookup_text}
use geocoder.Postcode.Pool.{text_eq-eq}
use geocoder.Autocomplete.Abbreviations.{map_word}
use geocoder.Query.Words.{street_type_abbreviations, is_directional}
use geocoder.Query.Freeform.{is_at}
use geocoder.Query.Phrase.{place_words, key_of, or_word, phrase_word}
use geocoder.Query.Phrase.Rows.{
  Fits, table-Fits, and_first, and_second, place_word-map_word, row_ok-map_word, row_ok-not_st,
  row_ok-not_directional,
}

-- "St" at its place is Street.
abbrev pub spelled : Bool → Text → Text
spelled b t = if b && text_eq t (codes "st") then codes "street" else t

abbrev chosen : Bool → Bool → Option Text → Text → Text
chosen street doctor l word =
    if street then codes "street" else if doctor then codes "doctor" else or_word l word

phrase_word-chosen :
    (st_at : Option ℕ) (len i : ℕ) (w : Text)
    → key_of w ≡ w
    → phrase_word st_at len i w
      ≡ chosen
          (is_at st_at i && text_eq w (codes "st"))
          ((i == 0) && text_eq w (codes "dr") && ltb 2 len)
          (lookup_text street_type_abbreviations w)
          (if suc i == len then w else or_word (lookup_text place_words w) w)
unfolding phrase_word
phrase_word-chosen st_at len i w plain =
    ap
      (λ key.
        chosen (is_at st_at i && text_eq key (codes "st"))
          ((i == 0) && text_eq key (codes "dr") && ltb 2 len)
          (lookup_text street_type_abbreviations key)
          (if suc i == len then w else or_word (lookup_text place_words key) w))
      plain

text_eq-dr : (w : Text) → text_eq w (codes "dr") ≡ true → text_eq w (codes "st") ≡ false
unfolding text_eq
text_eq-dr w e =
    subst (λ t. text_eq t (codes "st") ≡ false) (sym (text_eq-eq w (codes "dr") e)) refl

spelled-chosen :
    (b d : Bool) (w : Text) (l : Option Text)
    → Fits w l
    → (d ≡ true → text_eq w (codes "dr") ≡ true)
    → spelled b (if d then codes "doctor" else or_word l w)
      ≡ chosen (b && text_eq w (codes "st")) d l w
unfolding Fits text_eq
spelled-chosen true true w l ok dr = ap (λ s. chosen s true l w) (sym (text_eq-dr w (dr refl)))
spelled-chosen false true w l ok dr = refl
spelled-chosen b false w none ok dr = refl
spelled-chosen b false w (some full) ok dr =
    let (not_full, not_w) = row_ok-not_st w full (ok full refl) in
    subst (λ c. spelled b full ≡ chosen (b && c) false (some full) w) (sym not_w)
      (subst
        (λ c. (if b && c then codes "street" else full) ≡ chosen (b && false) false (some full) w)
        (sym not_full) refl)

map_word-chosen :
    (s d : Bool) (w : Text) (l : Option Text)
    → Fits w l
    → map_word (chosen s d l w) ≡ chosen s d l (map_word w)
unfolding map_word text_eq Fits
map_word-chosen true d w l ok = refl
map_word-chosen false true w l ok = refl
map_word-chosen false false w none ok = refl
map_word-chosen false false w (some full) ok =
    text_eq-eq (map_word full) full (row_ok-map_word w full (ok full refl))

-- A first "dr" of more than two words.
abbrev pub is_doctor : ℕ → ℕ → Text → Bool
is_doctor len i w = (i == 0) && text_eq w (codes "dr") && ltb 2 len

abbrev pub token_at : ℕ → ℕ → Text → Text
token_at len i w =
    if is_doctor len i w
    then codes "doctor"
    else or_word (lookup_text street_type_abbreviations w) w

is_doctor-dr : (len i : ℕ) (w : Text) → is_doctor len i w ≡ true → text_eq w (codes "dr") ≡ true
is_doctor-dr len i w h =
    and_second (i == 0) (text_eq w (codes "dr"))
      (and_first ((i == 0) && text_eq w (codes "dr")) (ltb 2 len) h)

spelled-token_at :
    (b : Bool) (len i : ℕ) (w : Text)
    → spelled b (token_at len i w)
      ≡ chosen
          (b && text_eq w (codes "st"))
          (is_doctor len i w)
          (lookup_text street_type_abbreviations w)
          w
spelled-token_at b len i w =
    spelled-chosen b (is_doctor len i w) w (lookup_text street_type_abbreviations w) (table-Fits w)
      (is_doctor-dr len i w)

-- The last word.
pub phrase_word-last :
    (st_at : Option ℕ) (len i : ℕ) (w : Text)
    → key_of w ≡ w
    → (suc i == len) ≡ true
    → phrase_word st_at len i w ≡ spelled (is_at st_at i) (token_at len i w)
phrase_word-last st_at len i w plain ends =
    phrase_word-chosen st_at len i w plain
    ∙ ap
        (λ c.
          chosen (is_at st_at i && text_eq w (codes "st")) (is_doctor len i w)
            (lookup_text street_type_abbreviations w)
            (if c then w else or_word (lookup_text place_words w) w))
        ends
    ∙ sym (spelled-token_at (is_at st_at i) len i w)

-- A word that others follow.
pub phrase_word-inner :
    (st_at : Option ℕ) (len i : ℕ) (w : Text)
    → key_of w ≡ w
    → (suc i == len) ≡ false
    → phrase_word st_at len i w ≡ map_word (spelled (is_at st_at i) (token_at len i w))
phrase_word-inner st_at len i w plain goes_on =
    phrase_word-chosen st_at len i w plain
    ∙ ap
        (λ c.
          chosen (is_at st_at i && text_eq w (codes "st")) (is_doctor len i w)
            (lookup_text street_type_abbreviations w)
            (if c then w else or_word (lookup_text place_words w) w))
        goes_on
    ∙ ap
        (λ v.
          chosen (is_at st_at i && text_eq w (codes "st")) (is_doctor len i w)
            (lookup_text street_type_abbreviations w) v)
        (place_word-map_word w)
    ∙ sym (
        map_word-chosen (is_at st_at i && text_eq w (codes "st")) (is_doctor len i w) w
          (lookup_text street_type_abbreviations w) (table-Fits w))
    ∙ ap map_word (sym (spelled-token_at (is_at st_at i) len i w))

or_word-directional :
    (w : Text) (l : Option Text)
    → Fits w l
    → is_directional (map to_lower (or_word l w)) ≡ is_directional (map to_lower w)
unfolding Fits
or_word-directional w none ok = refl
or_word-directional w (some full) ok = row_ok-not_directional w full (ok full refl)

doctor-directional :
    (d : Bool) (w : Text)
    → (d ≡ true → text_eq w (codes "dr") ≡ true)
    → is_directional (map to_lower (or_word (lookup_text street_type_abbreviations w) w))
      ≡ is_directional (map to_lower w)
    → is_directional (
        map to_lower
          (if d then codes "doctor" else or_word (lookup_text street_type_abbreviations w) w))
      ≡ is_directional (map to_lower w)
unfolding is_directional to_lower text_eq
doctor-directional true w dr rest =
    subst (λ t. false ≡ is_directional (map to_lower t)) (sym (text_eq-eq w (codes "dr") (dr refl)))
      refl
doctor-directional false w dr rest = rest

-- No word becomes a compass word, and none ceases to be one.
pub token_at-directional :
    (len i : ℕ) (w : Text)
    → is_directional (map to_lower (token_at len i w)) ≡ is_directional (map to_lower w)
token_at-directional len i w =
    doctor-directional (is_doctor len i w) w (is_doctor-dr len i w)
      (or_word-directional w (lookup_text street_type_abbreviations w) (table-Fits w))
