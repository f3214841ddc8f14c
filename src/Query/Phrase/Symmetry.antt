-- ===== src/Query/Phrase/Symmetry.antt =====
-- `canonicalise_phrase` and `tokenize_user_input` of server/src/forward.rs spell the same words alike.
use geocoder.Prelude.{
  ℕ, zero, suc, ◌+◌, ◌<◌, ◌≡◌, refl, ap, sym, ◌∙◌, Bool, true, false, not, ◌&&◌, List, [], ◌∷◌, map,
  Option, none, some, if◌then◌else◌, ltb, ◌==◌, length, arith, All, is_whitespace, ◌>>=◌, Text,
  codes, text_eq, to_lower,
}
use geocoder.Strings.Unicode.{CharTables}
use geocoder.Strings.Tables.{lookup_text}
use geocoder.Autocomplete.Abbreviations.{nonempty}
use geocoder.Strings.Pieces.{split_by, split_whitespace, join}
use geocoder.Query.Words.{
  street_type_abbreviations, canonicalise_token, is_directional, rposition, street_st_position,
}
use geocoder.Query.Tokens.{
  set_token, token_at_is, apply_place_abbreviation_fold, lowercase_all, token_of, tokens_of,
  spell_street, component_words,
}
use geocoder.Query.Freeform.{is_at}
use geocoder.Query.Phrase.{key_of, phrase_words, spelled_out, or_word}
use geocoder.Query.Phrase.Words.{
  spelled, token_at, phrase_word-last, phrase_word-inner, token_at-directional,
}

-- The words from index `i` on, and their tokens with "St" at its place written out.
abbrev tokens_at : ℕ → ℕ → List Text → List Text
tokens_at len i [] = []
tokens_at len i (w ∷ ws) = token_at len i w ∷ tokens_at len (suc i) ws

abbrev spelled_from : Option ℕ → ℕ → List Text → List Text
spelled_from st_at i [] = []
spelled_from st_at i (t ∷ ts) = spelled (is_at st_at i) t ∷ spelled_from st_at (suc i) ts

-- The loop is the fold of the leading place words over the tokens.
phrase_words-fold :
    (st_at : Option ℕ) (len i : ℕ) (ws : List Text)
    → map key_of ws ≡ ws
    → len ≡ i + length ws
    → phrase_words st_at len i ws
      ≡ apply_place_abbreviation_fold (spelled_from st_at i (tokens_at len i ws))
unfolding phrase_words apply_place_abbreviation_fold
phrase_words-fold st_at len i [] plain size = refl
phrase_words-fold st_at len i (w ∷ []) plain size =
    ap (λ t. t ∷ []) (phrase_word-last st_at len i w (cc) (ground arith))
phrase_words-fold st_at len i (w ∷ v ∷ ws) plain size =
    let goes_on : (suc i == len) ≡ false = ground arith in
    let rest = phrase_words-fold st_at len (suc i) (v ∷ ws) (cc) (omega arith) in
    let here = phrase_word-inner st_at len i w (cc) goes_on in λ j. here j ∷ rest j

spelled_from-past : (pos i : ℕ) (ts : List Text) → (pos < i) → spelled_from (some pos) i ts ≡ ts
spelled_from-past pos i [] h = refl
spelled_from-past pos i (t ∷ ts) h =
    let other : (pos == i) ≡ false = ground arith in
    let rest = spelled_from-past pos (suc i) ts (omega arith) in rw (other, rest) refl

spelled_from-none : (i : ℕ) (ts : List Text) → spelled_from none i ts ≡ ts
spelled_from-none i [] = refl
spelled_from-none i (t ∷ ts) = ap (λ us. t ∷ us) (spelled_from-none (suc i) ts)

if-cons :
    (c : Bool) (t : Text) (us ts : List Text)
    → (if c then t ∷ us else t ∷ ts) ≡ t ∷ (if c then us else ts)
if-cons true t us ts = refl
if-cons false t us ts = refl

cons-if :
    (c : Bool) (t u : Text) (ts : List Text)
    → (if c then t ∷ ts else u ∷ ts) ≡ (if c then t else u) ∷ ts
cons-if true t u ts = refl
cons-if false t u ts = refl

set_token-spelled_from :
    (pos i k : ℕ) (ts : List Text)
    → k ≡ pos + i
    → (if token_at_is (codes "st") pos ts then set_token pos (codes "street") ts else ts)
      ≡ spelled_from (some k) i ts
set_token-spelled_from pos i k [] place = refl
set_token-spelled_from zero i k (t ∷ ts) place =
    let here : (k == i) ≡ true = ground arith in
    let rest = spelled_from-past k (suc i) ts (omega arith) in
    rw (here, rest) (cons-if (text_eq t (codes "st")) (codes "street") t ts)
set_token-spelled_from (suc pos) i k (t ∷ ts) place =
    let other : (k == i) ≡ false = ground arith in
    let rest = set_token-spelled_from pos (suc i) k ts (omega arith) in
    if-cons (token_at_is (codes "st") pos ts) t (set_token pos (codes "street") ts) ts
    ∙ ap (λ us. t ∷ us) rest
    ∙ ap (λ b. spelled b t ∷ spelled_from (some k) (suc i) ts) (sym other)

-- The place of "St" is the same among the tokens.
rposition-tokens_at :
    (len i : ℕ) (ws : List Text)
    → rposition (λ w. not (is_directional (map to_lower w))) (tokens_at len i ws)
      ≡ rposition (λ w. not (is_directional (map to_lower w))) ws
unfolding rposition
rposition-tokens_at len i [] = refl
rposition-tokens_at len i (w ∷ ws) =
    let rest = rposition-tokens_at len (suc i) ws in
    let here = token_at-directional len i w in
    λ j. elim (rest j) [ some k ↦ some (suc k) | none ↦ if not (here j) then some 0 else none ]

street_st_position-tokens_at :
    (len : ℕ) (ws : List Text) → street_st_position (tokens_at len 0 ws) ≡ street_st_position ws
unfolding street_st_position
street_st_position-tokens_at len ws =
    ap (λ r. r >>= λ end. if ltb 0 end then some end else none) (rposition-tokens_at len 0 ws)

elim-or_word : (l : Option Text) (w : Text) → (elim l [ none ↦ w | some full ↦ full ]) ≡ or_word l w
elim-or_word none w = refl
elim-or_word (some full) w = refl

canonicalise_token-or_word :
    (w : Text) → canonicalise_token w ≡ or_word (lookup_text street_type_abbreviations w) w
unfolding canonicalise_token
canonicalise_token-or_word w = elim-or_word (lookup_text street_type_abbreviations w) w

canonicalise_token-later : (len i : ℕ) (w : Text) → canonicalise_token w ≡ token_at len (suc i) w
canonicalise_token-later len i w =
    let later : (suc i == 0) ≡ false = ground arith in rw (later) (canonicalise_token-or_word w)

first-token :
    (leads doctor : Bool) (w : Text)
    → (if leads && doctor then codes "doctor" else canonicalise_token w) ≡ (
        if doctor && leads
        then codes "doctor"
        else or_word (lookup_text street_type_abbreviations w) w)
first-token true true w = refl
first-token true false w = canonicalise_token-or_word w
first-token false true w = canonicalise_token-or_word w
first-token false false w = canonicalise_token-or_word w

-- Two tests that agree on a text cut it alike.
split_by-same : (p q : ℕ → Bool) (s : Text) → All (λ c. p c ≡ q c) s → split_by p s ≡ split_by q s
unfolding split_by
split_by-same p q [] same = refl
split_by-same p q (c ∷ s) (here, others) =
    let rest = split_by-same p q s others in
    λ j.
      if here j then [] ∷ rest j else elim (rest j) [ [] ↦ (c ∷ []) ∷ [] | w ∷ ws ↦ (c ∷ w) ∷ ws ]

module _ (tables : CharTables) where
  token_of-later :
      (len i : ℕ) (ws : List Text)
      → map (lowercase_all tables) ws ≡ ws
      → map (token_of tables false) ws ≡ tokens_at len (suc i) ws
  unfolding token_of
  token_of-later len i [] small = refl
  token_of-later len i (w ∷ ws) small =
      let rest = token_of-later len (suc i) ws (cc) in
      let here : lowercase_all tables w ≡ w = cc in
      λ j. (ap canonicalise_token here ∙ canonicalise_token-later len i w) j ∷ rest j

  tokens_of-tokens_at :
      (ws : List Text)
      → map (lowercase_all tables) ws ≡ ws
      → tokens_of tables ws ≡ tokens_at (length ws) 0 ws
  unfolding token_of
  tokens_of-tokens_at [] small = refl
  tokens_of-tokens_at (w ∷ ws) small =
      let rest = token_of-later (suc (length ws)) 0 ws (cc) in
      let here : lowercase_all tables w ≡ w = cc in
      let leads = ltb 2 (suc (length ws)) in
      let first =
        ap (λ t. if leads && text_eq t (codes "dr") then codes "doctor" else canonicalise_token t)
          here
        ∙ first-token leads (text_eq w (codes "dr")) w in
      λ j. first j ∷ rest j

  spell_street-spelled_from :
      (ts : List Text) → spell_street tables ts ≡ spelled_from (street_st_position ts) 0 ts
  unfolding spell_street
  spell_street-spelled_from ts =
      elim (street_st_position ts)
        as (λ p.
          (elim p [
            | none ↦ ts
            | some pos ↦
                if token_at_is (codes "st") pos ts then set_token pos (codes "street") ts else ts
          ])
          ≡ spelled_from p 0 ts) [
            | none ↦ sym (spelled_from-none 0 ts)
            | some pos ↦ set_token-spelled_from pos 0 pos ts (omega arith)
          ]

  -- A name of letters, digits and whitespace alone, in small letters and without accents, is spelled
  -- for the index as the reader of a query spells it as one component: street types, Street, Doctor
  -- and the places, before either side reads the ordinals.
  pub spelled_out-component_words :
      (s : Text)
      → All (λ c. is_whitespace c ≡ not (tables.is_alphanumeric c)) s
      → map key_of (split_whitespace s) ≡ split_whitespace s
      → map (lowercase_all tables) (split_whitespace s) ≡ split_whitespace s
      → spelled_out s ≡ join (codes " ") (apply_place_abbreviation_fold (component_words tables s))
  unfolding spelled_out component_words split_whitespace
  spelled_out-component_words s plain_chars plain small =
      let ws = split_whitespace s in
      let len = length ws in
      let tokens = tokens_of-tokens_at ws small in
      let same : ws ≡ nonempty (split_by (λ c. not (tables.is_alphanumeric c)) s) =
        ap nonempty
          (split_by-same is_whitespace (λ c. not (tables.is_alphanumeric c)) s plain_chars) in
      ap (join (codes " ")) (
        phrase_words-fold (street_st_position (map key_of ws)) len 0 ws plain (omega arith)
        ∙ ap (λ st_at. apply_place_abbreviation_fold (spelled_from st_at 0 (tokens_at len 0 ws)))
            (ap street_st_position plain ∙ sym (street_st_position-tokens_at len ws))
        ∙ ap apply_place_abbreviation_fold (
            sym (spell_street-spelled_from (tokens_at len 0 ws))
            ∙ ap (spell_street tables) (sym tokens)
            ∙ ap (λ us. spell_street tables (tokens_of tables us)) same))
