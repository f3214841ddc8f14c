-- ===== src/Autocomplete/Abbreviations/Folded.antt =====
-- `fold_place_abbreviations` of server/src/autocomplete.rs changes a folded name no more.
use geocoder.Prelude.{
  ℕ, suc, ◌||◌, ◌==◌, ◌≡◌, ◌≢◌, refl, ap, sym, ◌∙◌, subst, true, false, List, [], ◌∷◌, ◌++◌, ◌⊎◌,
  inl, inr, arith, ltb, length, is_empty, split, text_eq, codes, Text, All, Lacks, Bool-cases,
  ==_iff,
}
use geocoder.Strings.Split.{split_lem, split_last}
use geocoder.Autocomplete.Abbreviations.{
  nonempty, words, map_last, map_word, push_words, fold_place_abbreviations,
}

-- A word: not empty, and without a space.
pub record IsWord (t : Text) : Type 0 where
  pub some_letter : is_empty t ≡ false
  pub no_space : Lacks b' ' t

abbrev joined : List Text → Text
joined [] = []
joined (t ∷ []) = t
joined (t ∷ u ∷ ts) = t ++ b' ' ∷ joined (u ∷ ts)

abbrev mapped : List Text → List Text
mapped [] = []
mapped (t ∷ []) = map_last t ∷ []
mapped (t ∷ u ∷ ts) = map_word t ∷ mapped (u ∷ ts)

words-joined : (t : Text) (ts : List Text) → All IsWord (t ∷ ts) → words (joined (t ∷ ts)) ≡ t ∷ ts
unfolding words
words-joined t [] (h, _) = rw (split_last t b' ' h.no_space, h.some_letter) refl
words-joined t (u ∷ ts) (h, hs) =
    rw (split_lem t (joined (u ∷ ts)) b' ' h.no_space, h.some_letter)
      (ap (λ r. t ∷ r) (words-joined u ts hs))

push_words-joined : (ts : List Text) → push_words ts ≡ joined (mapped ts)
unfolding push_words
push_words-joined [] = refl
push_words-joined (t ∷ []) = refl
push_words-joined (t ∷ u ∷ []) = refl
push_words-joined (t ∷ u ∷ v ∷ ts) =
    ap (λ r. map_word t ++ b' ' ∷ r) (push_words-joined (u ∷ v ∷ ts))

-- What a word is mapped to: itself, or a word that is mapped to itself.
abbrev Settled : (Text → Text) → Text → Type 0
Settled f t = (f t ≡ t) ⊎ ((w : Text) × (f t ≡ w) × (f w ≡ w) × IsWord w)

map_last-Settled : (t : Text) → Settled map_last t
unfolding map_last
map_last-Settled t = elim (Bool-cases (text_eq t (codes "st"))) [
  | inl h ↦
      inr (codes "street", rw h refl, refl, record { some_letter = refl; no_space = ground arith })
  | inr h ↦ inl (rw h refl)
]

map_word-Settled : (t : Text) → Settled map_word t
unfolding map_word
map_word-Settled t =
    elim (Bool-cases (
      text_eq t (codes "saint")
      || (text_eq t (codes "sainte") || (text_eq t (codes "st") || text_eq t (codes "ste"))))) [
        | inl h ↦
            inr
              (codes "st", rw h refl, refl, record { some_letter = refl; no_space = ground arith })
        | inr h ↦ elim (Bool-cases (text_eq t (codes "mount") || text_eq t (codes "mt"))) [
          | inl m ↦ inr (
            codes "mt",
            rw (h, m) refl,
            refl,
            record { some_letter = refl; no_space = ground arith },
          )
          | inr m ↦ elim (Bool-cases (text_eq t (codes "fort") || text_eq t (codes "ft"))) [
            | inl f ↦ inr (
              codes "ft",
              rw (h, m, f) refl,
              refl,
              record { some_letter = refl; no_space = ground arith },
            )
            | inr f ↦ inl (rw (h, m, f) refl)
          ]
        ]
      ]

Settled-idem : (f : Text → Text) (t : Text) → Settled f t → f (f t) ≡ f t
Settled-idem f t (inl e) = ap f e
Settled-idem f t (inr (w, e, g, h)) = ap f e ∙ g ∙ sym e

Settled-IsWord : (f : Text → Text) (t : Text) → Settled f t → IsWord t → IsWord (f t)
Settled-IsWord f t (inl e) h = subst IsWord (sym e) h
Settled-IsWord f t (inr (w, e, g, k)) h = subst IsWord (sym e) k

mapped-IsWord : (ts : List Text) → All IsWord ts → All IsWord (mapped ts)
mapped-IsWord [] h = tt
mapped-IsWord (t ∷ []) (h, _) = (Settled-IsWord map_last t (map_last-Settled t) h, tt)
mapped-IsWord (t ∷ u ∷ ts) (h, hs) =
    (Settled-IsWord map_word t (map_word-Settled t) h, mapped-IsWord (u ∷ ts) hs)

mapped-cons :
    (t u : Text) (ts : List Text)
    → mapped (t ∷ mapped (u ∷ ts)) ≡ map_word t ∷ mapped (mapped (u ∷ ts))
mapped-cons t u [] = refl
mapped-cons t u (v ∷ ts) = refl

mapped_idem : (ts : List Text) → mapped (mapped ts) ≡ mapped ts
mapped_idem [] = refl
mapped_idem (t ∷ []) = ap (λ r. r ∷ []) (Settled-idem map_last t (map_last-Settled t))
mapped_idem (t ∷ u ∷ ts) =
    mapped-cons (map_word t) u ts
    ∙ ap (λ r. r ∷ mapped (mapped (u ∷ ts))) (Settled-idem map_word t (map_word-Settled t))
    ∙ ap (λ r. map_word t ∷ r) (mapped_idem (u ∷ ts))

length-mapped : (ts : List Text) → length (mapped ts) ≡ length ts
length-mapped [] = refl
length-mapped (t ∷ []) = refl
length-mapped (t ∷ u ∷ ts) = ap suc (length-mapped (u ∷ ts))

nonempty-IsWord : (ts : List Text) → All (Lacks b' ') ts → All IsWord (nonempty ts)
unfolding nonempty
nonempty-IsWord [] h = tt
nonempty-IsWord (t ∷ ts) (ht, h) = elim (Bool-cases (is_empty t)) [
  | inl e ↦ rw e (nonempty-IsWord ts h)
  | inr e ↦ rw e (record { some_letter = e; no_space = ht }, nonempty-IsWord ts h)
]

first_longer :
    (c : ℕ) (ps : List Text)
    → c ≢ b' '
    → All (Lacks b' ') ps
    → All (Lacks b' ') (elim ps [ [] ↦ (c ∷ []) ∷ [] | p ∷ qs ↦ (c ∷ p) ∷ qs ])
first_longer c [] n h = ((n, tt), tt)
first_longer c (p ∷ ps) n (hp, h) = ((n, hp), h)

split-Lacks : (s : Text) → All (Lacks b' ') (split s b' ')
unfolding split
split-Lacks [] = (tt, tt)
split-Lacks (c ∷ s) = elim (Bool-cases (c == b' ')) [
  | inl e ↦ rw e (tt, split-Lacks s)
  | inr e ↦
      rw e (first_longer c (split s b' ') (λ q. let t = (==_iff c b' ').1 q in cc) (split-Lacks s))
]

words-IsWord : (s : Text) → All IsWord (words s)
unfolding words
words-IsWord s = nonempty-IsWord (split s b' ') (split-Lacks s)

words-joined_several :
    (ts : List Text) → ltb (length ts) 2 ≡ false → All IsWord ts → words (joined ts) ≡ ts
words-joined_several [] n h = cc
words-joined_several (t ∷ ts) n h = words-joined t ts h

fold_few : (s : Text) → ltb (length (words s)) 2 ≡ true → fold_place_abbreviations s ≡ s
unfolding fold_place_abbreviations
fold_few s h = rw h refl

fold_several :
    (s : Text)
    → ltb (length (words s)) 2 ≡ false
    → fold_place_abbreviations s ≡ joined (mapped (words s))
unfolding fold_place_abbreviations
fold_several s h = rw h (push_words-joined (words s))

-- Folding a folded name changes nothing.
pub fold_place_abbreviations_idem :
    (s : Text) → fold_place_abbreviations (fold_place_abbreviations s) ≡ fold_place_abbreviations s
fold_place_abbreviations_idem s = elim (Bool-cases (ltb (length (words s)) 2)) [
  | inl few ↦ ap fold_place_abbreviations (fold_few s few)
  | inr several ↦
      let ps = words s in
      let long : ltb (length (mapped ps)) 2 ≡ false = rw (length-mapped ps) several in
      let again : words (joined (mapped ps)) ≡ mapped ps =
        words-joined_several (mapped ps) long (mapped-IsWord ps (words-IsWord s)) in
      let more : ltb (length (words (joined (mapped ps)))) 2 ≡ false = rw again long in
      ap fold_place_abbreviations (fold_several s several)
      ∙ fold_several (joined (mapped ps)) more
      ∙ ap (λ qs. joined (mapped qs)) again
      ∙ ap joined (mapped_idem ps)
      ∙ sym (fold_several s several)
]
