-- ===== src/Postcode/Modal/Order.antt =====
-- `count > *existing_count || …` of `modal_postcodes_by_key` of
-- server/src/bin/build_postcode_lookup.rs is a strict order.
use geocoder.Prelude.{
  ◌<◌, ◌⊎◌, inl, inr, ◌≡◌, refl, true, false, ◌||◌, [], ◌∷◌, inl, inr, arith, Bool-cases,
}
use geocoder.Bytes.{Bytes}
use geocoder.Postcode.Modal.{text_ltb, Counted, beats}

text_ltb_trans : (s t u : Bytes) → text_ltb s t ≡ true → text_ltb t u ≡ true → text_ltb s u ≡ true
unfolding text_ltb
text_ltb_trans s [] u h k = cc
text_ltb_trans s (d ∷ t) [] h k = cc
text_ltb_trans [] (d ∷ t) (e ∷ u) h k = refl
text_ltb_trans (c ∷ s) (d ∷ t) (e ∷ u) h k = ground (arith, text_ltb_trans s t u)

beats_trans : (a b c : Counted) → beats a b ≡ true → beats b c ≡ true → beats a c ≡ true
unfolding beats
beats_trans (s, l) (t, m) (u, n) h k = ground (arith, text_ltb_trans s t u)

text_ltb_between : (s t u : Bytes) → text_ltb s u ≡ true → (text_ltb s t || text_ltb t u) ≡ true
unfolding text_ltb
text_ltb_between s t [] h = cc
text_ltb_between [] [] (e ∷ u) h = refl
text_ltb_between (c ∷ s) [] (e ∷ u) h = refl
text_ltb_between [] (d ∷ t) (e ∷ u) h = refl
text_ltb_between (c ∷ s) (d ∷ t) (e ∷ u) h = ground (arith, text_ltb_between s t u)

pub beats_between : (a b c : Counted) → beats a b ≡ false → beats b c ≡ false → beats a c ≡ false
unfolding beats
beats_between (s, l) (t, m) (u, n) h k = ground (arith, text_ltb_between s t u)

pub beats_keeps : (a b c : Counted) → beats a b ≡ true → beats a c ≡ false → beats b c ≡ false
beats_keeps a b c h k = elim (Bool-cases (beats b c)) [
  | inl t ↦ let e = beats_trans a b c h t in cc
  | inr f ↦ f
]

text_ltb_irrefl : (s : Bytes) → text_ltb s s ≡ false
unfolding text_ltb
text_ltb_irrefl [] = refl
text_ltb_irrefl (c ∷ s) = ground (arith, text_ltb_irrefl s)

pub beats_irrefl : (a : Counted) → beats a a ≡ false
unfolding beats
beats_irrefl (s, n) = ground (arith, text_ltb_irrefl s)

-- A smaller count, or the same count for a postcode that is not smaller.
abbrev pub AtMost : Counted → Counted → Type 0
AtMost a b = (a.1 < b.1) ⊎ ((a.1 ≡ b.1) × (text_ltb a.0 b.0 ≡ false))

pub at_most : (a b : Counted) → beats a b ≡ false → AtMost a b
unfolding beats
at_most (s, m) (t, n) h = ground arith
