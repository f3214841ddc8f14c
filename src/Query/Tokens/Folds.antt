-- ===== src/Query/Tokens/Folds.antt =====
-- ASCII case and the tokens of a query in server/src/forward.rs.
use geocoder.Prelude.{
  ℕ, ◌≡◌, refl, ap, ◌∙◌, [], ◌∷◌, ◌++◌, map, inl, inr, Text, to_lower, split, sym,
}
use geocoder.Strings.Unicode.{CharTables}
use geocoder.Postcode.Normalise.{ascii_fold_char}
use geocoder.Postcode.Normalise.Case.{fold_ascii, to_lower-cases, lower_idem}
use geocoder.Query.Tokens.{
  ascii_fold, join_dotted_initials, raw_tokens, apply_place_abbreviation_fold, tokenize_user_input,
}

map-append : (f : ℕ → ℕ) (s t : Text) → map f (s ++ t) ≡ map f s ++ map f t
map-append f [] t = refl
map-append f (c ∷ s) t = ap (λ r. f c ∷ r) (map-append f s t)

fold_char-to_lower :
    (c : ℕ) → map to_lower (ascii_fold_char (to_lower c)) ≡ map to_lower (ascii_fold_char c)
fold_char-to_lower c = elim (to_lower-cases c) [
  | inl same ↦ ap (λ d. map to_lower (ascii_fold_char d)) same
  | inr (h, k) ↦
      ap (map to_lower) (fold_ascii (to_lower c) k)
      ∙ ap (λ d. d ∷ []) (lower_idem c)
      ∙ sym (ap (map to_lower) (fold_ascii c h))
]

lower-ascii_fold :
    (s : Text) → map to_lower (ascii_fold (map to_lower s)) ≡ map to_lower (ascii_fold s)
unfolding ascii_fold
lower-ascii_fold [] = refl
lower-ascii_fold (c ∷ s) =
    map-append to_lower (ascii_fold_char (to_lower c)) (ascii_fold (map to_lower s))
    ∙ ap (λ t. t ++ map to_lower (ascii_fold (map to_lower s))) (fold_char-to_lower c)
    ∙ ap (λ t. map to_lower (ascii_fold_char c) ++ t) (lower-ascii_fold s)
    ∙ sym (map-append to_lower (ascii_fold_char c) (ascii_fold s))

-- Texts that differ in the case of ASCII letters have the same tokens.
pub tokenize_user_input-to_lower :
    (tables : CharTables) (s : Text)
    → tokenize_user_input tables (map to_lower s) ≡ tokenize_user_input tables s
unfolding tokenize_user_input
tokenize_user_input-to_lower tables s =
    ap
      (λ folded.
        apply_place_abbreviation_fold
          (raw_tokens tables (split (join_dotted_initials tables folded) b',')))
      (lower-ascii_fold s)
