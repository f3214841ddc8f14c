-- ===== src/Strings/Pieces.antt =====
-- `str` cut at the characters that pass a test.
use geocoder.Prelude.{ℕ, Bool, List, [], ◌∷◌, reverse, if◌then◌else◌, Text, is_whitespace, ◌++◌}
use geocoder.Autocomplete.Abbreviations.{nonempty}

-- `str::split` at the characters that pass.
unfoldable pub split_by : (ℕ → Bool) → Text → List Text
split_by test [] = [] ∷ []
split_by test (c ∷ s) =
    let rest = split_by test s in
    if test c then [] ∷ rest else elim rest [ [] ↦ (c ∷ []) ∷ [] | p ∷ ps ↦ (c ∷ p) ∷ ps ]

-- `str::split_whitespace`.
unfoldable pub split_whitespace : Text → List Text
unfolding split_by nonempty is_whitespace
split_whitespace s = nonempty (split_by is_whitespace s)

unfoldable pub trim_start_matches : (ℕ → Bool) → Text → Text
trim_start_matches test [] = []
trim_start_matches test (c ∷ s) = if test c then trim_start_matches test s else c ∷ s

unfoldable pub trim_end_matches : (ℕ → Bool) → Text → Text
unfolding trim_start_matches
trim_end_matches test s = reverse (trim_start_matches test (reverse s))

-- `[…].join(separator)`.
unfoldable pub join : Text → List Text → Text
join separator [] = []
join separator (t ∷ []) = t
join separator (t ∷ u ∷ ts) = t ++ separator ++ join separator (u ∷ ts)
