-- ===== src/H3Cell/Accepted.antt =====
-- Which values of `h3_res` server/src/h3_cell.rs accepts.
use geocoder.Prelude.{
  ℕ, ◌≤◌, ◌≡◌, refl, sym, ap, ◌∙◌, ◌↔◌, subst, true, false, List, [], ◌∷◌, ◌++◌, append_assoc,
  append-nil, some, if◌then◌else◌, ltb, le→ltb, Text, length, is_empty, split, trim, trim_end,
  trim_start, arith, Bool-cases, Option-cases, inl, inr,
}
use geocoder.H3Cell.{ok, parse_u8, read_tokens, check_count, parse_h3_res}

-- The resolutions that the tokens spell, where a blank token spells none.
pub data Spells : List Text → List ℕ → Type 0 where
  done : Spells [] []
  skipped :
      {tok : Text} {toks : List Text} {out : List ℕ}
      → is_empty (trim tok) ≡ true
      → Spells toks out
      → Spells (tok ∷ toks) out
  spelled :
      {tok : Text} {toks : List Text} {res : ℕ} {out : List ℕ}
      → is_empty (trim tok) ≡ false
      → parse_u8 (trim tok) ≡ some res
      → res ≤ 15
      → Spells toks out
      → Spells (tok ∷ toks) (res ∷ out)

read_tokens-Spells :
    {toks : List Text} {out : List ℕ} (before : List ℕ)
    → Spells toks out
    → read_tokens toks before ≡ check_count (before ++ out)
unfolding read_tokens
read_tokens-Spells before done = ap check_count (sym (append-nil before))
read_tokens-Spells before (skipped h s) = rw h (read_tokens-Spells before s)
read_tokens-Spells before (spelled {res} {out} h p r s) =
    rw (h, p, le→ltb 15 res r)
      (read_tokens-Spells (before ++ res ∷ []) s
        ∙ ap check_count (append_assoc before (res ∷ []) out))

check_count-ok : (out : List ℕ) → length out ≤ 4 → check_count out ≡ ok out
unfolding check_count
check_count-ok out h = rw (le→ltb 4 (length out) h) refl

ok_of_check_count :
    (out : List ℕ) {all : List ℕ} → check_count out ≡ ok all → (all ≡ out) × (length all ≤ 4)
unfolding check_count
ok_of_check_count out h = elim (Bool-cases (ltb 4 (length out))) [
  | inl big ↦ absurd (cc (rw big at h))
  | inr small ↦ let q = rw small at h in ground (arith, q, small)
]

read_tokens_sound :
    (toks : List Text) (before : List ℕ) {all : List ℕ}
    → read_tokens toks before ≡ ok all
    → (out : List ℕ) × Spells toks out × (check_count (before ++ out) ≡ ok all)
unfolding read_tokens
read_tokens_sound [] before h = ([], done, ap check_count (append-nil before) ∙ h)
read_tokens_sound (tok ∷ toks) before h = elim (Bool-cases (is_empty (trim tok))) [
  | inl b ↦ let (out, s, q) = read_tokens_sound toks before (rw b at h) in (out, skipped b s, q)
  | inr b ↦ elim (Option-cases (parse_u8 (trim tok))) [
    | inl e ↦ absurd (cc (rw (b, e) at h))
    | inr (res, e) ↦ elim (Bool-cases (ltb 15 res)) [
      | inl big ↦ absurd (cc (rw (b, e, big) at h))
      | inr small ↦
          let (out, s, q) = read_tokens_sound toks (before ++ res ∷ []) (rw (b, e, small) at h) in
          (
            res ∷ out,
            spelled b e (ground arith) s,
            ap check_count (sym (append_assoc before (res ∷ []) out)) ∙ q,
          )
    ]
  ]
]

-- The early return for a blank value does what the loop does.
blank_value :
    (t : Text)
    → (if is_empty t then ok [] else read_tokens (split t b',') []) ≡ read_tokens (split t b',') []
unfolding read_tokens split trim trim_end trim_start check_count
blank_value [] = refl
blank_value (c ∷ t) = refl

parse_h3_res-tokens : (raw : Text) → parse_h3_res raw ≡ read_tokens (split (trim raw) b',') []
unfolding parse_h3_res
parse_h3_res-tokens raw = blank_value (trim raw)

-- A value of `h3_res` is accepted with a list of resolutions exactly when its tokens between the
-- commas, but for the blank ones, spell the list as integers of a byte up to 15, and the list has
-- at most four of them.
pub parse_h3_res_iff :
    (raw : Text) (out : List ℕ)
    → (parse_h3_res raw ≡ ok out) ↔ (Spells (split (trim raw) b',') out × (length out ≤ 4))
parse_h3_res_iff raw out = (
  λ h.
      let (l, s, q) =
        read_tokens_sound (split (trim raw) b',') [] (sym (parse_h3_res-tokens raw) ∙ h) in
      let (e, few) = ok_of_check_count l q in
      (subst (λ k. Spells (split (trim raw) b',') k) (sym e) s, few),
  λ (s, few). parse_h3_res-tokens raw ∙ read_tokens-Spells [] s ∙ check_count-ok out few,
)
