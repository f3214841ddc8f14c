-- ===== src/GeoIndex/Names.antt =====
-- `contains_ignore_ascii_case` of server/src/lib.rs and server/src/address_points.rs, on bytes.
use geocoder.Prelude.{
  ℕ, zero, suc, ◌-◌, ◌<◌, ◌≡◌, ◌↔◌, ◌≢◌, ltb→lt, refl, ap, Bool, true, false, ◌&&◌, [], ◌∷◌, ◌++◌,
  arith, inl, inr, ltb, ◌==◌, if◌then◌else◌, length, length-append, is_empty, to_lower,
  eq_ignore_case, Bool-cases,
}
use geocoder.Bytes.{Bytes}

-- The loop over `j`: the needle's bytes against those of the haystack from `i` on.
unfoldable pub matches_here : Bytes → Bytes → Bool
unfolding to_lower
matches_here h [] = true
matches_here [] (c ∷ n) = false
matches_here (d ∷ h) (c ∷ n) = (to_lower d == to_lower c) && matches_here h n

-- The loop over `i`: `rounds` of them, with the haystack from `i` on.
unfoldable pub scan : ℕ → Bytes → Bytes → Bool
unfolding matches_here
scan zero h n = false
scan (suc rounds) [] n = matches_here [] n
scan (suc rounds) (d ∷ h) n =
    let rest = scan rounds h n in if matches_here (d ∷ h) n then true else rest

unfoldable pub contains_ignore_ascii_case : Bytes → Bytes → Bool
unfolding scan
contains_ignore_ascii_case haystack needle =
    if is_empty needle
    then true
    else if ltb (length haystack) (length needle)
    then false
    else scan (suc (length haystack - length needle)) haystack needle

-- A part of the haystack that is the needle up to ASCII case.
abbrev pub Part : Bytes → Bytes → Type 0
Part h n =
    (pre : Bytes) × (mid : Bytes) × (post : Bytes) × (h ≡ pre ++ (mid ++ post))
    × (eq_ignore_case mid n ≡ true)

matches_here-eq :
    (h n : Bytes)
    → matches_here h n ≡ true
    → (mid : Bytes) × (post : Bytes) × (h ≡ mid ++ post) × (eq_ignore_case mid n ≡ true)
unfolding matches_here eq_ignore_case
matches_here-eq h [] e = ([], h, refl, refl)
matches_here-eq [] (c ∷ n) e = cc
matches_here-eq (d ∷ h) (c ∷ n) e =
    let same : (to_lower d == to_lower c) ≡ true = ground arith in
    let more : matches_here h n ≡ true = ground arith in
    let (mid, post, q, r) = matches_here-eq h n more in
    (d ∷ mid, post, ap (λ t. d ∷ t) q, rw (same, r) refl)

matches_here_of_eq :
    (mid post n : Bytes) → eq_ignore_case mid n ≡ true → matches_here (mid ++ post) n ≡ true
unfolding matches_here eq_ignore_case
matches_here_of_eq [] post [] e = refl
matches_here_of_eq [] post (c ∷ n) e = cc
matches_here_of_eq (d ∷ mid) post [] e = cc
matches_here_of_eq (d ∷ mid) post (c ∷ n) e = ground (arith, matches_here_of_eq mid post n)

eq_ignore_case-length : (s t : Bytes) → eq_ignore_case s t ≡ true → length s ≡ length t
unfolding eq_ignore_case
eq_ignore_case-length [] [] e = refl
eq_ignore_case-length [] (d ∷ t) e = cc
eq_ignore_case-length (c ∷ s) [] e = cc
eq_ignore_case-length (c ∷ s) (d ∷ t) e = ap suc (eq_ignore_case-length s t (ground arith))

scan-Part : (rounds : ℕ) (h n : Bytes) → scan rounds h n ≡ true → Part h n
unfolding scan
scan-Part zero h n e = cc
scan-Part (suc rounds) [] n e =
    let (mid, post, q, r) = matches_here-eq [] n e in ([], mid, post, q, r)
scan-Part (suc rounds) (d ∷ h) n e = elim (Bool-cases (matches_here (d ∷ h) n)) [
  | inl m ↦ let (mid, post, q, r) = matches_here-eq (d ∷ h) n m in ([], mid, post, q, r)
  | inr m ↦
      let (pre, mid, post, q, r) = scan-Part rounds h n (rw m at e) in
      (d ∷ pre, mid, post, ap (λ t. d ∷ t) q, r)
]

scan_here : (rounds : ℕ) (h n : Bytes) → matches_here h n ≡ true → scan (suc rounds) h n ≡ true
unfolding scan
scan_here rounds [] n m = m
scan_here rounds (d ∷ h) n m = rw m refl

scan_of_part :
    (rounds : ℕ) (pre mid post n : Bytes)
    → length pre < rounds
    → eq_ignore_case mid n ≡ true
    → scan rounds (pre ++ (mid ++ post)) n ≡ true
unfolding scan
scan_of_part zero pre mid post n lt e = absurd (omega (arith, lt))
scan_of_part (suc rounds) [] mid post n lt e =
    scan_here rounds (mid ++ post) n (matches_here_of_eq mid post n e)
scan_of_part (suc rounds) (d ∷ pre) mid post n lt e =
    elim (Bool-cases (matches_here (d ∷ pre ++ (mid ++ post)) n)) [
      | inl m ↦ rw m refl
      | inr m ↦ rw m (scan_of_part rounds pre mid post n (omega (arith, lt)) e)
    ]

Part-fits : (h n : Bytes) → Part h n → ltb (length h) (length n) ≢ true
Part-fits h n (pre, mid, post, q, r) short =
    let lt = ltb→lt (length h) (length n) short in
    omega (
      arith,
      lt,
      length-append pre (mid ++ post),
      length-append mid post,
      eq_ignore_case-length mid n r,
      ap length q,
    )

-- The test holds exactly when some part of the haystack is the needle up to ASCII case.
pub contains_ignore_ascii_case_iff :
    (haystack needle : Bytes)
    → (contains_ignore_ascii_case haystack needle ≡ true) ↔ Part haystack needle
unfolding contains_ignore_ascii_case eq_ignore_case
contains_ignore_ascii_case_iff h [] = (λ e. ([], [], h, refl, refl), λ p. refl)
contains_ignore_ascii_case_iff h (c ∷ n) =
    let needle = c ∷ n in
    elim (Bool-cases (ltb (length h) (length needle))) [
      | inl short ↦ (
        λ e. let q : false ≡ true = rw short at e in cc,
        λ p. absurd (Part-fits h needle p short),
      )
      | inr long ↦ (
        λ e. scan-Part (suc (length h - length needle)) h needle (rw long at e),
        λ p.
            let (pre, mid, post, q, r) = p in
            let room : length pre < suc (length h - length needle) = omega (
              arith,
              length-append pre (mid ++ post),
              length-append mid post,
              eq_ignore_case-length mid needle r,
              ap length q,
            ) in
            rw (long, q)
              (scan_of_part (suc (length (pre ++ (mid ++ post)) - length needle)) pre mid post
                needle (rw q at room) r),
      )
    ]
