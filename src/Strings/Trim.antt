-- ===== src/Strings/Trim.antt =====
-- `trim_start`, `trim_end` and `trim` take off whitespace at the ends and nothing else.
use mathlib.Core.List.{reverse-append}
use geocoder.Prelude.{
  ℕ, ◌≡◌, refl, sym, ap, ◌∙◌, inl, inr, true, false, List, [], ◌∷◌, ◌++◌, reverse, reverse-reverse,
  Text, is_whitespace, trim_start, trim_end, trim, All, All-append, Bool-cases,
}

abbrev pub IsSpace : ℕ → Type 0
IsSpace c = is_whitespace c ≡ true

-- A text that does not begin with whitespace.
abbrev pub IsSolid : Text → Type 0
IsSolid [] = Unit
IsSolid (c ∷ s) = is_whitespace c ≡ false

pub trim_start-IsSolid : (s : Text) → IsSolid (trim_start s)
unfolding trim_start
trim_start-IsSolid [] = tt
trim_start-IsSolid (c ∷ s) = elim (Bool-cases (is_whitespace c)) [
  | inl h ↦ rw h (trim_start-IsSolid s)
  | inr h ↦ rw h h
]

pub trim_start_of_IsSolid : (s : Text) → IsSolid s → trim_start s ≡ s
unfolding trim_start
trim_start_of_IsSolid [] h = refl
trim_start_of_IsSolid (c ∷ s) h = rw h

pub trim_start_split : (s : Text) → (w : Text) × All IsSpace w × (s ≡ w ++ trim_start s)
unfolding trim_start
trim_start_split [] = ([], tt, refl)
trim_start_split (c ∷ s) = elim (Bool-cases (is_whitespace c)) [
  | inl h ↦ let (w, a, e) = trim_start_split s in (c ∷ w, (h, a), rw h (ap (λ r. c ∷ r) e))
  | inr h ↦ ([], tt, rw h refl)
]

-- Leading whitespace makes no difference.
pub trim_start-append : (w s : Text) → All IsSpace w → trim_start (w ++ s) ≡ trim_start s
unfolding trim_start
trim_start-append [] s h = refl
trim_start-append (c ∷ w) s (hc, hw) = rw hc (trim_start-append w s hw)

pub All-reverse {ℓ κ} : {A : Type ℓ} (P : A → Type κ) (s : List A) → All P s → All P (reverse s)
All-reverse P [] h = tt
All-reverse P (c ∷ s) (hc, hs) =
    rw (reverse-append (c ∷ []) s) (All-append P (reverse s) (c ∷ []) (All-reverse P s hs) (hc, tt))

-- A text that does not end with whitespace.
abbrev pub EndsSolid : Text → Type 0
EndsSolid s = IsSolid (reverse s)

pub trim_end-EndsSolid : (s : Text) → EndsSolid (trim_end s)
unfolding trim_end
trim_end-EndsSolid s = rw (reverse-reverse) (trim_start-IsSolid (reverse s))

pub trim_end_of_EndsSolid : (s : Text) → EndsSolid s → trim_end s ≡ s
unfolding trim_end
trim_end_of_EndsSolid s h = rw (trim_start_of_IsSolid (reverse s) h) (reverse-reverse s)

pub trim_end_split : (s : Text) → (w : Text) × All IsSpace w × (s ≡ trim_end s ++ w)
unfolding trim_end
trim_end_split s =
    let (w, a, e) = trim_start_split (reverse s) in
    (
      reverse w,
      All-reverse IsSpace w a,
      sym (reverse-reverse s) ∙ ap reverse e ∙ reverse-append w (trim_start (reverse s)),
    )

-- Trailing whitespace makes no difference.
pub trim_end-append : (s w : Text) → All IsSpace w → trim_end (s ++ w) ≡ trim_end s
unfolding trim_end
trim_end-append s w h =
    rw (reverse-append s w)
      (ap reverse (trim_start-append (reverse w) (reverse s) (All-reverse IsSpace w h)))

pub trim_of_solid : (s : Text) → IsSolid s → EndsSolid s → trim s ≡ s
unfolding trim
trim_of_solid s h k = rw (trim_start_of_IsSolid s h) (trim_end_of_EndsSolid s k)

-- `trim` cuts a text into whitespace, what it returns, and whitespace.
pub trim_split :
    (s : Text) → (v w : Text) × All IsSpace v × All IsSpace w × (s ≡ v ++ (trim s ++ w))
unfolding trim
trim_split s =
    let (v, a, e) = trim_start_split s in
    let (w, b, f) = trim_end_split (trim_start s) in (v, w, a, b, e ∙ ap (λ r. v ++ r) f)

IsSolid-prefix : (s w : Text) → IsSolid (s ++ w) → IsSolid s
IsSolid-prefix [] w h = tt
IsSolid-prefix (c ∷ s) w h = h

pub trim-IsSolid : (s : Text) → IsSolid (trim s)
unfolding trim
trim-IsSolid s =
    let (w, a, e) = trim_end_split (trim_start s) in
    IsSolid-prefix (trim_end (trim_start s)) w (rw e at (trim_start-IsSolid s))

pub trim-EndsSolid : (s : Text) → EndsSolid (trim s)
unfolding trim
trim-EndsSolid s = trim_end-EndsSolid (trim_start s)

pub trim_idem : (s : Text) → trim (trim s) ≡ trim s
trim_idem s = trim_of_solid (trim s) (trim-IsSolid s) (trim-EndsSolid s)
