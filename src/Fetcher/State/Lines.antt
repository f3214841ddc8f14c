-- ===== src/Fetcher/State/Lines.antt =====
-- The lines of a text, and what `trim` makes of them.
use geocoder.Prelude.{
  ℕ, ◌≡◌, ◌≢◌, refl, sym, ap, ◌∙◌, subst, false, List, [], ◌∷◌, ◌++◌, reverse, reverse-append, Text,
  ◌==◌, All, trim, trim_start, trim_end, is_whitespace, split, Lacks, Bool-cases, inl, inr, arith,
}
use geocoder.Strings.Trim.{
  IsSpace, IsSolid, EndsSolid, All-reverse, trim_end-append, trim_of_solid, trim_split,
  trim_start_split,
}
use geocoder.Strings.Split.{split_lem}
use geocoder.Fetcher.State.{newline, strip_return, lines_of}

abbrev pub NoSpace : Text → Type 0
NoSpace = All (λ c. is_whitespace c ≡ false)

pub NoSpace-IsSolid : (s : Text) → NoSpace s → IsSolid s
NoSpace-IsSolid [] h = tt
NoSpace-IsSolid (c ∷ s) (h, _) = h

pub NoSpace-EndsSolid : (s : Text) → NoSpace s → EndsSolid s
NoSpace-EndsSolid s h = NoSpace-IsSolid (reverse s) (All-reverse (λ c. is_whitespace c ≡ false) s h)

pub trim_of_NoSpace : (s : Text) → NoSpace s → trim s ≡ s
trim_of_NoSpace s h = trim_of_solid s (NoSpace-IsSolid s h) (NoSpace-EndsSolid s h)

not_newline : (c : ℕ) → is_whitespace c ≡ false → c ≢ newline
unfolding is_whitespace
not_newline c h e = absurd (cc (rw e at h))

pub NoSpace-Lacks : (s : Text) → NoSpace s → Lacks newline s
NoSpace-Lacks [] h = tt
NoSpace-Lacks (c ∷ s) (hc, hs) = (not_newline c hc, NoSpace-Lacks s hs)

-- The end of a text that is not empty is the end of every text that it ends.
solid_front : (r s : Text) (c : ℕ) → IsSolid (r ++ c ∷ []) → IsSolid ((r ++ c ∷ []) ++ s)
solid_front [] s c h = h
solid_front (d ∷ r) s c h = h

pub EndsSolid-append : (s t : Text) (c : ℕ) → EndsSolid (c ∷ t) → EndsSolid (s ++ c ∷ t)
EndsSolid-append s t c h = subst IsSolid (sym (reverse-append s (c ∷ t))) (
    subst (λ r. IsSolid (r ++ reverse s)) (sym (reverse-append (c ∷ []) t))
      (solid_front (reverse t) (reverse s) c (subst IsSolid (reverse-append (c ∷ []) t) h)))

trim_spaces : (w : Text) → All IsSpace w → trim w ≡ []
unfolding trim trim_start trim_end
trim_spaces [] h = refl
trim_spaces (c ∷ w) (hc, hw) = rw hc (trim_spaces w hw)

-- Whitespace behind makes no difference to `trim`.
trim-append : (s w : Text) → All IsSpace w → trim (s ++ w) ≡ trim s
unfolding trim trim_start trim_end
trim-append [] w h = trim_spaces w h
trim-append (c ∷ s) w h = elim (Bool-cases (is_whitespace c)) [
  | inl e ↦ rw e (trim-append s w h)
  | inr e ↦ rw e (trim_end-append (c ∷ s) w h)
]

return_cut : (s : Text) → (w : Text) × All IsSpace w × (s ≡ strip_return s ++ w)
unfolding strip_return is_whitespace
return_cut [] = ([], tt, refl)
return_cut (c ∷ []) = elim (Bool-cases (c == 13)) [
  | inl h ↦ rw h (c ∷ [], (ground (arith, h), tt), refl)
  | inr h ↦ rw h ([], tt, refl)
]
return_cut (c ∷ d ∷ s) = let (w, a, e) = return_cut (d ∷ s) in (w, a, ap (λ r. c ∷ r) e)

pub trim-strip_return : (s : Text) → trim (strip_return s) ≡ trim s
trim-strip_return s =
    let (w, a, e) = return_cut s in sym (trim-append (strip_return s) w a) ∙ ap trim (sym e)

-- What holds of all characters of a text holds of all that `trim` leaves.
All-prefix : (P : ℕ → Type 0) (s t : Text) → All P (s ++ t) → All P s
All-prefix P [] t h = tt
All-prefix P (c ∷ s) t (hc, hs) = (hc, All-prefix P s t hs)

All-suffix : (P : ℕ → Type 0) (s t : Text) → All P (s ++ t) → All P t
All-suffix P [] t h = h
All-suffix P (c ∷ s) t (hc, hs) = All-suffix P s t hs

pub All-trim : (P : ℕ → Type 0) (s : Text) → All P s → All P (trim s)
All-trim P s h =
    let (v, w, a, b, e) = trim_split s in
    All-prefix P (trim s) w (All-suffix P v (trim s ++ w) (subst (All P) e h))

pub All-trim_start : (P : ℕ → Type 0) (s : Text) → All P s → All P (trim_start s)
All-trim_start P s h =
    let (w, a, e) = trim_start_split s in All-suffix P w (trim_start s) (subst (All P) e h)

pub All-strip_return : (P : ℕ → Type 0) (s : Text) → All P s → All P (strip_return s)
All-strip_return P s h =
    let (w, a, e) = return_cut s in All-prefix P (strip_return s) w (subst (All P) e h)

solid_back : (r s : Text) → IsSolid (r ++ s) → IsSolid r
solid_back [] s h = tt
solid_back (c ∷ r) s h = h

pub EndsSolid-suffix : (s t : Text) → EndsSolid (s ++ t) → EndsSolid t
EndsSolid-suffix s t h = solid_back (reverse t) (reverse s) (subst IsSolid (reverse-append s t) h)

-- `lines` gives the text up to the first line feed, without a carriage return, and then the rest.
split_some : (s : Text) (sep : ℕ) → (p : Text) × (ps : List Text) × (split s sep ≡ p ∷ ps)
unfolding split
split_some [] sep = ([], [], refl)
split_some (c ∷ s) sep =
    let (p, ps, e) = split_some s sep in
    elim (Bool-cases (c == sep)) [
      | inl h ↦ rw h ([], split s sep, refl)
      | inr h ↦ rw (h, e) (c ∷ p, ps, refl)
    ]

pub lines_of-split :
    (p s : Text)
    → Lacks newline p
    → lines_of (split (p ++ newline ∷ s) newline) ≡ strip_return p ∷ lines_of (split s newline)
unfolding lines_of
lines_of-split p s h =
    let (q, qs, e) = split_some s newline in
    ap lines_of (split_lem p s newline h)
    ∙ ap (λ ps. lines_of (p ∷ ps)) e
    ∙ ap (λ ps. strip_return p ∷ lines_of ps) (sym e)
