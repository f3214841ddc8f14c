-- ===== src/Postcode/Normalise/Words.antt =====
-- The spaces of a key made by `normalise_locality` of server/src/postcode.rs.
use geocoder.Prelude.{
  ℕ, ◌≡◌, ◌≢◌, refl, ap, sym, subst, ◌∙◌, Bool, true, false, [], ◌∷◌, ◌++◌, Option, none, some, ◌⊎◌,
  inl, inr, if◌then◌else◌, ◌==◌, ne→==, ◌>>=◌, Text, All, Bool-cases,
}
use geocoder.Strings.Unicode.{CharTables}
use geocoder.Postcode.Normalise.{
  ascii_fold_char, pop_space, push_folded, push_all, normalise_locality,
}

-- Reads a text after a space (`true`) or a letter: `none` when two spaces meet, and otherwise
-- what the text ends with.
unfoldable pub spacing : Bool → Text → Option Bool
spacing after [] = some after
spacing after (c ∷ s) =
    let spaced = spacing true s in
    let lettered = spacing false s in
    if c == b' ' then (if after then none else spaced) else lettered

-- Words with one space between two of them and none at the ends.
abbrev pub IsWords : Text → Type 0
IsWords s = (s ≡ []) ⊎ (spacing true s ≡ some false)

spacing-append :
    (after : Bool) (s t : Text) → spacing after (s ++ t) ≡ (spacing after s >>= λ b. spacing b t)
unfolding spacing
spacing-append after [] t = refl
spacing-append after (c ∷ s) t = elim (Bool-cases (c == b' ')) [
  | inl h ↦ elim (Bool-cases after) [
    | inl a ↦ rw (h, a) refl
    | inr a ↦ rw (h, a) (spacing-append true s t)
  ]
  | inr h ↦ rw h (spacing-append false s t)
]

spacing_letters :
    (after : Bool) (c : ℕ) (s : Text)
    → All (λ d. d ≢ b' ') (c ∷ s)
    → spacing after (c ∷ s) ≡ some false
unfolding spacing
spacing_letters after c [] (h, hs) = rw (ne→== c b' ' h) refl
spacing_letters after c (d ∷ s) (h, hs) = rw (ne→== c b' ' h) (spacing_letters false d s hs)

-- Taking off a last space: what is left ends with a letter, or nothing is left, and then there was
-- nothing or a space that was allowed.
abbrev Popped : Bool → Text → Type 0
Popped after s =
    (spacing after (pop_space s) ≡ some false) ⊎ ((pop_space s ≡ []) × ((s ≡ []) ⊎ (after ≡ false)))

Popped-space :
    (after : Bool) (c d : ℕ) (s : Text) {b : Bool}
    → (c == b' ') ≡ true
    → spacing after (c ∷ d ∷ s) ≡ some b
    → Popped true (d ∷ s)
    → Popped after (c ∷ d ∷ s)
unfolding pop_space spacing
Popped-space true c d s {b} e h p = let g : none ≡ some b = rw e at h in cc
Popped-space false c d s e h (inl p) = inl (rw e p)
Popped-space false c d s e h (inr (k, inl n)) = cc
Popped-space false c d s e h (inr (k, inr n)) = cc

Popped-letter :
    (after : Bool) (c d : ℕ) (s : Text)
    → (c == b' ') ≡ false
    → Popped false (d ∷ s)
    → Popped after (c ∷ d ∷ s)
unfolding pop_space spacing
Popped-letter after c d s h (inl p) = inl (rw h p)
Popped-letter after c d s h (inr (e, r)) =
    inl (subst (λ t. spacing after (c ∷ t) ≡ some false) (sym e) (rw h refl))

rest_spacing :
    (after : Bool) (c d : ℕ) (s : Text) {b : Bool}
    → (c == b' ') ≡ true
    → spacing after (c ∷ d ∷ s) ≡ some b
    → spacing true (d ∷ s) ≡ some b
unfolding spacing
rest_spacing true c d s {b} e h = let g : none ≡ some b = rw e at h in cc
rest_spacing false c d s e h = rw e at h

pop_space-Popped : (after : Bool) (s : Text) (b : Bool) → spacing after s ≡ some b → Popped after s
unfolding pop_space spacing
pop_space-Popped after [] b h = inr (refl, inl refl)
pop_space-Popped true (c ∷ []) b h = elim (Bool-cases (c == b' ')) [
  | inl e ↦ let g : none ≡ some b = rw e at h in cc
  | inr e ↦ inl (rw (e, e) refl)
]
pop_space-Popped false (c ∷ []) b h = elim (Bool-cases (c == b' ')) [
  | inl e ↦ inr (rw e refl, inr refl)
  | inr e ↦ inl (rw (e, e) refl)
]
pop_space-Popped after (c ∷ d ∷ s) b h = elim (Bool-cases (c == b' ')) [
  | inl e ↦
      Popped-space after c d s e h (pop_space-Popped true (d ∷ s) b (rest_spacing after c d s e h))
  | inr e ↦ Popped-letter after c d s e (pop_space-Popped false (d ∷ s) b (rw e at h))
]

pop_space-IsWords : (s : Text) (b : Bool) → spacing true s ≡ some b → IsWords (pop_space s)
pop_space-IsWords s b h = elim (pop_space-Popped true s b h) [ inl p ↦ inr p | inr (e, r) ↦ inl e ]

-- What the documentation says of lowercase letters: there is at least one, and it is no space.
pub record LowersToLetters (tables : CharTables) : Type 0 where
  pub letters :
      (c : ℕ)
      → tables.is_alphanumeric c ≡ true
      → (d : ℕ) × (s : Text) × (tables.to_lowercase c ≡ d ∷ s) × All (λ e. e ≢ b' ') (d ∷ s)

module _ (tables : CharTables) (lowers : LowersToLetters tables) where
  open tables use {is_alphanumeric, to_lowercase}

  push_folded-spacing :
      (folded out : Text) (last : Bool)
      → spacing true out ≡ some last
      → spacing true (push_folded tables folded out last).0
        ≡ some (push_folded tables folded out last).1
  unfolding push_folded spacing
  push_folded-spacing [] out last h = h
  push_folded-spacing (c ∷ folded) out last h = elim (Bool-cases (is_alphanumeric c)) [
    | inl a ↦
        let (d, s, e, l) = lowers.letters c a in
        rw a (
          push_folded-spacing folded (out ++ to_lowercase c) false
            (rw (spacing-append true out (to_lowercase c), h, e) (spacing_letters last d s l)))
    | inr a ↦ elim (Bool-cases last) [
      | inl b ↦ rw (a, b) (push_folded-spacing folded out true (h ∙ ap some b))
      | inr b ↦
          rw (a, b)
            (push_folded-spacing folded (out ++ b' ' ∷ []) true
              (rw (spacing-append true out (b' ' ∷ []), h, b) refl))
    ]
  ]

  push_all-spacing :
      (s out : Text) (last : Bool)
      → spacing true out ≡ some last
      → (b : Bool) × (spacing true (push_all tables s out last) ≡ some b)
  unfolding push_all
  push_all-spacing [] out last h = (last, h)
  push_all-spacing (ch ∷ s) out last h =
      push_all-spacing s (push_folded tables (ascii_fold_char ch) out last).0
        (push_folded tables (ascii_fold_char ch) out last).1
        (push_folded-spacing (ascii_fold_char ch) out last h)

  -- The key of a name is empty, or words with one space between two of them and none at the ends,
  -- when a letter's lowercase is one or more characters other than the space.
  pub normalise_locality-IsWords : (s : Text) → IsWords (normalise_locality tables s)
  unfolding normalise_locality spacing
  normalise_locality-IsWords s =
      let (b, h) = push_all-spacing s [] true refl in
      pop_space-IsWords (push_all tables s [] true) b h
