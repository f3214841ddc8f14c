-- ===== src/Postcode/Modal/Pick.antt =====
-- The second loop of `modal_postcodes_by_key` of server/src/bin/build_postcode_lookup.rs: the
-- entry it keeps for a key is beaten by none, in whatever order the counts come.
use geocoder.Prelude.{
  ℕ, ◌≡◌, ◌≢◌, refl, ap, sym, ◌∙◌, subst, true, false, List, [], ◌∷◌, Option, none, some, ◌⊎◌, inl,
  inr, if◌then◌else◌, arith, ◌==◌, All, Bool-cases, ==_iff,
}
use geocoder.Bytes.{Bytes}
use geocoder.Search.Sort.{IsDistinct}
use geocoder.Postcode.Modal.Order.{AtMost, at_most, beats_between, beats_keeps, beats_irrefl}
use geocoder.Postcode.Modal.{Counted, beats, update_best, pick_best}

-- What is kept for a key, given what is kept for it already.
abbrev pub choose : ℕ → List ((ℕ × Bytes) × ℕ) → Option Counted → Option Counted
choose key [] kept = kept
choose key (((k, postcode), count) ∷ counts) kept = choose key counts (
    if k == key
    then elim kept [
      | none ↦ some (postcode, count)
      | some existing ↦
          some (if beats (postcode, count) existing then (postcode, count) else existing)
    ]
    else kept)

abbrev pub kept_for : ℕ → List (ℕ × Counted) → Option Counted
kept_for key [] = none
kept_for key ((k, counted) ∷ best) = if k == key then some counted else kept_for key best

kept_for-update_best :
    (key k : ℕ) (counted : Counted) (best : List (ℕ × Counted))
    → kept_for key (update_best k counted best) ≡ (
        if k == key
        then elim (kept_for key best) [
          | none ↦ some counted
          | some existing ↦ some (if beats counted existing then counted else existing)
        ]
        else kept_for key best)
unfolding update_best
kept_for-update_best key k counted [] = refl
kept_for-update_best key k counted ((j, existing) ∷ best) =
    ground (arith, kept_for-update_best key k counted best)

kept_for-pick_best :
    (key : ℕ) (counts : List ((ℕ × Bytes) × ℕ)) (best : List (ℕ × Counted))
    → kept_for key (pick_best counts best) ≡ choose key counts (kept_for key best)
unfolding pick_best
kept_for-pick_best key [] best = refl
kept_for-pick_best key (((k, pc), n) ∷ counts) best =
    kept_for-pick_best key counts (update_best k (pc, n) best)
    ∙ ap (choose key counts) (kept_for-update_best key k (pc, n) best)

-- An entry for the key is among the counts.
abbrev pub Occurs : ℕ → Counted → List ((ℕ × Bytes) × ℕ) → Type 0
Occurs key c [] = ⊥
Occurs key c (((k, postcode), count) ∷ counts) =
    ((k ≡ key) × ((postcode, count) ≡ c)) ⊎ Occurs key c counts

-- No count for the key is larger, and none that is as large is for a smaller postcode.
abbrev pub Unbeaten : ℕ → Counted → List ((ℕ × Bytes) × ℕ) → Type 0
Unbeaten key c = All (λ row. row.0.0 ≡ key → AtMost (row.0.1, row.1) c)

-- What is kept for a key occurs and is unbeaten; nothing is kept for a key without counts.
abbrev pub IsModal : ℕ → List ((ℕ × Bytes) × ℕ) → Option Counted → Type 0
IsModal key counts none = All (λ row. row.0.0 ≢ key) counts
IsModal key counts (some c) = Occurs key c counts × Unbeaten key c counts

abbrev Improves : ℕ → List ((ℕ × Bytes) × ℕ) → Counted → Option Counted → Type 0
Improves key counts kept none = ⊥
Improves key counts kept (some c) =
    ((c ≡ kept) ⊎ Occurs key c counts) × (beats kept c ≡ false) × Unbeaten key c counts

module _ (key k : ℕ) (row : Counted) (counts : List ((ℕ × Bytes) × ℕ)) (kept : Counted) where
  Improves-taken :
      (r : Option Counted)
      → k ≡ key
      → beats row kept ≡ true
      → Improves key counts row r
      → Improves key (((k, row.0), row.1) ∷ counts) kept r
  Improves-taken none e b h = elim h [ ]
  Improves-taken (some c) e b (inl same, worse, others) = (
    inr (inl (e, sym same)),
    beats_keeps row kept c b worse,
    ((λ q. at_most row c worse), others),
  )
  Improves-taken (some c) e b (inr o, worse, others) =
      (inr (inr o), beats_keeps row kept c b worse, ((λ q. at_most row c worse), others))

  Improves-passed :
      (r : Option Counted)
      → (k ≡ key → beats row kept ≡ false)
      → Improves key counts kept r
      → Improves key (((k, row.0), row.1) ∷ counts) kept r
  Improves-passed none b h = elim h [ ]
  Improves-passed (some c) b (inl same, worse, others) =
      (inl same, worse, ((λ q. at_most row c (beats_between row kept c (b q) worse)), others))
  Improves-passed (some c) b (inr o, worse, others) =
      (inr (inr o), worse, ((λ q. at_most row c (beats_between row kept c (b q) worse)), others))

choose-Improves :
    (key : ℕ) (counts : List ((ℕ × Bytes) × ℕ)) (kept : Counted)
    → Improves key counts kept (choose key counts (some kept))
choose-Improves key [] kept = (inl refl, beats_irrefl kept, tt)
choose-Improves key (((k, pc), n) ∷ counts) kept = elim (Bool-cases (k == key)) [
  | inl e ↦ elim (Bool-cases (beats (pc, n) kept)) [
    | inl b ↦
        rw (e, b)
          (Improves-taken key k (pc, n) counts kept _ ((==_iff k key).0 e) b
            (choose-Improves key counts (pc, n)))
    | inr b ↦
        rw (e, b)
          (Improves-passed key k (pc, n) counts kept _ (λ q. b) (choose-Improves key counts kept))
  ]
  | inr e ↦ rw e (
      Improves-passed key k (pc, n) counts kept _ (λ q. let t = (==_iff k key).1 q in cc)
        (choose-Improves key counts kept))
]

IsModal-first :
    (key k : ℕ) (row : Counted) (counts : List ((ℕ × Bytes) × ℕ)) (r : Option Counted)
    → k ≡ key
    → Improves key counts row r
    → IsModal key (((k, row.0), row.1) ∷ counts) r
IsModal-first key k row counts none e h = elim h [ ]
IsModal-first key k row counts (some c) e (inl same, worse, others) =
    (inl (e, sym same), ((λ q. at_most row c worse), others))
IsModal-first key k row counts (some c) e (inr o, worse, others) =
    (inr o, ((λ q. at_most row c worse), others))

IsModal-other :
    (key k : ℕ) (row : Counted) (counts : List ((ℕ × Bytes) × ℕ)) (r : Option Counted)
    → k ≢ key
    → IsModal key counts r
    → IsModal key (((k, row.0), row.1) ∷ counts) r
IsModal-other key k row counts none ne h = (ne, h)
IsModal-other key k row counts (some c) ne (o, others) = (inr o, ((λ q. absurd (ne q)), others))

choose-IsModal :
    (key : ℕ) (counts : List ((ℕ × Bytes) × ℕ)) → IsModal key counts (choose key counts none)
choose-IsModal key [] = tt
choose-IsModal key (((k, pc), n) ∷ counts) = elim (Bool-cases (k == key)) [
  | inl e ↦ rw e (
      IsModal-first key k (pc, n) counts _ ((==_iff k key).0 e)
        (choose-Improves key counts (pc, n)))
  | inr e ↦ rw e (
      IsModal-other key k (pc, n) counts _ (λ q. let t = (==_iff k key).1 q in cc)
        (choose-IsModal key counts))
]

-- For every key, what the loop keeps occurs among the counts for the key, none of which is larger
-- or, at the same count, for a smaller postcode; nothing is kept only for a key
-- without counts. This holds in whatever order the counts come.
pub pick_best-IsModal :
    (counts : List ((ℕ × Bytes) × ℕ)) (key : ℕ)
    → IsModal key counts (kept_for key (pick_best counts []))
pick_best-IsModal counts key =
    subst (IsModal key counts) (sym (kept_for-pick_best key counts [])) (choose-IsModal key counts)

fresh_key :
    (a k : ℕ) (c : Counted) (best : List (ℕ × Counted))
    → a ≢ k
    → All (λ b. a ≢ b.0) best
    → All (λ b. a ≢ b.0) (update_best k c best)
unfolding update_best
fresh_key a k c [] n h = (n, tt)
fresh_key a k c ((j, existing) ∷ best) n (hj, h) = elim (Bool-cases (j == k)) [
  | inl e ↦ rw e (hj, h)
  | inr e ↦ rw e (hj, fresh_key a k c best n h)
]

update_best-IsDistinct :
    (k : ℕ) (c : Counted) (best : List (ℕ × Counted))
    → IsDistinct (λ b. b.0) best
    → IsDistinct (λ b. b.0) (update_best k c best)
unfolding update_best
update_best-IsDistinct k c [] h = (tt, tt)
update_best-IsDistinct k c ((j, existing) ∷ best) (hj, h) = elim (Bool-cases (j == k)) [
  | inl e ↦ rw e (hj, h)
  | inr e ↦ rw e (
    fresh_key j k c best (λ q. let t = (==_iff j k).1 q in cc) hj,
    update_best-IsDistinct k c best h,
  )
]

-- The kept entries have distinct keys.
pub pick_best-IsDistinct :
    (counts : List ((ℕ × Bytes) × ℕ)) (best : List (ℕ × Counted))
    → IsDistinct (λ b. b.0) best
    → IsDistinct (λ b. b.0) (pick_best counts best)
unfolding pick_best
pick_best-IsDistinct [] best h = h
pick_best-IsDistinct (((k, pc), n) ∷ counts) best h =
    pick_best-IsDistinct counts (update_best k (pc, n) best)
      (update_best-IsDistinct k (pc, n) best h)
