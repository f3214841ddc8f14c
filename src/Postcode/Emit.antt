-- ===== src/Postcode/Emit.antt =====
-- The emitting pass of server/src/bin/build_postcode_lookup.rs: its entries serve the keys.
use geocoder.Prelude.{
  ℕ, ◌+◌, ◌^◌, ◌≤◌, ◌<◌, ◌≡◌, ◌≢◌, refl, ap, sym, ◌∙◌, subst, List, [], ◌∷◌, ◌++◌, append_assoc,
  append-nil, Option, none, some, arith, ◌==◌, length, All, Bool-cases, inl, inr,
}
use geocoder.Bytes.{Bytes}
use geocoder.Search.Table.{find_row}
use geocoder.Search.Sort.{IsDistinct}
use geocoder.Postcode.{RawEntry, Interned, read_cstr, intern, emit}
use geocoder.Postcode.Pool.{
  IsStorable, Holds, read_cstr_lem, Holds-append, Holds-lt, IsPool, intern-Interns,
}

abbrev pub Best : Type 0
Best = List (ℕ × Bytes)

-- The bytes that the pool needs at most: each postcode and its NUL.
abbrev pub pool_size : Best → ℕ
pool_size [] = 0
pool_size ((key, s) ∷ best) = length s + 1 + pool_size best

-- Entry by entry: the key, and an offset at which the pool holds the postcode.
abbrev pub Serves : Bytes → Best → List RawEntry → Type 0
Serves strings [] [] = Unit
Serves strings [] (e ∷ entries) = ⊥
Serves strings (b ∷ best) [] = ⊥
Serves strings (b ∷ best) (e ∷ entries) =
    (e.key_hash ≡ b.0)
    × Holds strings b.1 e.postcode_offset
    × (e.pad ≡ 0)
    × Serves strings best entries

-- The entries made for a list of keys serve it, from a pool that only grew.
pub record Emitted (best : Best) (pool : Interned) (entries : List RawEntry) (pool' : Interned)
    : Type 0 where
  pub serves : Serves pool'.strings best entries
  pub more : Bytes
  pub grown : pool'.strings ≡ pool.strings ++ more
  pub size : length pool'.strings ≤ length pool.strings + pool_size best

pub emit-Emitted :
    (best : Best) (pool : Interned)
    → IsPool pool
    → length pool.strings + pool_size best < 2 ^ 32
    → Emitted best pool (emit best pool).0 (emit best pool).1
unfolding emit
emit-Emitted [] pool valid small = record {
  serves = tt;
  more = [];
  grown = sym (append-nil pool.strings);
  size = omega arith;
}
emit-Emitted ((key, s) ∷ best) pool valid small =
    let i = intern-Interns s pool valid (omega arith) in
    let pool' = (intern s pool).1 in
    let offset = (intern s pool).0 in
    let r = emit-Emitted best pool' i.valid (omega (arith, i.size)) in
    record {
      serves = (
        refl,
        subst (λ t. Holds t s offset) (sym r.grown)
            (Holds-append pool'.strings r.more s offset i.holds),
        refl,
        r.serves,
      );
      more = i.more ++ r.more;
      grown = r.grown ∙ ap (λ t. t ++ r.more) i.grown ∙ append_assoc pool.strings i.more r.more;
      size = omega (arith, r.size, i.size);
    }

-- The numbers of an entry fit their fields.
abbrev pub Fits : RawEntry → Type 0
Fits e = (e.key_hash < 2 ^ 64) × (e.postcode_offset < 2 ^ 32)

-- The postcode of a row of `best`.
abbrev pub answer : Option (ℕ × Bytes) → Option Bytes
answer none = none
answer (some b) = some b.1

-- What is read at the entry that the search finds, if it finds one.
abbrev pub read : Bytes → Option RawEntry → Option Bytes
read strings none = none
read strings (some e) = read_cstr strings e.postcode_offset

module _ (strings : Bytes) (small : length strings < 2 ^ 32) where
  pub Serves-Fits :
      (best : Best) (entries : List RawEntry)
      → Serves strings best entries
      → All (λ b. b.0 < 2 ^ 64) best
      → All Fits entries
  Serves-Fits [] [] s w = tt
  Serves-Fits [] (e ∷ entries) s w = elim s [ ]
  Serves-Fits (b ∷ best) [] s w = elim s [ ]
  Serves-Fits (b ∷ best) (e ∷ entries) (k, h, z, s) (wb, w) = (
    (rw k wb, omega (arith, Holds-lt strings b.1 e.postcode_offset h)),
    Serves-Fits best entries s w,
  )

  Serves-ne :
      (a : ℕ) (best : Best) (entries : List RawEntry)
      → Serves strings best entries
      → All (λ b. a ≢ b.0) best
      → All (λ e. a ≢ e.key_hash) entries
  Serves-ne a [] [] s w = tt
  Serves-ne a [] (e ∷ entries) s w = elim s [ ]
  Serves-ne a (b ∷ best) [] s w = elim s [ ]
  Serves-ne a (b ∷ best) (e ∷ entries) (k, h, z, s) (wb, w) =
      (rw k wb, Serves-ne a best entries s w)

  pub Serves-IsDistinct :
      (best : Best) (entries : List RawEntry)
      → Serves strings best entries
      → IsDistinct (λ b. b.0) best
      → IsDistinct (λ e. e.key_hash) entries
  Serves-IsDistinct [] [] s d = tt
  Serves-IsDistinct [] (e ∷ entries) s d = elim s [ ]
  Serves-IsDistinct (b ∷ best) [] s d = elim s [ ]
  Serves-IsDistinct (b ∷ best) (e ∷ entries) (k, h, z, s) (db, d) =
      (rw k (Serves-ne b.0 best entries s db), Serves-IsDistinct best entries s d)

  pub Serves-answer :
      (key : ℕ) (best : Best) (entries : List RawEntry)
      → Serves strings best entries
      → All (λ b. IsStorable b.1) best
      → read strings (find_row (λ e. e.key_hash) key entries)
        ≡ answer (find_row (λ b. b.0) key best)
  unfolding find_row
  Serves-answer key [] [] s st = refl
  Serves-answer key [] (e ∷ entries) s st = elim s [ ]
  Serves-answer key (b ∷ best) [] s st = elim s [ ]
  Serves-answer key (b ∷ best) (e ∷ entries) (k, h, z, s) (ok, st) =
      elim (Bool-cases (b.0 == key)) [
        | inl same ↦ rw (k, same) (read_cstr_lem strings b.1 e.postcode_offset ok h)
        | inr other ↦ rw (k, other) (Serves-answer key best entries s st)
      ]
