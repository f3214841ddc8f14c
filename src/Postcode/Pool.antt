-- ===== src/Postcode/Pool.antt =====
-- The string pool of server/src/bin/build_postcode_lookup.rs: an interned string is read back at its
-- offset, also when more strings follow.
use geocoder.Prelude.{
  ℕ, ◌+◌, ◌%◌, ◌^◌, ◌≤◌, ◌<◌, ◌≡◌, refl, ap, sym, ◌∙◌, subst, true, List, [], ◌∷◌, ◌++◌,
  append_assoc, append-nil, some, arith, length, length-append, drop-append, leb, text_eq, All,
  Lacks, Bool-cases, Option-cases, inl, inr, ne→==,
}
use geocoder.Bytes.{Bytes, until_nul}
use geocoder.Bytes.Utf8.{is_utf8}
use geocoder.Postcode.{read_cstr, Interned, offset_of, intern}

until_nul_lem : (s post : Bytes) → Lacks 0 s → until_nul (s ++ 0 ∷ post) ≡ s
unfolding until_nul
until_nul_lem [] post h = refl
until_nul_lem (b ∷ s) post (hb, h) = rw (ne→== b 0 hb, until_nul_lem s post h)

-- Well-formed text without a NUL: what a pool can hold.
pub record IsStorable (s : Bytes) : Type 0 where
  pub utf8 : is_utf8 s ≡ true
  pub no_nul : Lacks 0 s

-- The pool has the string and a NUL at the offset.
pub record Holds (strings s : Bytes) (offset : ℕ) : Type 0 where
  pub pre : Bytes
  pub post : Bytes
  pub spelled : strings ≡ pre ++ (s ++ 0 ∷ post)
  pub place : length pre ≡ offset

pub read_cstr_lem :
    (strings s : Bytes) (offset : ℕ)
    → IsStorable s
    → Holds strings s offset
    → read_cstr strings offset ≡ some s
unfolding read_cstr
read_cstr_lem strings s offset ok h =
    let fits : leb (length h.pre) (length (h.pre ++ (s ++ 0 ∷ h.post))) ≡ true =
      ground (arith, length-append h.pre (s ++ 0 ∷ h.post)) in
    rw (
      h.spelled,
      ← h.place,
      fits,
      drop-append h.pre (s ++ 0 ∷ h.post),
      until_nul_lem s h.post ok.no_nul,
      ok.utf8,
    )

pub Holds-append :
    (strings more s : Bytes) (offset : ℕ)
    → Holds strings s offset
    → Holds (strings ++ more) s offset
Holds-append strings more s offset h = record {
  pre = h.pre;
  post = h.post ++ more;
  spelled = ap (λ t. t ++ more) h.spelled ∙ simp append_assoc;
  place = h.place;
}

pub Holds-lt : (strings s : Bytes) (offset : ℕ) → Holds strings s offset → offset < length strings
Holds-lt strings s offset h =
    rw (h.spelled)
      (omega (arith, h.place, length-append h.pre (s ++ 0 ∷ h.post), length-append s (0 ∷ h.post)))

pub text_eq-eq : (s t : Bytes) → text_eq s t ≡ true → s ≡ t
unfolding text_eq
text_eq-eq [] [] h = refl
text_eq-eq [] (d ∷ t) h = cc
text_eq-eq (c ∷ s) [] h = cc
text_eq-eq (c ∷ s) (d ∷ t) h = ground (arith, text_eq-eq s t)

-- Every recorded offset holds its string.
abbrev pub IsPool : Interned → Type 0
IsPool pool = All (λ e. Holds pool.strings e.0 e.1) pool.offsets

offset_of-Holds :
    (strings s : Bytes) (offsets : List (Bytes × ℕ)) {o : ℕ}
    → All (λ e. Holds strings e.0 e.1) offsets
    → offset_of s offsets ≡ some o
    → Holds strings s o
unfolding offset_of
offset_of-Holds strings s [] h e = absurd (cc)
offset_of-Holds strings s ((t, p) ∷ offsets) {o} (ht, h) e = elim (Bool-cases (text_eq t s)) [
  | inl same ↦
      let q : t ≡ s = text_eq-eq t s same in
      let r : p ≡ o = ground (arith, rw same at e) in
      subst (λ x. Holds strings x o) q (subst (λ x. Holds strings t x) r ht)
  | inr other ↦ offset_of-Holds strings s offsets h (rw other at e)
]

All-Holds-append :
    (strings more : Bytes) (offsets : List (Bytes × ℕ))
    → All (λ e. Holds strings e.0 e.1) offsets
    → All (λ e. Holds (strings ++ more) e.0 e.1) offsets
All-Holds-append strings more [] h = tt
All-Holds-append strings more (e ∷ offsets) (he, h) =
    (Holds-append strings more e.0 e.1 he, All-Holds-append strings more offsets h)

-- What interning a string does to the pool.
pub record Interns (s : Bytes) (pool : Interned) (offset : ℕ) (pool' : Interned) : Type 0 where
  pub holds : Holds pool'.strings s offset
  pub valid : IsPool pool'
  pub more : Bytes
  pub grown : pool'.strings ≡ pool.strings ++ more
  pub size : length pool'.strings ≤ length pool.strings + length s + 1

pub intern-Interns :
    (s : Bytes) (pool : Interned)
    → IsPool pool
    → length pool.strings < 2 ^ 32
    → Interns s pool (intern s pool).0 (intern s pool).1
unfolding intern
intern-Interns s pool valid small = elim (Option-cases (offset_of s pool.offsets)) [
  | inr (o, e) ↦
      rw (intern, e)
        (record {
          holds = offset_of-Holds pool.strings s pool.offsets valid e;
          valid = valid;
          more = [];
          grown = sym (append-nil pool.strings);
          size = omega arith;
        })
  | inl e ↦
      let at : length pool.strings ≡ length pool.strings % 2 ^ 32 = omega arith in
      let new : Holds (pool.strings ++ (s ++ 0 ∷ [])) s (length pool.strings % 2 ^ 32) = record {
        pre = pool.strings;
        post = [];
        spelled = refl;
        place = at;
      } in
      rw (intern, e)
        (record {
          holds = new;
          valid = (new, All-Holds-append pool.strings (s ++ 0 ∷ []) pool.offsets valid);
          more = s ++ 0 ∷ [];
          grown = refl;
          size = omega (arith, length-append pool.strings (s ++ 0 ∷ []), length-append s (0 ∷ []));
        })
]
