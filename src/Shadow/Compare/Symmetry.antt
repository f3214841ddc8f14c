-- ===== src/Shadow/Compare/Symmetry.antt =====
-- The comparison of names in server/src/shadow.rs does not depend on the order of the two sides.
use geocoder.Prelude.{
  ◌≡◌, refl, Bool, true, false, ◌||◌, [], ◌∷◌, map, Option, none, some, arith, to_lower, text_eq,
  Text,
}
use geocoder.Shadow.Compare.{contains, matches_initials, compare_admin}

text_eq_symm : (s t : Text) → text_eq s t ≡ text_eq t s
unfolding text_eq
text_eq_symm [] [] = refl
text_eq_symm [] (d ∷ t) = refl
text_eq_symm (c ∷ s) [] = refl
text_eq_symm (c ∷ s) (d ∷ t) = ground (arith, text_eq_symm s t)

or_symm : (a b : Bool) → (a || b) ≡ (b || a)
or_symm true true = refl
or_symm true false = refl
or_symm false true = refl
or_symm false false = refl

-- Two names are judged alike in both orders.
pub compare_admin_symm : (a b : Option Text) → compare_admin a b ≡ compare_admin b a
unfolding compare_admin
compare_admin_symm none none = refl
compare_admin_symm none (some y) = refl
compare_admin_symm (some x) none = refl
compare_admin_symm (some x) (some y) =
    let xl = map to_lower x in
    let yl = map to_lower y in
    rw
      (
        text_eq_symm xl yl,
        or_symm (contains xl yl) (contains yl xl),
        or_symm (matches_initials xl yl) (matches_initials yl xl),
      )
      refl
