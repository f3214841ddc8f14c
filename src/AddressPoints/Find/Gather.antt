-- ===== src/AddressPoints/Find/Gather.antt =====
-- What the cells around a query hold, for the searches of server/src/address_points.rs.
use geocoder.Prelude.{
  ℕ, ◌≡◌, refl, true, List, [], ◌∷◌, ◌++◌, none, some, get_elem?, is_empty, Outcome, done, and_then,
}
use geocoder.AddressPoints.{cell_ids}
use geocoder.AddressPoints.Find.{AddressPointIndex}

-- The ids that the cells hold, one cell after the other.
abbrev pub gathered : {F : Type 0} → AddressPointIndex F → List ℕ → Outcome (List ℕ)
gathered self [] = done []
gathered self (cell ∷ near) =
    and_then (cell_ids self.cells self.entries cell)
      λ ids. and_then (gathered self near) λ more. done (ids ++ more)

-- The points that ids name; an id beyond the file names none.
abbrev pub resolved : {P : Type 0} → List P → List ℕ → List P
resolved points [] = []
resolved points (id ∷ ids) = elim (get_elem? points id) [
  | none ↦ resolved points ids
  | some p ↦ p ∷ resolved points ids
]

pub resolved-none :
    {P : Type 0} (points : List P) (id : ℕ) (ids : List ℕ)
    → get_elem? points id ≡ none
    → resolved points (id ∷ ids) ≡ resolved points ids
resolved-none points id ids e = rw (resolved, e) refl

pub resolved-some :
    {P : Type 0} (points : List P) (id : ℕ) (ids : List ℕ) {p : P}
    → get_elem? points id ≡ some p
    → resolved points (id ∷ ids) ≡ p ∷ resolved points ids
resolved-some points id ids e = rw (resolved, e) refl

pub resolved_empty :
    {P : Type 0} (points : List P) (ids : List ℕ)
    → is_empty points ≡ true
    → [] ≡ resolved points ids
resolved_empty [] [] e = refl
resolved_empty [] (id ∷ ids) e = resolved_empty [] ids e
resolved_empty (p ∷ points) ids e = cc
