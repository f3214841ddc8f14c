-- ===== src/Admin/Fields/Order.antt =====
-- The loop of `find_admin` in server/src/lib.rs that fills the fields, against a description of each
-- field by itself.
use geocoder.Prelude.{
  ℕ, ◌≡◌, refl, sym, ap, ◌∙◌, Bool, true, false, List, [], ◌∷◌, Option, none, some, if◌then◌else◌,
  Text, Outcome, done, and_then, Option-cases, and_then-eq-done, inl, inr,
}
use geocoder.Bytes.{Bytes}
use geocoder.Admin.Config.{
  AdminField, AdminConfig, country, state, county, county_if_empty, city, city_if_empty, postcode,
  ignore,
}
use geocoder.Admin.Search.{Visit}
use geocoder.Admin.Fields.{Named, AdminResult, no_fields, or_named, fill, field_of, map_levels}

abbrev is_state : AdminField → Bool
is_state f = elim f [ state ↦ true | _ ↦ false ]

abbrev is_county : AdminField → Bool
is_county f = elim f [ county ↦ true | _ ↦ false ]

abbrev is_spare_county : AdminField → Bool
is_spare_county f = elim f [ county_if_empty ↦ true | _ ↦ false ]

abbrev is_city : AdminField → Bool
is_city f = elim f [ city ↦ true | _ ↦ false ]

abbrev is_spare_city : AdminField → Bool
is_spare_city f = elim f [ city_if_empty ↦ true | _ ↦ false ]

abbrev is_postcode : AdminField → Bool
is_postcode f = elim f [ postcode ↦ true | _ ↦ false ]

abbrev pub Filled : Type 0
Filled = List (AdminField × Named)

abbrev first_some : {X : Type 0} → Option X → Option X → Option X
first_some none o = o
first_some (some x) o = some x

abbrev only : {X : Type 0} → Bool → X → Option X
only b x = if b then some x else none

module _ {X : Type 0} (get : Named → X) (test : AdminField → Bool) where
  -- The last, and the first, name that is mapped to a field.
  abbrev last_at : Filled → Option X
  last_at [] = none
  last_at ((f, n) ∷ fs) = first_some (last_at fs) (only (test f) (get n))

  abbrev first_at : Filled → Option X
  first_at [] = none
  first_at ((f, n) ∷ fs) = first_some (only (test f) (get n)) (first_at fs)

abbrev whole : Named → Named
whole n = n

abbrev text_of : Named → Bytes
text_of n = n.0

-- Each field by itself, over the fields of `r`.
abbrev over : Filled → AdminResult → AdminResult
over fs r = record {
  state_name = first_some (last_at whole is_state fs) r.state_name;
  county_name =
      first_some (last_at whole is_county fs)
        (first_some r.county_name (first_at whole is_spare_county fs));
  city_name =
      first_some (last_at whole is_city fs)
        (first_some r.city_name (first_at whole is_spare_city fs));
  postcode_name = first_some (last_at text_of is_postcode fs) r.postcode_name;
}

-- The last name mapped to a field, or else the first that only fills it when it is empty.
abbrev pub settled : Filled → AdminResult
settled fs = record {
  state_name = last_at whole is_state fs;
  county_name = first_some (last_at whole is_county fs) (first_at whole is_spare_county fs);
  city_name = first_some (last_at whole is_city fs) (first_at whole is_spare_city fs);
  postcode_name = last_at text_of is_postcode fs;
}

result_eq :
    {s s' c c' t t' : Option Named} {p p' : Option Bytes}
    → s ≡ s'
    → c ≡ c'
    → t ≡ t'
    → p ≡ p'
    → ◌≡◌ {A = AdminResult}
        (record { state_name = s; county_name = c; city_name = t; postcode_name = p })
        (record { state_name = s'; county_name = c'; city_name = t'; postcode_name = p' })
result_eq e f g h =
    λ i. record { state_name = e i; county_name = f i; city_name = g i; postcode_name = h i }

written :
    {X : Type 0} (o r : Option X) (x : X)
    → first_some o (some x) ≡ first_some (first_some o (some x)) r
written none r x = refl
written (some y) r x = refl

unwritten : {X : Type 0} (o r : Option X) → first_some o r ≡ first_some (first_some o none) r
unwritten none r = refl
unwritten (some y) r = refl

spared :
    (o r : Option Named) (n : Named) (f : Option Named)
    → first_some o (first_some (or_named r n) f)
      ≡ first_some (first_some o none) (first_some r (some n))
spared none none n f = refl
spared none (some m) n f = refl
spared (some m) r n f = refl

no_rest : {X : Type 0} (o : Option X) → first_some o none ≡ o
no_rest none = refl
no_rest (some x) = refl

module _ (fs : Filled) (r : AdminResult) where
  -- A field that a step leaves alone.
  state_kept :
      first_some (last_at whole is_state fs) r.state_name
      ≡ first_some (first_some (last_at whole is_state fs) none) r.state_name
  state_kept = unwritten (last_at whole is_state fs) r.state_name

  postcode_kept :
      first_some (last_at text_of is_postcode fs) r.postcode_name
      ≡ first_some (first_some (last_at text_of is_postcode fs) none) r.postcode_name
  postcode_kept = unwritten (last_at text_of is_postcode fs) r.postcode_name

  county_kept :
      first_some
        (last_at whole is_county fs)
        (first_some r.county_name (first_at whole is_spare_county fs))
      ≡ first_some
          (first_some (last_at whole is_county fs) none)
          (first_some r.county_name (first_at whole is_spare_county fs))
  county_kept =
      unwritten (last_at whole is_county fs)
        (first_some r.county_name (first_at whole is_spare_county fs))

  city_kept :
      first_some
        (last_at whole is_city fs)
        (first_some r.city_name (first_at whole is_spare_city fs))
      ≡ first_some
          (first_some (last_at whole is_city fs) none)
          (first_some r.city_name (first_at whole is_spare_city fs))
  city_kept =
      unwritten (last_at whole is_city fs)
        (first_some r.city_name (first_at whole is_spare_city fs))

  -- One step of the loop.
  over-fill : (f : AdminField) (n : Named) → over fs (fill f n r) ≡ over ((f, n) ∷ fs) r
  unfolding fill
  over-fill country n = result_eq state_kept county_kept city_kept postcode_kept
  over-fill state n =
      result_eq (written (last_at whole is_state fs) r.state_name n) county_kept city_kept
        postcode_kept
  over-fill county n =
      result_eq state_kept
        (written (last_at whole is_county fs)
          (first_some r.county_name (first_at whole is_spare_county fs)) n)
        city_kept postcode_kept
  over-fill county_if_empty n =
      result_eq state_kept
        (spared (last_at whole is_county fs) r.county_name n (first_at whole is_spare_county fs))
        city_kept postcode_kept
  over-fill city n =
      result_eq state_kept county_kept
        (written (last_at whole is_city fs)
          (first_some r.city_name (first_at whole is_spare_city fs)) n)
        postcode_kept
  over-fill city_if_empty n =
      result_eq state_kept county_kept
        (spared (last_at whole is_city fs) r.city_name n (first_at whole is_spare_city fs))
        postcode_kept
  over-fill postcode n =
      result_eq state_kept county_kept city_kept
        (written (last_at text_of is_postcode fs) r.postcode_name n.0)
  over-fill ignore n = result_eq state_kept county_kept city_kept postcode_kept

over_no_names : (r : AdminResult) → r ≡ over [] r
over_no_names r = result_eq refl (sym (no_rest r.county_name)) (sym (no_rest r.city_name)) refl

over-no_fields : (fs : Filled) → over fs no_fields ≡ settled fs
over-no_fields fs =
    result_eq (no_rest (last_at whole is_state fs)) refl refl
      (no_rest (last_at text_of is_postcode fs))

module _ {A : Type 0} (greater : A → A → Bool) (config : AdminConfig A)
    (name_of : ℕ → Outcome Bytes) (cc' : Option Text) where
  -- The names that are mapped to fields, in the order of the levels.
  abbrev pub named_fields : List (Visit A) → Outcome Filled
  named_fields [] = done []
  named_fields (v ∷ vs) = elim (field_of greater config name_of cc' v) [
    | none ↦ named_fields vs
    | some field ↦
        and_then (name_of v.poly.name_id)
          λ name. and_then (named_fields vs) λ more. done ((field, (name, v.poly_id)) ∷ more)
  ]

  map_levels-over :
      (vs : List (Visit A)) (r : AdminResult) {fs : Filled}
      → named_fields vs ≡ done fs
      → map_levels greater config name_of cc' vs r ≡ done (over fs r)
  unfolding map_levels
  map_levels-over [] r {fs} e =
      let q : [] ≡ fs = cc in ap done (over_no_names r) ∙ ap (λ gs. done (over gs r)) q
  map_levels-over (v ∷ vs) r {fs} e = elim (Option-cases (field_of greater config name_of cc' v)) [
    | inl none_here ↦
        rw (map_levels, none_here) (map_levels-over vs r (rw (named_fields, none_here) at e))
    | inr (field, here) ↦
        let (name, p, q) =
          and_then-eq-done (name_of v.poly.name_id) _ (rw (named_fields, here) at e) in
        let (more, u, w) = and_then-eq-done (named_fields vs) _ q in
        let same : (field, (name, v.poly_id)) ∷ more ≡ fs = cc in
        rw (map_levels, here, p)
          (map_levels-over vs (fill field (name, v.poly_id) r) u
            ∙ ap done (over-fill more r field (name, v.poly_id))
            ∙ ap (λ gs. done (over gs r)) same)
  ]

  -- When the names can be read, the loop of `find_admin` over the levels gives the state and the
  -- postcode the last name that is mapped to them, and the county and the city the last name that
  -- is mapped to them or else the first that is to fill them only if empty, whatever the order in
  -- which the levels mix.
  pub map_levels-settled :
      (vs : List (Visit A)) (fs : Filled)
      → named_fields vs ≡ done fs
      → map_levels greater config name_of cc' vs no_fields ≡ done (settled fs)
  map_levels-settled vs fs e = map_levels-over vs no_fields e ∙ ap done (over-no_fields fs)
