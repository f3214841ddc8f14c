-- ===== src/Shadow/Config.antt =====
-- The switches of server/src/shadow.rs. A call of `tracing` has no effect here.
use geocoder.Prelude.{
  ℕ, ◌≡◌, ◌↔◌, refl, sym, ◌∙◌, Bool, true, false, ◌||◌, Option, none, some, ◌⊎◌, inl, inr,
  if◌then◌else◌, ltb, map, trim, to_lower, text_eq, codes, Text,
}

-- `"true" | "1" | "yes" | "on"`
abbrev pub is_true : Text → Bool
is_true v =
    text_eq v (codes "true")
    || (text_eq v (codes "1") || (text_eq v (codes "yes") || text_eq v (codes "on")))

abbrev pub is_false : Text → Bool
is_false v =
    text_eq v (codes "false")
    || (text_eq v (codes "0")
        || (text_eq v (codes "no") || (text_eq v (codes "off") || text_eq v (codes ""))))

unfoldable pub parse_flag : Option Text → Option Bool
unfolding trim to_lower text_eq
parse_flag none = none
parse_flag (some v) =
    let word = map to_lower (trim v) in
    if is_true word then some true else if is_false word then some false else some false

unfoldable pub resolve_shadow_enabled : Option Text → Bool → Bool
unfolding parse_flag
resolve_shadow_enabled flag api_key_set = elim (parse_flag flag) [
  | some on ↦ if on then api_key_set else false
  | none ↦ api_key_set
]

abbrev pub max_daily_cap : ℕ
max_daily_cap = 100000

unfoldable pub clamp_daily_cap : ℕ → ℕ
clamp_daily_cap raw = if ltb max_daily_cap raw then max_daily_cap else raw

switch :
    (t f key : Bool)
    → (elim (if t then some true else if f then some false else some false) [
      | some on ↦ if on then key else false
      | none ↦ key
    ])
      ≡ (if t then key else false)
switch true f key = refl
switch false true key = refl
switch false false key = refl

resolve_some :
    (v : Text) (key : Bool)
    → resolve_shadow_enabled (some v) key ≡ (if is_true (map to_lower (trim v)) then key else false)
unfolding resolve_shadow_enabled
resolve_some v key = switch (is_true (map to_lower (trim v))) (is_false (map to_lower (trim v))) key

both : (t key : Bool) → (if t then key else false) ≡ true → (key ≡ true) × (t ≡ true)
both true key h = (h, refl)
both false key h = cc

-- The switch is on exactly when a key is set and the flag is missing or says so.
pub resolve_shadow_enabled_iff :
    (flag : Option Text) (api_key_set : Bool)
    → (resolve_shadow_enabled flag api_key_set ≡ true) ↔ (
        (api_key_set ≡ true)
        × ((flag ≡ none)
            ⊎ ((v : Text) × (flag ≡ some v) × (is_true (map to_lower (trim v)) ≡ true))))
unfolding resolve_shadow_enabled
resolve_shadow_enabled_iff none key = (λ h. (h, inl refl), λ h. h.0)
resolve_shadow_enabled_iff (some v) key = (
  λ h.
      let (k, t) = both (is_true (map to_lower (trim v))) key (sym (resolve_some v key) ∙ h) in
      (k, inr (v, refl, t)),
  λ h. elim h.1 [
    | inl n ↦ absurd (cc)
    | inr (w, e, t) ↦
        let q : v ≡ w = cc in
        let u : is_true (map to_lower (trim v)) ≡ true = rw q t in resolve_some v key ∙ rw u (h.0)
  ],
)
