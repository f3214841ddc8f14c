-- ===== src/Prelude/Outcomes.antt =====
-- What a computation that may panic comes to. `no_fuel` means that a loop's fuel ran out, which the
-- program has no counterpart of: a theorem rules it out wherever fuel is used.
use mathlib.Core.Option.{Option, none, some}
use mathlib.Core.Path.{◌≡◌, refl}

pub data Outcome {ℓ} (A : Type ℓ) : Type ℓ where
  done : A → Outcome A
  panic no_fuel : Outcome A

-- An index or a slice out of range, or an `expect` that fails.
abbrev pub or_panic {ℓ} : {A : Type ℓ} → Option A → Outcome A
or_panic none = panic
or_panic (some a) = done a

abbrev pub and_then {ℓ κ} : {A : Type ℓ} {B : Type κ} → Outcome A → (A → Outcome B) → Outcome B
and_then (done a) f = f a
and_then panic f = panic
and_then no_fuel f = no_fuel

pub and_then-eq-done {ℓ κ} :
    {A : Type ℓ} {B : Type κ} (m : Outcome A) (f : A → Outcome B) {b : B}
    → and_then m f ≡ done b
    → (a : A) × (m ≡ done a) × (f a ≡ done b)
and_then-eq-done (done a) f h = (a, refl, h)
and_then-eq-done panic f h = cc
and_then-eq-done no_fuel f h = cc
