-- ===== src/Tests/LogFilter.antt =====
-- The theorems on server/src/telemetry.rs at small inputs.
use geocoder.Prelude.{ℕ, ◌≡◌, ◌+◌, ◌<◌, refl, true, false, List, [], ◌∷◌, arith}
use geocoder.Telemetry.Dedup.{Event, should_emit, emitted, state_after}
use geocoder.Telemetry.Dedup.Spacing.{InTime, Spaced, emitted-Spaced}
use geocoder.Telemetry.Dedup.Silence.{Holds, should_emit-Holds}

abbrev event : ℕ → ℕ → Event
event now callsite = record { now = now; callsite = callsite; in_target = true }

abbrev logged : List Event
logged = event 1 7 ∷ event 5 8 ∷ event 20 7 ∷ event 31 7 ∷ []

two_callsites : emitted 30 logged [] ≡ event 1 7 ∷ event 5 8 ∷ event 31 7 ∷ []
unfolding emitted
two_callsites = refl

logged-InTime : InTime 0 logged
logged-InTime = (omega arith, (omega arith, (omega arith, (omega arith, tt))))

emitted-Spaced_example : Spaced 30 (emitted 30 logged [])
emitted-Spaced_example = emitted-Spaced 30 logged logged-InTime

too_soon : (should_emit 30 (event 40 7) (state_after 30 logged [])).0 ≡ false
unfolding should_emit state_after
too_soon = refl

should_emit-Holds_example : (t : ℕ) × Holds 7 t (emitted 30 logged []) × (40 < t + 30)
should_emit-Holds_example = should_emit-Holds 30 logged (event 40 7) too_soon
