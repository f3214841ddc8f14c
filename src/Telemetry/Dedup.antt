-- ===== src/Telemetry/Dedup.antt =====
-- `DedupFilter` of server/src/telemetry.rs. The state maps a callsite to the time of its last event
-- that passed. Events come in the order in which their tasks take the lock, and an event carries the
-- time that its task read before, so that times need not ascend.
pub mod Spacing
pub mod Silence
use geocoder.Prelude.{
  ℕ, ◌-◌, Bool, true, false, not, ◌&&◌, List, [], ◌∷◌, Option, none, some, if◌then◌else◌, ltb, ◌==◌,
}

pub record Event : Type 0 where
  pub now : ℕ
  pub callsite : ℕ
  pub in_target : Bool

abbrev pub LastEmitted : Type 0
LastEmitted = List (ℕ × ℕ)

abbrev pub last_of : LastEmitted → ℕ → Option ℕ
last_of [] id = none
last_of ((k, t) ∷ state) id = if k == id then some t else last_of state id

-- `HashMap::insert`.
abbrev pub insert_last : ℕ → ℕ → LastEmitted → LastEmitted
insert_last id t state = (id, t) ∷ state

module _ (window : ℕ) where
  -- `duration_since` is zero for a time that has not come.
  abbrev pub is_recent : Option ℕ → ℕ → Bool
  is_recent none now = false
  is_recent (some last) now = ltb (now - last) window

  unfoldable pub should_emit : Event → LastEmitted → Bool × LastEmitted
  should_emit event state =
      if not event.in_target
      then (true, state)
      else if is_recent (last_of state event.callsite) event.now
      then (false, state)
      else (true, insert_last event.callsite event.now state)

  -- The events that pass, of a sequence.
  unfoldable pub emitted : List Event → LastEmitted → List Event
  unfolding should_emit
  emitted [] state = []
  emitted (event ∷ events) state =
      let (passes, state') = should_emit event state in
      let rest = emitted events state' in if passes then event ∷ rest else rest

  -- The state behind a sequence.
  unfoldable pub state_after : List Event → LastEmitted → LastEmitted
  unfolding should_emit
  state_after [] state = state
  state_after (event ∷ events) state = state_after events (should_emit event state).1
