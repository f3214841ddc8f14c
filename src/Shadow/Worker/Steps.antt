-- ===== src/Shadow/Worker/Steps.antt =====
-- The interleavings of the tasks of server/src/shadow.rs: events, and the states that they lead to.
use geocoder.Prelude.{ℕ, suc, ◌≡◌, List, [], ◌∷◌, Option, none, some}
use geocoder.Shadow.Worker.{ShadowConfig, Reply, State, try_send, receive, dispatch, finish, reset}

pub data Event (Job : Type 0) : Type 0 where
  sends : Job → Event Job
  receives : ℕ → Event Job
  dispatches : Event Job
  finishes : ℕ → Reply → Event Job
  midnight : Event Job

module _ {Job : Type 0} (cfg : ShadowConfig) where
  -- What an event makes of a state in which it is possible.
  abbrev pub after : Event Job → State Job → Option (State Job)
  after (sends job) s = some (try_send cfg job s).0
  after (receives now) s = elim (receive cfg now s) [ none ↦ none | some r ↦ some r.0 ]
  after dispatches s = dispatch cfg s
  after (finishes now reply) s = elim (finish cfg now reply s) [ none ↦ none | some r ↦ some r.0 ]
  after midnight s = some (reset s)

  -- The events lead from one state to another.
  pub data Reach : State Job → List (Event Job) → State Job → Type 0 where
    stays : {s : State Job} → Reach s [] s
    steps :
        {s t u : State Job} {events : List (Event Job)} (e : Event Job)
        → after e s ≡ some t
        → Reach t events u
        → Reach s (e ∷ events) u

-- The calls that events dispatch.
abbrev pub dispatched : {Job : Type 0} → List (Event Job) → ℕ
dispatched [] = 0
dispatched (dispatches ∷ events) = suc (dispatched events)
dispatched (sends job ∷ events) = dispatched events
dispatched (receives now ∷ events) = dispatched events
dispatched (finishes now reply ∷ events) = dispatched events
dispatched (midnight ∷ events) = dispatched events

-- No midnight passes.
abbrev pub SameDay : {Job : Type 0} → List (Event Job) → Type 0
SameDay [] = Unit
SameDay (midnight ∷ events) = ⊥
SameDay (sends job ∷ events) = SameDay events
SameDay (receives now ∷ events) = SameDay events
SameDay (dispatches ∷ events) = SameDay events
SameDay (finishes now reply ∷ events) = SameDay events
