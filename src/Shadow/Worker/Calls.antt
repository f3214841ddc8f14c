-- ===== src/Shadow/Worker/Calls.antt =====
-- How many calls the worker of server/src/shadow.rs makes in a day, and after a denied request.
use geocoder.Prelude.{ℕ, ◌+◌, ◌≤◌, ◌≡◌, ap, List, Option, none, some, arith}
use geocoder.Shadow.Worker.{ShadowConfig, State, try_send}
use geocoder.Shadow.Worker.Steps.{
  Event, sends, receives, dispatches, finishes, midnight, Reach, stays, steps, dispatched, SameDay,
}
use geocoder.Shadow.Worker.Possible.{received, dispatched_one, finished}
use geocoder.Shadow.Worker.Bounds.{Ok, Reach-Ok}

-- The job that waits, counted.
abbrev pub pending : {Job : Type 0} → Option Job → ℕ
pending none = 0
pending (some job) = 1

module _ {Job : Type 0} (cfg : ShadowConfig) where
  try_send_keeps :
      (job : Job) (s : State Job)
      → ((try_send cfg job s).0.daily_count ≡ s.daily_count)
        × ((try_send cfg job s).0.auth_disabled ≡ s.auth_disabled)
        × ((try_send cfg job s).0.waiting ≡ s.waiting)
  unfolding try_send
  try_send_keeps job s = ground arith

  counted :
      {s t : State Job} {events : List (Event Job)}
      → Reach cfg s events t
      → SameDay events
      → t.daily_count ≡ s.daily_count + dispatched events
  counted stays day = omega arith
  counted (steps {s} {t} {u} (sends job) h r) day =
      let q : (try_send cfg job s).0 ≡ t = cc in
      omega (arith, counted r day, (try_send_keeps job s).0, ap (λ st. st.daily_count) q)
  counted (steps {s} {t} {u} (receives now) h r) day =
      let (job, queue, w, q, e) = received cfg now s h in
      omega (arith, counted r day, ap (λ st. st.daily_count) e)
  counted (steps {s} {t} {u} dispatches h r) day =
      let (job, w, lt, e) = dispatched_one cfg s h in
      omega (arith, counted r day, ap (λ st. st.daily_count) e)
  counted (steps {s} {t} {u} (finishes now reply) h r) day =
      let (n, z, e) = finished cfg now reply s h in
      omega (arith, counted r day, ap (λ st. st.daily_count) e)
  counted (steps midnight h r) day = elim day [ ]

  -- Between two midnights no more calls are made than the daily cap allows, however the tasks
  -- interleave, from a state within the caps.
  pub dispatched-le :
      {s t : State Job} {events : List (Event Job)}
      → Ok cfg s
      → Reach cfg s events t
      → SameDay events
      → s.daily_count + dispatched events ≤ cfg.daily_cap
  dispatched-le {s} {t} {events} ok r day =
      let final : Ok cfg t = Reach-Ok cfg r ok in omega (arith, final.daily, counted r day)
