-- ===== src/Shadow/Worker/Bounds.antt =====
-- What holds in every state of the worker of server/src/shadow.rs, however its tasks interleave.
use geocoder.Prelude.{
  ℕ, ◌≤◌, ◌<◌, ◌≡◌, refl, ap, subst, List, [], ◌∷◌, Option, none, some, ◌⊎◌, inl, inr, arith, ltb,
  ltb→lt, length, length-append, Bool-cases,
}
use geocoder.Shadow.Worker.{
  ShadowConfig, State, started, try_send, Verdict, gate, taken, called, reset,
}
use geocoder.Shadow.Worker.Possible.{received, dispatched_one, finished}
use geocoder.Shadow.Worker.Steps.{
  Event, sends, receives, dispatches, finishes, midnight, after, Reach, stays, steps,
}

module _ {Job : Type 0} (cfg : ShadowConfig) where
  -- The queue, the calls in flight and the day's count are within their caps, and a job waits only
  -- while the count is below its cap.
  pub record Ok (s : State Job) : Type 0 where
    pub queue : length s.queue ≤ cfg.queue_capacity
    pub inflight : s.inflight ≤ cfg.inflight_cap
    pub daily : s.daily_count ≤ cfg.daily_cap
    pub waiting : (s.waiting ≡ none) ⊎ (s.daily_count < cfg.daily_cap)

  try_send-Ok : (job : Job) (s : State Job) → Ok s → Ok (try_send cfg job s).0
  unfolding try_send
  try_send-Ok job s ok = elim (Bool-cases (ltb (length s.queue) cfg.queue_capacity)) [
    | inl room ↦ rw room (record {
      queue = omega (
        arith,
        ltb→lt (length s.queue) cfg.queue_capacity room,
        length-append s.queue (job ∷ []),
      );
      inflight = ok.inflight;
      daily = ok.daily;
      waiting = ok.waiting;
    })
    | inr full ↦ rw full (record {
      queue = ok.queue;
      inflight = ok.inflight;
      daily = ok.daily;
      waiting = ok.waiting;
    })
  ]

  -- A job is let through only while the day's count is below its cap.
  gate-lt : (now : ℕ) (s : State Job) → gate cfg now s ≡ none → s.daily_count < cfg.daily_cap
  unfolding gate
  gate-lt now s h = ground arith

  taken-Ok :
      (now : ℕ) (job : Job) (queue : List Job) (s : State Job) (v : Option Verdict)
      → gate cfg now s ≡ v
      → s.queue ≡ job ∷ queue
      → Ok s
      → Ok (taken v job queue s)
  taken-Ok now job queue s none g q ok = record {
    queue = omega (arith, ok.queue, ap length q);
    inflight = ok.inflight;
    daily = ok.daily;
    waiting = inr (gate-lt now s g);
  }
  taken-Ok now job queue s (some v) g q ok = record {
    queue = omega (arith, ok.queue, ap length q);
    inflight = ok.inflight;
    daily = ok.daily;
    waiting = inl refl;
  }

  called-Ok :
      (job : Job) (s : State Job)
      → s.waiting ≡ some job
      → s.inflight < cfg.inflight_cap
      → Ok s
      → Ok (called s)
  called-Ok job s w lt ok = record {
    queue = ok.queue;
    inflight = omega (arith, lt);
    daily = elim ok.waiting [ inl n ↦ absurd (cc) | inr below ↦ omega (arith, below) ];
    waiting = inl refl;
  }

  after-Ok : (e : Event Job) (s : State Job) {t : State Job} → after cfg e s ≡ some t → Ok s → Ok t
  unfolding reset
  after-Ok (sends job) s {t} h ok =
      let q : (try_send cfg job s).0 ≡ t = cc in subst Ok q (try_send-Ok job s ok)
  after-Ok (receives now) s {t} h ok =
      let (job, queue, w, q, e) = received cfg now s h in
      subst Ok e (taken-Ok now job queue s (gate cfg now s) refl q ok)
  after-Ok dispatches s {t} h ok =
      let (job, w, lt, e) = dispatched_one cfg s h in subst Ok e (called-Ok job s w lt ok)
  after-Ok (finishes now reply) s {t} h ok =
      let (n, z, e) = finished cfg now reply s h in
      subst Ok e (record {
        queue = ok.queue;
        inflight = omega (arith, ok.inflight, z);
        daily = ok.daily;
        waiting = ok.waiting;
      })
  after-Ok midnight s {t} h ok =
      let q : reset s ≡ t = cc in
      subst Ok q (record {
        queue = ok.queue;
        inflight = ok.inflight;
        daily = omega arith;
        waiting = elim ok.waiting [ inl n ↦ inl n | inr below ↦ inr (omega (arith, below)) ];
      })

  -- From a state in which the queue, the calls in flight and the day's count are within their caps,
  -- and a job waits only while the count is below its cap, the tasks reach only such states, however
  -- they interleave.
  pub Reach-Ok : {s t : State Job} {events : List (Event Job)} → Reach cfg s events t → Ok s → Ok t
  Reach-Ok stays ok = ok
  Reach-Ok (steps {s} {t} {u} e h r) ok = Reach-Ok r (after-Ok e s h ok)

  pub started-Ok : Ok started
  started-Ok = record {
    queue = omega arith;
    inflight = omega arith;
    daily = omega arith;
    waiting = inl refl;
  }
