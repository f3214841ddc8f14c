-- ===== src/Shadow/Worker.antt =====
-- The dispatcher and the worker of server/src/shadow.rs as one state that handlers, the worker's task,
-- the calls in flight and the midnight task change. Each function is what the code does between two
-- points at which its task may wait. Clocks, replies and the sample gate are arguments.
pub mod Steps
pub mod Possible
pub mod Bounds
pub mod Calls
use geocoder.Prelude.{
  ℕ, zero, suc, ◌+◌, ◌-◌, ◌*◌, ◌%◌, ◌^◌, Bool, true, false, List, [], ◌∷◌, ◌++◌, Option, none, some,
  if◌then◌else◌, ltb, leb, length,
}

pub record ShadowConfig : Type 0 where
  pub daily_cap : ℕ
  pub queue_capacity : ℕ
  pub inflight_cap : ℕ
  pub backoff_secs : ℕ

-- `Outcome`.
pub data Verdict : Type 0 where
  match_ mismatch zero_results google_error auth_disabled_ daily_cap_hit queue_full rate_limited
        timeout :
      Verdict

pub data StatusKind : Type 0 where
  ok zero_results_status over_query_limit request_denied other : StatusKind

-- What comes back for a call: a body with its status and the outcome of the comparison, or an error.
pub data Reply : Type 0 where
  body : StatusKind → Verdict → Reply
  bad_body timed_out http_error : Reply

-- The outcome that `execute_job` reports.
unfoldable pub reported : Reply → Verdict
reported (body ok compared) = compared
reported (body zero_results_status compared) = zero_results
reported (body over_query_limit compared) = rate_limited
reported (body request_denied compared) = auth_disabled_
reported (body other compared) = google_error
reported bad_body = google_error
reported timed_out = timeout
reported http_error = google_error

abbrev pub denies : Reply → Bool
denies (body request_denied compared) = true
denies _ = false

abbrev pub limits : Reply → Bool
limits (body over_query_limit compared) = true
limits _ = false

-- `waiting` is the job that has passed the gates of the loop and waits for the rate bucket and a
-- permit; `inflight` counts the permits that are taken.
pub record State (Job : Type 0) : Type 0 where
  pub queue : List Job
  pub waiting : Option Job
  pub inflight : ℕ
  pub daily_count : ℕ
  pub auth_disabled : Bool
  pub backoff_until : ℕ
  pub queue_full_count : ℕ

abbrev pub started : {Job : Type 0} → State Job
started = record {
  queue = [];
  waiting = none;
  inflight = 0;
  daily_count = 0;
  auth_disabled = false;
  backoff_until = 0;
  queue_full_count = 0;
}

-- The midnight task.
unfoldable pub reset : {Job : Type 0} → State Job → State Job
reset s = record {
  queue = s.queue;
  waiting = s.waiting;
  inflight = s.inflight;
  daily_count = 0;
  auth_disabled = s.auth_disabled;
  backoff_until = s.backoff_until;
  queue_full_count = s.queue_full_count;
}

-- The job leaves the queue, and waits unless it is turned down.
abbrev pub taken : {Job : Type 0} → Option Verdict → Job → List Job → State Job → State Job
taken verdict job queue s = record {
  queue = queue;
  waiting = elim verdict [ some v ↦ none | none ↦ some job ];
  inflight = s.inflight;
  daily_count = s.daily_count;
  auth_disabled = s.auth_disabled;
  backoff_until = s.backoff_until;
  queue_full_count = s.queue_full_count;
}

abbrev pub called : {Job : Type 0} → State Job → State Job
called s = record {
  queue = s.queue;
  waiting = none;
  inflight = s.inflight + 1;
  daily_count = s.daily_count + 1;
  auth_disabled = s.auth_disabled;
  backoff_until = s.backoff_until;
  queue_full_count = s.queue_full_count;
}

module _ {Job : Type 0} (cfg : ShadowConfig) where
  -- `try_send`: the channel holds `queue_capacity` jobs. The branch for a closed channel, which changes
  -- nothing and logs an error, is left out: the worker of this model never ends.
  unfoldable pub try_send : Job → State Job → State Job × Option Verdict
  try_send job s =
      if ltb (length s.queue) cfg.queue_capacity
      then (
        record {
          queue = s.queue ++ job ∷ [];
          waiting = s.waiting;
          inflight = s.inflight;
          daily_count = s.daily_count;
          auth_disabled = s.auth_disabled;
          backoff_until = s.backoff_until;
          queue_full_count = s.queue_full_count;
        },
        none,
      )
      else (
        record {
          queue = s.queue;
          waiting = s.waiting;
          inflight = s.inflight;
          daily_count = s.daily_count;
          auth_disabled = s.auth_disabled;
          backoff_until = s.backoff_until;
          queue_full_count = (s.queue_full_count + 1) % 2 ^ 64;
        },
        some queue_full,
      )

  -- The gates of the loop of `run` for a job at a time: the outcome that turns it down, if any.
  unfoldable pub gate : ℕ → State Job → Option Verdict
  gate now s =
      if s.auth_disabled
      then some auth_disabled_
      else if ltb now s.backoff_until
      then some rate_limited
      else if leb cfg.daily_cap s.daily_count
      then some daily_cap_hit
      else none

  -- The loop of `run` from `recv` to the first await: possible when the worker waits for a job and
  -- there is one.
  unfoldable pub receive : ℕ → State Job → Option (State Job × Option Verdict)
  unfolding gate
  receive now s = elim s.waiting [
    | some job ↦ none
    | none ↦ elim s.queue [
      | [] ↦ none
      | job ∷ queue ↦ let verdict = gate now s in some (taken verdict job queue s, verdict)
    ]
  ]

  -- From the permit to the spawned call: possible when a job waits and a permit is free.
  unfoldable pub dispatch : State Job → Option (State Job)
  dispatch s = elim s.waiting [
    | none ↦ none
    | some job ↦ if ltb s.inflight cfg.inflight_cap then some (called s) else none
  ]

  abbrev pub answered : ℕ → Reply → ℕ → State Job → State Job
  answered now reply n s = record {
    queue = s.queue;
    waiting = s.waiting;
    inflight = n;
    daily_count = s.daily_count;
    auth_disabled = if denies reply then true else s.auth_disabled;
    backoff_until =
        if limits reply then (now + cfg.backoff_secs * 1000) % 2 ^ 64 else s.backoff_until;
    queue_full_count = s.queue_full_count;
  }

  -- `execute_job` and the drop of its permit: possible when a call is in flight.
  unfoldable pub finish : ℕ → Reply → State Job → Option (State Job × Verdict)
  unfolding reported
  finish now reply s = elim s.inflight [
    | zero ↦ none
    | suc n ↦ some (answered now reply n s, reported reply)
  ]
