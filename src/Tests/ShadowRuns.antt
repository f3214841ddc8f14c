-- ===== src/Tests/ShadowRuns.antt =====
-- server/src/shadow.rs on small inputs.
use geocoder.Prelude.{
  ℕ, ◌+◌, ◌≤◌, ◌≡◌, refl, Bool, true, false, List, [], ◌∷◌, Option, none, some, arith, codes, trim,
  trim_start, is_whitespace, to_lower, text_eq, eq_ignore_case,
}
use geocoder.Shadow.Config.{resolve_shadow_enabled, clamp_daily_cap}
use geocoder.Shadow.Worker.{
  ShadowConfig, match_, mismatch, request_denied, body, State, started, try_send, receive, dispatch,
  finish, reset,
}
use geocoder.Shadow.Worker.Steps.{Event, sends, receives, dispatches, finishes, Reach, stays, steps}
use geocoder.Shadow.Worker.Bounds.{Ok, Reach-Ok, started-Ok}
use geocoder.Shadow.Worker.Calls.{dispatched-le}
use geocoder.Shadow.Url.{percent_encode}
use geocoder.Shadow.Url.RoundTrip.{plain, percent_decode, percent_decode-percent_encode}
use geocoder.Shadow.Compare.{compare_admin, Snapshot, search, compare}
use geocoder.Shadow.Compare.Axes.{Says, compare-Says}

program : Unit {0}
unfolding trim_start trim is_whitespace to_lower text_eq eq_ignore_case resolve_shadow_enabled
    clamp_daily_cap try_send receive dispatch finish reset percent_encode percent_decode
    compare_admin compare
program = tt

the_switch :
    (resolve_shadow_enabled none true ≡ true)
    × (resolve_shadow_enabled (some (codes " ON ")) true ≡ true)
    × (resolve_shadow_enabled (some (codes "maybe")) true ≡ false)
    × (clamp_daily_cap 1000000 ≡ 100000)
unfolding program
the_switch = (refl, refl, refl, refl)

abbrev cfg : ShadowConfig
cfg = record { daily_cap = 2; queue_capacity = 2; inflight_cap = 1; backoff_secs = 30 }

abbrev state : List ℕ → Option ℕ → ℕ → ℕ → Bool → State ℕ
state queue waiting inflight daily off = record {
  queue = queue;
  waiting = waiting;
  inflight = inflight;
  daily_count = daily;
  auth_disabled = off;
  backoff_until = 0;
  queue_full_count = 0;
}

abbrev morning : List (Event ℕ)
morning = sends 7 ∷ receives 100 ∷ dispatches ∷ []

morning_run : Reach cfg started morning (state [] none 1 1 false)
unfolding program
morning_run = steps {t = state (7 ∷ []) none 0 0 false} (sends 7) refl (
    steps {t = state [] (some 7) 0 0 false} (receives 100) refl
      (steps {t = state [] none 1 1 false} dispatches refl stays))

Reach-Ok_example : Ok cfg (state [] none 1 1 false)
Reach-Ok_example = Reach-Ok cfg morning_run (started-Ok cfg)

dispatched-le_example : 0 + 1 ≤ 2
dispatched-le_example = dispatched-le cfg (started-Ok cfg) morning_run tt

abbrev denial : Event ℕ
denial = finishes 150 (body request_denied match_)

abbrev afterwards : List (Event ℕ)
afterwards = dispatches ∷ sends 9 ∷ receives 200 ∷ []

encoded_space : percent_encode (codes "a b/c") ≡ codes "a%20b%2Fc"
unfolding program
encoded_space = refl

percent_decode-percent_encode_example :
    percent_decode plain (percent_encode (codes "12 High St")) ≡ codes "12 High St"
percent_decode-percent_encode_example =
    percent_decode-percent_encode (codes "12 High St") (ground arith)

abbreviated_state : compare_admin (some (codes "NSW")) (some (codes "New South Wales")) ≡ some true
unfolding program
abbreviated_state = refl

abbrev ours : Snapshot
ours = record {
  country_code = some (codes "AU");
  state = some (codes "NSW");
  city = none;
  road = some (codes "High St");
}

abbrev theirs : Snapshot
theirs = record {
  country_code = some (codes "au");
  state = some (codes "Victoria");
  city = some (codes "Kew");
  road = none;
}

compare-Says_example : Says (compare search ours theirs (some false)) (some false) mismatch
unfolding program
compare-Says_example = compare-Says search ours theirs (some false)
