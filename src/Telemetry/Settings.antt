-- ===== src/Telemetry/Settings.antt =====
-- The values that server/src/telemetry.rs reads from the environment.
use geocoder.Prelude.{
  ℕ, ◌≤◌, ◌^◌, min, max, Bool, List, [], ◌∷◌, map, Option, none, some, arith, if◌then◌else◌, Text,
  codes, text_eq, is_empty, to_lower, trim, split, split_once,
}
use geocoder.Strings.Tables.{is_one_of_texts}
use geocoder.Strings.Decimal.{parse_unsigned}

abbrev pub or_default : Option ℕ → ℕ → ℕ
or_default none n = n
or_default (some m) n = m

-- In seconds.
unfoldable pub resolve_dedup_window : Option Text → ℕ
unfolding trim parse_unsigned
resolve_dedup_window none = 30
resolve_dedup_window (some v) = or_default (parse_unsigned (2 ^ 64) (trim v)) 30

abbrev pub min_metric_export_interval_ms : ℕ
min_metric_export_interval_ms = 1000

abbrev pub max_metric_export_interval_ms : ℕ
max_metric_export_interval_ms = 300000

abbrev pub metric_interval_ms : Option Text → ℕ
metric_interval_ms none = 30000
metric_interval_ms (some v) = or_default (parse_unsigned (2 ^ 64) (trim v)) 30000

-- In milliseconds.
unfoldable pub resolve_metric_export_interval : Option Text → ℕ
unfolding trim parse_unsigned
resolve_metric_export_interval raw =
    min (max (metric_interval_ms raw) min_metric_export_interval_ms) max_metric_export_interval_ms

-- `resolve_metrics_enabled` and `resolve_tracing_enabled`, which test alike.
unfoldable pub resolve_enabled : Option Text → Bool → Bool
unfolding text_eq trim to_lower
resolve_enabled (some v) endpoint_set =
    is_one_of_texts (codes "true" ∷ codes "1" ∷ codes "yes" ∷ codes "on" ∷ [])
      (map to_lower (trim v))
resolve_enabled none endpoint_set = endpoint_set

pub data Protocol : Type 0 where
  grpc http_binary http_json : Protocol

unfoldable pub parse_protocol : Option Text → Protocol
unfolding text_eq trim to_lower
parse_protocol none = grpc
parse_protocol (some raw) =
    let v = map to_lower (trim raw) in
    if is_one_of_texts ([] ∷ codes "grpc" ∷ []) v
    then grpc
    else if is_one_of_texts
        (codes "http/protobuf"
          ∷ codes "http-protobuf"
          ∷ codes "http/proto"
          ∷ codes "http-proto"
          ∷ [])
        v
    then http_binary
    else if is_one_of_texts (codes "http/json" ∷ codes "http-json" ∷ []) v
    then http_json
    else grpc

unfoldable pub protocol_name : Protocol → Text
protocol_name grpc = codes "grpc"
protocol_name http_binary = codes "http/protobuf"
protocol_name http_json = codes "http/json"

abbrev pub attribute_of : Text → Option (Text × Text)
attribute_of pair = elim (split_once pair b'=') [
  | none ↦ none
  | some (k, v) ↦ if is_empty (trim k) then none else some (trim k, trim v)
]

-- The loop over the pairs between the commas.
unfoldable pub read_attributes : List Text → List (Text × Text)
unfolding trim split_once
read_attributes [] = []
read_attributes (pair ∷ pairs) =
    let rest = read_attributes pairs in
    if is_empty (trim pair)
    then rest
    else elim (attribute_of (trim pair)) [ none ↦ rest | some attribute ↦ attribute ∷ rest ]

unfoldable pub parse_resource_attributes : Text → List (Text × Text)
unfolding read_attributes split
parse_resource_attributes raw = read_attributes (split raw b',')

-- Whatever the environment holds, the interval is from one second to five minutes.
pub resolve_metric_export_interval_bounds :
    (raw : Option Text)
    → (1000 ≤ resolve_metric_export_interval raw) × (resolve_metric_export_interval raw ≤ 300000)
unfolding resolve_metric_export_interval
resolve_metric_export_interval_bounds raw = omega arith
