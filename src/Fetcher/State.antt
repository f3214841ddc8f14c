-- ===== src/Fetcher/State.antt =====
-- `ReplicationState` of server/src/fetcher/state.rs: the `state.txt` of an OpenStreetMap replication
-- feed. A text is the list of its characters. `T` is the type of a time; `parse_rfc3339` and
-- `format` are the functions of the chrono crate.
pub mod Lines
pub mod RoundTrip
pub mod Kept
pub mod Reasons
pub mod Causes
use geocoder.Prelude.{
  ℕ, ◌^◌, ◌≡◌, refl, ◌⊎◌, inl, inr, Bool, true, false, ◌&&◌, List, [], ◌∷◌, ◌++◌, Option, none,
  some, if◌then◌else◌, ◌==◌, Text, text_eq, codes, is_empty, trim, trim_start, split, split_once,
}
use geocoder.Strings.Decimal.{decimal, parse_unsigned}

abbrev pub newline : ℕ
newline = 10

abbrev carriage_return : ℕ
carriage_return = 13

pub data StateError : Type 0 where
  malformed_line bad_timestamp bad_sequence : Text → StateError
  no_timestamp no_sequence : StateError

pub record ReplicationState (T : Type 0) : Type 0 where
  pub timestamp : T
  pub sequence_number : ℕ
  pub comments : List Text

pub data Reading (A : Type 0) : Type 0 where
  read : A → Reading A
  failed : StateError → Reading A

pub Reading-cases :
    {A : Type 0} (r : Reading A) → ((e : StateError) × (r ≡ failed e)) ⊎ ((a : A) × (r ≡ read a))
Reading-cases (read a) = inr (a, refl)
Reading-cases (failed e) = inl (e, refl)

-- A line without the carriage return before its line feed.
unfoldable pub strip_return : Text → Text
strip_return [] = []
strip_return (c ∷ s) = if is_empty s && (c == carriage_return) then [] else c ∷ strip_return s

-- `str::lines`, from the pieces between the line feeds: the last is a line only if not empty.
unfoldable pub lines_of : List Text → List Text
unfolding strip_return
lines_of [] = []
lines_of (s ∷ []) = if is_empty s then [] else s ∷ []
lines_of (s ∷ t ∷ pieces) = strip_return s ∷ lines_of (t ∷ pieces)

-- `replace("\\:", ":")`.
unfoldable pub unescape : Text → Text
unescape [] = []
unescape (c ∷ []) = c ∷ []
unescape (c ∷ d ∷ s) = elim ((c == b'\\') && (d == b':')) [
  | true ↦ d ∷ unescape s
  | false ↦ c ∷ unescape (d ∷ s)
]

-- `replace(':', "\\:")`.
unfoldable pub escape : Text → Text
escape [] = []
escape (c ∷ s) = if c == b':' then b'\\' ∷ c ∷ escape s else c ∷ escape s

module _ {T : Type 0} (parse_rfc3339 : Text → Option T) (format : T → Text) where
  -- What the loop has read.
  pub record Found : Type 0 where
    pub timestamp_found : Option T
    pub sequence_found : Option ℕ
    pub comments_found : List Text

  abbrev pub none_found : Found
  none_found = record { timestamp_found = none; sequence_found = none; comments_found = [] }

  -- The `match` on the key.
  unfoldable pub read_pair : Text → Text → Found → Reading Found
  unfolding text_eq trim unescape parse_unsigned
  read_pair key value f =
      if text_eq (trim key) (codes "timestamp")
      then elim (parse_rfc3339 (unescape value)) [
        | none ↦ failed (bad_timestamp (unescape value))
        | some t ↦ read (record {
          timestamp_found = some t;
          sequence_found = f.sequence_found;
          comments_found = f.comments_found;
        })
      ]
      else if text_eq (trim key) (codes "sequenceNumber")
      then elim (parse_unsigned (2 ^ 64) (trim value)) [
        | none ↦ failed (bad_sequence value)
        | some n ↦ read (record {
          timestamp_found = f.timestamp_found;
          sequence_found = some n;
          comments_found = f.comments_found;
        })
      ]
      else read f

  unfoldable pub read_trimmed : Text → Text → Found → Reading Found
  unfolding read_pair split_once trim_start
  read_trimmed raw_line [] f = read f
  read_trimmed raw_line (c ∷ s) f =
      if c == b'#'
      then read (record {
        timestamp_found = f.timestamp_found;
        sequence_found = f.sequence_found;
        comments_found = f.comments_found ++ trim_start s ∷ [];
      })
      else elim (split_once (c ∷ s) b'=') [
        | none ↦ failed (malformed_line raw_line)
        | some (key, value) ↦ read_pair key value f
      ]

  unfoldable pub read_state_lines : List Text → Found → Reading Found
  unfolding read_trimmed trim
  read_state_lines [] f = read f
  read_state_lines (raw_line ∷ lines) f = elim (read_trimmed raw_line (trim raw_line) f) [
    | failed e ↦ failed e
    | read g ↦ read_state_lines lines g
  ]

  -- The tests for the two fields behind the loop.
  unfoldable pub checked : Found → Reading (ReplicationState T)
  checked f = elim f.timestamp_found [
    | none ↦ failed no_timestamp
    | some t ↦ elim f.sequence_found [
      | none ↦ failed no_sequence
      | some n ↦ read (record { timestamp = t; sequence_number = n; comments = f.comments_found })
    ]
  ]

  unfoldable pub parse_state : Text → Reading (ReplicationState T)
  unfolding read_state_lines checked lines_of split
  parse_state s = elim (read_state_lines (lines_of (split s newline)) none_found) [
    | failed e ↦ failed e
    | read f ↦ checked f
  ]

  unfoldable pub comment_lines : List Text → Text
  comment_lines [] = []
  comment_lines (c ∷ comments) = codes "# " ++ (c ++ newline ∷ comment_lines comments)

  unfoldable pub to_string_wire : ReplicationState T → Text
  unfolding comment_lines escape decimal
  to_string_wire state =
      comment_lines state.comments
      ++ (codes "timestamp="
          ++ (escape (format state.timestamp)
              ++ newline
                ∷ (codes "sequenceNumber=" ++ (decimal state.sequence_number ++ newline ∷ []))))
