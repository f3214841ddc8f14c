-- ===== src/Fetcher/State/Reasons.antt =====
-- The lines of a `state.txt` that server/src/fetcher/state.rs can and cannot read.
use geocoder.Prelude.{
  ◌^◌, ◌≡◌, ◌≢◌, refl, ap, ◌∙◌, subst, Bool, true, false, List, [], ◌∷◌, ◌++◌, Option, none, some,
  Text, text_eq, codes, is_empty, if◌then◌else◌, ◌==◌, All, trim, split_once, Bool-cases,
  Option-cases, inl, inr, arith,
}
use geocoder.Query.Postcodes.{first_is}
use geocoder.Strings.Decimal.{parse_unsigned}
use geocoder.Fetcher.State.{
  StateError, malformed_line, bad_timestamp, bad_sequence, no_timestamp, no_sequence, Reading, read,
  failed, Reading-cases, unescape, Found, read_pair, read_trimmed, read_state_lines,
}

-- The key and the value of a trimmed line that is neither blank nor a comment.
abbrev pub pair_in : Text → Option (Text × Text)
pair_in [] = none
pair_in (c ∷ s) = if c == b'#' then none else split_once (c ∷ s) b'='

abbrev pub key_in : Text → Text → Bool
key_in name s = elim (pair_in s) [ none ↦ false | some (key, value) ↦ text_eq (trim key) name ]

abbrev pub pair_of : Text → Option (Text × Text)
pair_of line = pair_in (trim line)

abbrev pub has_key : Text → Text → Bool
has_key name line = key_in name (trim line)

sequence_apart :
    (key : Text)
    → text_eq key (codes "sequenceNumber") ≡ true
    → text_eq key (codes "timestamp") ≡ false
unfolding text_eq
sequence_apart [] h = cc
sequence_apart (c ∷ s) h = ground (arith, h)

module _ {T : Type 0} (parse_rfc3339 : Text → Option T) (format : T → Text) where
  -- A line that cannot be read.
  pub data IsBad (line : Text) : StateError → Type 0 where
    no_equals :
        is_empty (trim line) ≡ false
        → first_is (λ c. c == b'#') (trim line) ≡ false
        → split_once (trim line) b'=' ≡ none
        → IsBad line (malformed_line line)
    bad_time :
        {key value : Text}
        → pair_of line ≡ some (key, value)
        → text_eq (trim key) (codes "timestamp") ≡ true
        → parse_rfc3339 (unescape value) ≡ none
        → IsBad line (bad_timestamp (unescape value))
    bad_number :
        {key value : Text}
        → pair_of line ≡ some (key, value)
        → text_eq (trim key) (codes "sequenceNumber") ≡ true
        → parse_unsigned (2 ^ 64) (trim value) ≡ none
        → IsBad line (bad_sequence value)

  -- A line that can be read.
  pub data Reads (line : Text) : Type 0 where
    blank : is_empty (trim line) ≡ true → Reads line
    comment : first_is (λ c. c == b'#') (trim line) ≡ true → Reads line
    pair :
        {key value : Text}
        → pair_of line ≡ some (key, value)
        → (text_eq (trim key) (codes "timestamp") ≡ true → parse_rfc3339 (unescape value) ≢ none)
        → (text_eq (trim key) (codes "sequenceNumber") ≡ true
            → parse_unsigned (2 ^ 64) (trim value) ≢ none)
        → Reads line

  pub data Cause (lines : List Text) : StateError → Type 0 where
    at_line :
        (before after : List Text) (line : Text) {e : StateError}
        → lines ≡ before ++ line ∷ after
        → IsBad line e
        → Cause lines e
    without_timestamp :
        All Reads lines
        → All (λ line. has_key (codes "timestamp") line ≡ false) lines
        → Cause lines no_timestamp
    without_sequence :
        All Reads lines
        → All (λ line. has_key (codes "sequenceNumber") line ≡ false) lines
        → Cause lines no_sequence

  pub failed_inj :
      {A : Type 0} {a b : StateError} → ◌≡◌ {A = Reading A} (failed a) (failed b) → a ≡ b
  failed_inj h = cc

  pair-IsBad :
      (line key value : Text) (f : Found parse_rfc3339 format) {e : StateError}
      → pair_of line ≡ some (key, value)
      → read_pair parse_rfc3339 format key value f ≡ failed e
      → IsBad line e
  unfolding read_pair
  pair-IsBad line key value f p h = elim (Bool-cases (text_eq (trim key) (codes "timestamp"))) [
    | inl k ↦ elim (Option-cases (parse_rfc3339 (unescape value))) [
      | inl n ↦ subst (IsBad line) (failed_inj (rw (k, n) at h)) (bad_time p k n)
      | inr (t, n) ↦ absurd (cc (rw (k, n) at h))
    ]
    | inr k ↦ elim (Bool-cases (text_eq (trim key) (codes "sequenceNumber"))) [
      | inl l ↦ elim (Option-cases (parse_unsigned (2 ^ 64) (trim value))) [
        | inl n ↦ subst (IsBad line) (failed_inj (rw (k, l, n) at h)) (bad_number p l n)
        | inr (m, n) ↦ absurd (cc (rw (k, l, n) at h))
      ]
      | inr l ↦ absurd (cc (rw (k, l) at h))
    ]
  ]

  trimmed-IsBad :
      (line s : Text) (f : Found parse_rfc3339 format) {e : StateError}
      → trim line ≡ s
      → read_trimmed parse_rfc3339 format line s f ≡ failed e
      → IsBad line e
  unfolding read_trimmed
  trimmed-IsBad line [] f t h = absurd (cc)
  trimmed-IsBad line (c ∷ s) f t h = elim (Bool-cases (c == b'#')) [
    | inl k ↦ absurd (cc (rw k at h))
    | inr k ↦ elim (Option-cases (split_once (c ∷ s) b'=')) [
      | inl n ↦ subst (IsBad line) (failed_inj (rw (k, n) at h)) (
          no_equals (ap is_empty t) (ap (first_is (λ d. d == b'#')) t ∙ k)
            (ap (λ u. split_once u b'=') t ∙ n))
      | inr ((key, value), n) ↦ pair-IsBad line key value f (rw (t, k) n) (rw (k, n) at h)
    ]
  ]

  pub lines-IsBad :
      (lines : List Text) (f : Found parse_rfc3339 format) {e : StateError}
      → read_state_lines parse_rfc3339 format lines f ≡ failed e
      → (before after : List Text) × (line : Text) × (lines ≡ before ++ line ∷ after) × IsBad line e
  unfolding read_state_lines
  lines-IsBad [] f h = absurd (cc)
  lines-IsBad (line ∷ lines) f h =
      elim (Reading-cases (read_trimmed parse_rfc3339 format line (trim line) f)) [
        | inl (why, k) ↦ (
          [],
          lines,
          line,
          refl,
          trimmed-IsBad line (trim line) f refl (k ∙ rw (read_state_lines, k) at h),
        )
        | inr (g, k) ↦
            let (before, after, bad, spelled, is) =
              lines-IsBad lines g (rw (read_state_lines, k) at h) in
            (line ∷ before, after, bad, ap (λ ls. line ∷ ls) spelled, is)
      ]

  pair-Reads :
      (line key value : Text) (f g : Found parse_rfc3339 format)
      → pair_of line ≡ some (key, value)
      → read_pair parse_rfc3339 format key value f ≡ read g
      → Reads line
  unfolding read_pair
  pair-Reads line key value f g p h =
      pair p (λ k none_read. cc (rw (k, none_read) at h))
        (λ l none_read. cc (rw (sequence_apart (trim key) l, l, none_read) at h))

  trimmed-Reads :
      (line s : Text) (f g : Found parse_rfc3339 format)
      → trim line ≡ s
      → read_trimmed parse_rfc3339 format line s f ≡ read g
      → Reads line
  unfolding read_trimmed
  trimmed-Reads line [] f g t h = blank (ap is_empty t)
  trimmed-Reads line (c ∷ s) f g t h = elim (Bool-cases (c == b'#')) [
    | inl k ↦ comment (ap (first_is (λ d. d == b'#')) t ∙ k)
    | inr k ↦ elim (Option-cases (split_once (c ∷ s) b'=')) [
      | inl n ↦ absurd (cc (rw (k, n) at h))
      | inr ((key, value), n) ↦ pair-Reads line key value f g (rw (t, k) n) (rw (k, n) at h)
    ]
  ]

  pub lines-Reads :
      (lines : List Text) (f g : Found parse_rfc3339 format)
      → read_state_lines parse_rfc3339 format lines f ≡ read g
      → All Reads lines
  unfolding read_state_lines
  lines-Reads [] f g h = tt
  lines-Reads (line ∷ lines) f g h =
      elim (Reading-cases (read_trimmed parse_rfc3339 format line (trim line) f)) [
        | inl (why, k) ↦ absurd (cc (rw (read_state_lines, k) at h))
        | inr (f', k) ↦ (
          trimmed-Reads line (trim line) f f' refl k,
          lines-Reads lines f' g (rw (read_state_lines, k) at h),
        )
      ]
