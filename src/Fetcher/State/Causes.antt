-- ===== src/Fetcher/State/Causes.antt =====
-- Why `parse` of server/src/fetcher/state.rs fails.
use geocoder.Prelude.{
  ◌^◌, ◌≡◌, refl, ap, ◌∙◌, subst, true, false, List, [], ◌∷◌, Option, none, Text, text_eq, codes,
  ◌==◌, All, trim, split, split_once, Bool-cases, Option-cases, inl, inr, arith,
}
use geocoder.Strings.Decimal.{parse_unsigned}
use geocoder.Fetcher.State.{
  newline, StateError, Reading, read, failed, Reading-cases, lines_of, unescape, Found, none_found,
  read_pair, read_trimmed, read_state_lines, checked, parse_state,
}
use geocoder.Fetcher.State.Reasons.{
  pair_in, key_in, has_key, Cause, at_line, without_timestamp, without_sequence, failed_inj,
  lines-IsBad, lines-Reads,
}

apart_keys :
    (key : Text)
    → text_eq key (codes "timestamp") ≡ true
    → text_eq key (codes "sequenceNumber") ≡ false
unfolding text_eq
apart_keys [] h = cc
apart_keys (c ∷ s) h = ground (arith, h)

module _ {T : Type 0} (parse_rfc3339 : Text → Option T) (format : T → Text) where
  read_inj : {A : Type 0} {a b : A} → ◌≡◌ {A = Reading A} (read a) (read b) → a ≡ b
  read_inj h = cc

  pair_timeless :
      (key value : Text) (f g : Found parse_rfc3339 format)
      → read_pair parse_rfc3339 format key value f ≡ read g
      → g.timestamp_found ≡ none
      → (f.timestamp_found ≡ none) × (text_eq (trim key) (codes "timestamp") ≡ false)
  unfolding read_pair
  pair_timeless key value f g h n = elim (Bool-cases (text_eq (trim key) (codes "timestamp"))) [
    | inl k ↦ elim (Option-cases (parse_rfc3339 (unescape value))) [
      | inl p ↦ absurd (cc (rw (k, p) at h))
      | inr (t, p) ↦ absurd (cc (ap (λ r. r.timestamp_found) (read_inj (rw (k, p) at h)) ∙ n))
    ]
    | inr k ↦ elim (Bool-cases (text_eq (trim key) (codes "sequenceNumber"))) [
      | inl l ↦ elim (Option-cases (parse_unsigned (2 ^ 64) (trim value))) [
        | inl p ↦ absurd (cc (rw (k, l, p) at h))
        | inr (m, p) ↦ (ap (λ r. r.timestamp_found) (read_inj (rw (k, l, p) at h)) ∙ n, k)
      ]
      | inr l ↦ (ap (λ r. r.timestamp_found) (read_inj (rw (k, l) at h)) ∙ n, k)
    ]
  ]

  pair_numberless :
      (key value : Text) (f g : Found parse_rfc3339 format)
      → read_pair parse_rfc3339 format key value f ≡ read g
      → g.sequence_found ≡ none
      → (f.sequence_found ≡ none) × (text_eq (trim key) (codes "sequenceNumber") ≡ false)
  unfolding read_pair text_eq
  pair_numberless key value f g h n = elim (Bool-cases (text_eq (trim key) (codes "timestamp"))) [
    | inl k ↦ elim (Option-cases (parse_rfc3339 (unescape value))) [
      | inl p ↦ absurd (cc (rw (k, p) at h))
      | inr (t, p) ↦
          (ap (λ r. r.sequence_found) (read_inj (rw (k, p) at h)) ∙ n, apart_keys (trim key) k)
    ]
    | inr k ↦ elim (Bool-cases (text_eq (trim key) (codes "sequenceNumber"))) [
      | inl l ↦ elim (Option-cases (parse_unsigned (2 ^ 64) (trim value))) [
        | inl p ↦ absurd (cc (rw (k, l, p) at h))
        | inr (m, p) ↦ absurd (cc (ap (λ r. r.sequence_found) (read_inj (rw (k, l, p) at h)) ∙ n))
      ]
      | inr l ↦ (ap (λ r. r.sequence_found) (read_inj (rw (k, l) at h)) ∙ n, l)
    ]
  ]

  trimmed_timeless :
      (raw s : Text) (f g : Found parse_rfc3339 format)
      → read_trimmed parse_rfc3339 format raw s f ≡ read g
      → g.timestamp_found ≡ none
      → (f.timestamp_found ≡ none) × (key_in (codes "timestamp") s ≡ false)
  unfolding read_trimmed
  trimmed_timeless raw [] f g h n = (ap (λ r. r.timestamp_found) (read_inj h) ∙ n, refl)
  trimmed_timeless raw (c ∷ s) f g h n = elim (Bool-cases (c == b'#')) [
    | inl k ↦ (ap (λ r. r.timestamp_found) (read_inj (rw k at h)) ∙ n, rw (key_in, pair_in, k) refl)
    | inr k ↦ elim (Option-cases (split_once (c ∷ s) b'=')) [
      | inl p ↦ absurd (cc (rw (k, p) at h))
      | inr ((key, value), p) ↦
          let (now, other) = pair_timeless key value f g (rw (k, p) at h) n in
          (now, rw (key_in, pair_in, k, p) other)
    ]
  ]

  trimmed_numberless :
      (raw s : Text) (f g : Found parse_rfc3339 format)
      → read_trimmed parse_rfc3339 format raw s f ≡ read g
      → g.sequence_found ≡ none
      → (f.sequence_found ≡ none) × (key_in (codes "sequenceNumber") s ≡ false)
  unfolding read_trimmed
  trimmed_numberless raw [] f g h n = (ap (λ r. r.sequence_found) (read_inj h) ∙ n, refl)
  trimmed_numberless raw (c ∷ s) f g h n = elim (Bool-cases (c == b'#')) [
    | inl k ↦ (ap (λ r. r.sequence_found) (read_inj (rw k at h)) ∙ n, rw (key_in, pair_in, k) refl)
    | inr k ↦ elim (Option-cases (split_once (c ∷ s) b'=')) [
      | inl p ↦ absurd (cc (rw (k, p) at h))
      | inr ((key, value), p) ↦
          let (now, other) = pair_numberless key value f g (rw (k, p) at h) n in
          (now, rw (key_in, pair_in, k, p) other)
    ]
  ]

  lines_timeless :
      (lines : List Text) (f g : Found parse_rfc3339 format)
      → read_state_lines parse_rfc3339 format lines f ≡ read g
      → g.timestamp_found ≡ none
      → (f.timestamp_found ≡ none) × All (λ line. has_key (codes "timestamp") line ≡ false) lines
  unfolding read_state_lines
  lines_timeless [] f g h n = (ap (λ r. r.timestamp_found) (read_inj h) ∙ n, tt)
  lines_timeless (line ∷ lines) f g h n =
      elim (Reading-cases (read_trimmed parse_rfc3339 format line (trim line) f)) [
        | inl (why, k) ↦ absurd (cc (rw (read_state_lines, k) at h))
        | inr (f', k) ↦
            let (now, others) = lines_timeless lines f' g (rw (read_state_lines, k) at h) n in
            let (before, here) = trimmed_timeless line (trim line) f f' k now in
            (before, (here, others))
      ]

  lines_numberless :
      (lines : List Text) (f g : Found parse_rfc3339 format)
      → read_state_lines parse_rfc3339 format lines f ≡ read g
      → g.sequence_found ≡ none
      → (f.sequence_found ≡ none)
        × All (λ line. has_key (codes "sequenceNumber") line ≡ false) lines
  unfolding read_state_lines
  lines_numberless [] f g h n = (ap (λ r. r.sequence_found) (read_inj h) ∙ n, tt)
  lines_numberless (line ∷ lines) f g h n =
      elim (Reading-cases (read_trimmed parse_rfc3339 format line (trim line) f)) [
        | inl (why, k) ↦ absurd (cc (rw (read_state_lines, k) at h))
        | inr (f', k) ↦
            let (now, others) = lines_numberless lines f' g (rw (read_state_lines, k) at h) n in
            let (before, here) = trimmed_numberless line (trim line) f f' k now in
            (before, (here, others))
      ]

  -- When `parse` fails, the error says why: a line that is neither blank nor a comment has no equals
  -- sign, or its time or its number cannot be read; or every line reads and none has the key that
  -- is missed.
  pub parse_state-Cause :
      (s : Text) {e : StateError}
      → parse_state parse_rfc3339 format s ≡ failed e
      → Cause parse_rfc3339 format (lines_of (split s newline)) e
  unfolding parse_state checked
  parse_state-Cause s {e} h =
      elim (Reading-cases (
        read_state_lines parse_rfc3339 format (lines_of (split s newline))
          (none_found parse_rfc3339 format))) [
            | inl (why, k) ↦
                let same : why ≡ e = failed_inj parse_rfc3339 format (rw (parse_state, k) at h) in
                let (before, after, line, spelled, bad) =
                  lines-IsBad parse_rfc3339 format (lines_of (split s newline))
                    (none_found parse_rfc3339 format) (k ∙ ap failed same) in
                at_line before after line spelled bad
            | inr (f, k) ↦ elim (Option-cases f.timestamp_found) [
              | inl n ↦
                  subst (Cause parse_rfc3339 format (lines_of (split s newline)))
                    (failed_inj parse_rfc3339 format (rw (parse_state, k, checked, n) at h))
                    (without_timestamp
                      (lines-Reads parse_rfc3339 format (lines_of (split s newline))
                        (none_found parse_rfc3339 format) f k)
                      (lines_timeless (lines_of (split s newline)) (none_found parse_rfc3339 format)
                        f k n).1)
              | inr (t, n) ↦ elim (Option-cases f.sequence_found) [
                | inl l ↦
                    subst (Cause parse_rfc3339 format (lines_of (split s newline)))
                      (failed_inj parse_rfc3339 format (rw (parse_state, k, checked, n, l) at h))
                      (without_sequence
                        (lines-Reads parse_rfc3339 format (lines_of (split s newline))
                          (none_found parse_rfc3339 format) f k)
                        (lines_numberless (lines_of (split s newline))
                          (none_found parse_rfc3339 format) f k l).1)
                | inr (m, l) ↦ absurd (cc (rw (parse_state, k, checked, n, l) at h))
              ]
            ]
          ]
