-- ===== src/Fetcher/State/Kept.antt =====
-- What `parse` of server/src/fetcher/state.rs returns is fit to be written again.
use geocoder.Prelude.{
  ℕ, ◌+◌, ◌-◌, ◌*◌, ◌^◌, ◌<◌, ◌≡◌, subst, false, List, [], ◌∷◌, Option, none, some, Text, text_eq,
  codes, is_empty, is_digit, ltb, ltb→lt, ◌==◌, ◌≢◌, All, All-append, trim, trim_start, split,
  split_once, Lacks, Bool-cases, Option-cases, inl, inr, arith,
}
use geocoder.Strings.Trim.{EndsSolid, trim-EndsSolid, trim_start-IsSolid, trim_start_split}
use geocoder.Strings.Decimal.{digits_below, parse_below, parse_unsigned}
use geocoder.Fetcher.State.{
  newline, ReplicationState, Reading, read, Reading-cases, lines_of, unescape, Found, none_found,
  read_pair, read_trimmed, read_state_lines, checked, parse_state, to_string_wire,
}
use geocoder.Fetcher.State.Lines.{All-trim, All-trim_start, All-strip_return, EndsSolid-suffix}
use geocoder.Fetcher.State.RoundTrip.{IsComment, IsWritten, parse_state-to_string_wire}

digits_below-lt :
    (bound : ℕ) (s : Text) (n : ℕ) {m : ℕ} → n < bound → digits_below bound s n ≡ some m → m < bound
unfolding digits_below
digits_below-lt bound [] n h e = ground (arith, h, e)
digits_below-lt bound (c ∷ s) n h e = elim (Bool-cases (is_digit c)) [
  | inl d ↦ elim (Bool-cases (ltb (n * 10 + (c - b'0')) bound)) [
    | inl k ↦ digits_below-lt bound s (n * 10 + (c - b'0')) (ltb→lt _ _ k) (rw (d, k) at e)
    | inr k ↦ absurd (cc (rw (d, k) at e))
  ]
  | inr d ↦ absurd (cc (rw d at e))
]

parse_below-lt :
    (bound : ℕ) (s : Text) {m : ℕ} → 0 < bound → parse_below bound s ≡ some m → m < bound
unfolding parse_below
parse_below-lt bound [] h e = absurd (cc)
parse_below-lt bound (c ∷ s) h e = digits_below-lt bound (c ∷ s) 0 h e

parse_unsigned-lt :
    (bound : ℕ) (s : Text) {m : ℕ} → 0 < bound → parse_unsigned bound s ≡ some m → m < bound
unfolding parse_unsigned
parse_unsigned-lt bound [] h e = absurd (cc)
parse_unsigned-lt bound (c ∷ s) h e = elim (Bool-cases (c == b'+')) [
  | inl k ↦ parse_below-lt bound s h (rw k at e)
  | inr k ↦ parse_below-lt bound (c ∷ s) h (rw k at e)
]

apart : (c d : ℕ) → (c == d) ≡ false → c ≢ d
apart c d h e = absurd (ground (arith, h, e))

joined :
    (c sep : ℕ) (ps : List Text)
    → (c == sep) ≡ false
    → All (Lacks sep) ps
    → All (Lacks sep) (elim ps as (λ x. List Text) [ [] ↦ (c ∷ []) ∷ [] | p ∷ qs ↦ (c ∷ p) ∷ qs ])
joined c sep [] h a = ((apart c sep h, tt), tt)
joined c sep (p ∷ ps) h (hp, a) = ((apart c sep h, hp), a)

split-Lacks : (s : Text) (sep : ℕ) → All (Lacks sep) (split s sep)
unfolding split
split-Lacks [] sep = (tt, tt)
split-Lacks (c ∷ s) sep = elim (Bool-cases (c == sep)) [
  | inl h ↦ rw h (tt, split-Lacks s sep)
  | inr h ↦ rw h (joined c sep (split s sep) h (split-Lacks s sep))
]

lines_of-Lacks : (ps : List Text) → All (Lacks newline) ps → All (Lacks newline) (lines_of ps)
unfolding lines_of
lines_of-Lacks [] h = tt
lines_of-Lacks (s ∷ []) (h, _) = elim (Bool-cases (is_empty s)) [
  | inl e ↦ rw e tt
  | inr e ↦ rw e (h, tt)
]
lines_of-Lacks (s ∷ t ∷ ps) (h, hs) =
    (All-strip_return (λ c. c ≢ newline) s h, lines_of-Lacks (t ∷ ps) hs)

abbrev Bounded : Option ℕ → Type 0
Bounded none = Unit {0}
Bounded (some n) = n < 2 ^ 64

IsComment-kept :
    (c : ℕ) (s : Text) → EndsSolid (c ∷ s) → Lacks newline (c ∷ s) → IsComment (trim_start s)
IsComment-kept c s h (_, k) =
    let (w, a, e) = trim_start_split s in
    record {
      begins = trim_start-IsSolid s;
      ends = EndsSolid-suffix (c ∷ w) (trim_start s) (subst (λ t. EndsSolid (c ∷ t)) e h);
      one_line = All-trim_start (λ d. d ≢ newline) s k;
    }

module _ {T : Type 0} (parse_rfc3339 : Text → Option T) (format : T → Text) where
  record Fit (f : Found parse_rfc3339 format) : Type 0 where
    bounded : Bounded f.sequence_found
    tidy : All IsComment f.comments_found

  read_inj : {A : Type 0} {a b : A} → ◌≡◌ {A = Reading A} (read a) (read b) → a ≡ b
  read_inj h = cc

  Fit-number :
      (f : Found parse_rfc3339 format) (n : ℕ)
      → n < 2 ^ 64
      → Fit f
      → Fit (record {
        timestamp_found = f.timestamp_found;
        sequence_found = some n;
        comments_found = f.comments_found;
      })
  Fit-number f n h fit = record { bounded = h; tidy = fit.tidy }

  read_pair-Fit :
      (key value : Text) (f g : Found parse_rfc3339 format)
      → read_pair parse_rfc3339 format key value f ≡ read g
      → Fit f
      → Fit g
  unfolding read_pair
  read_pair-Fit key value f g e fit = elim (Bool-cases (text_eq (trim key) (codes "timestamp"))) [
    | inl k ↦ elim (Option-cases (parse_rfc3339 (unescape value))) [
      | inl n ↦ absurd (cc (rw (k, n) at e))
      | inr (t, n) ↦
          subst Fit (read_inj (rw (k, n) at e)) (record { bounded = fit.bounded; tidy = fit.tidy })
    ]
    | inr k ↦ elim (Bool-cases (text_eq (trim key) (codes "sequenceNumber"))) [
      | inl l ↦ elim (Option-cases (parse_unsigned (2 ^ 64) (trim value))) [
        | inl n ↦ absurd (cc (rw (k, l, n) at e))
        | inr (m, n) ↦
            subst Fit (read_inj (rw (k, l, n) at e))
              (Fit-number f m (parse_unsigned-lt (2 ^ 64) (trim value) (omega arith) n) fit)
      ]
      | inr l ↦ subst Fit (read_inj (rw (k, l) at e)) fit
    ]
  ]

  read_trimmed-Fit :
      (raw s : Text) (f g : Found parse_rfc3339 format)
      → EndsSolid s
      → Lacks newline s
      → read_trimmed parse_rfc3339 format raw s f ≡ read g
      → Fit f
      → Fit g
  unfolding read_trimmed
  read_trimmed-Fit raw [] f g h k e fit = subst Fit (read_inj e) fit
  read_trimmed-Fit raw (c ∷ s) f g h k e fit = elim (Bool-cases (c == b'#')) [
    | inl l ↦ subst Fit (read_inj (rw l at e)) (record {
      bounded = fit.bounded;
      tidy =
          All-append IsComment f.comments_found (trim_start s ∷ []) fit.tidy
            (IsComment-kept c s h k, tt);
    })
    | inr l ↦ elim (Option-cases (split_once (c ∷ s) b'=')) [
      | inl n ↦ absurd (cc (rw (l, n) at e))
      | inr ((key, value), n) ↦ read_pair-Fit key value f g (rw (l, n) at e) fit
    ]
  ]

  read_state_lines-Fit :
      (lines : List Text) (f g : Found parse_rfc3339 format)
      → All (Lacks newline) lines
      → read_state_lines parse_rfc3339 format lines f ≡ read g
      → Fit f
      → Fit g
  unfolding read_state_lines
  read_state_lines-Fit [] f g h e fit = subst Fit (read_inj e) fit
  read_state_lines-Fit (raw ∷ lines) f g (hr, hs) e fit =
      elim (Reading-cases (read_trimmed parse_rfc3339 format raw (trim raw) f)) [
        | inl (why, k) ↦ absurd (cc (rw (read_state_lines, k) at e))
        | inr (f', k) ↦ read_state_lines-Fit lines f' g hs (rw (read_state_lines, k) at e) (
            read_trimmed-Fit raw (trim raw) f f' (trim-EndsSolid raw)
              (All-trim (λ c. c ≢ newline) raw hr) k fit)
      ]

  -- What `parse` returns has a number that fits 64 bits and comments that are single lines without
  -- whitespace at the ends, whatever the text.
  pub parse_state-IsComment :
      (s : Text) {state : ReplicationState T}
      → parse_state parse_rfc3339 format s ≡ read state
      → (state.sequence_number < 2 ^ 64) × All IsComment state.comments
  unfolding parse_state checked
  parse_state-IsComment s {state} e =
      elim (Reading-cases (
        read_state_lines parse_rfc3339 format (lines_of (split s newline))
          (none_found parse_rfc3339 format))) [
            | inl (why, k) ↦ absurd (cc (rw (parse_state, k) at e))
            | inr (f, k) ↦
                let fit : Fit f =
                  read_state_lines-Fit (lines_of (split s newline))
                    (none_found parse_rfc3339 format) f
                    (lines_of-Lacks (split s newline) (split-Lacks s newline)) k
                    (record { bounded = tt; tidy = tt }) in
                elim (Option-cases f.timestamp_found) [
                  | inl n ↦ absurd (cc (rw (parse_state, k, checked, n) at e))
                  | inr (t, n) ↦ elim (Option-cases f.sequence_found) [
                    | inl l ↦ absurd (cc (rw (parse_state, k, checked, n, l) at e))
                    | inr (m, l) ↦
                        let same : ◌≡◌ {A = ReplicationState T}
                            (record {
                              timestamp = t;
                              sequence_number = m;
                              comments = f.comments_found;
                            })
                            state =
                          read_inj (rw (parse_state, k, checked, n, l) at e) in
                        subst (λ r. (r.sequence_number < 2 ^ 64) × All IsComment r.comments) same
                          (subst Bounded l fit.bounded, fit.tidy)
                  ]
                ]
          ]

  -- A file that is parsed, written and parsed again gives the same state, if chrono reads back its
  -- time as it wrote it.
  pub parse_state_again :
      (s : Text) {state : ReplicationState T}
      → parse_state parse_rfc3339 format s ≡ read state
      → IsWritten parse_rfc3339 format state.timestamp
      → parse_state parse_rfc3339 format (to_string_wire parse_rfc3339 format state) ≡ read state
  parse_state_again s {state} e w =
      let (bounded, tidy) = parse_state-IsComment s e in
      parse_state-to_string_wire parse_rfc3339 format state w bounded tidy
