-- ===== src/Fetcher/State/RoundTrip.antt =====
-- What `to_string_wire` of server/src/fetcher/state.rs writes, `parse` reads back.
use geocoder.Prelude.{
  ℕ, ◌^◌, ◌<◌, ◌≡◌, refl, sym, ap, ◌∙◌, true, false, List, [], ◌∷◌, ◌++◌, append_assoc, append-nil,
  Option, some, Text, text_eq, codes, is_digit, all, ◌==◌, All, trim, trim_start, is_whitespace,
  split, split_once, Lacks, Bool-cases, inl, inr, arith,
}
use geocoder.Strings.Trim.{IsSolid, EndsSolid, trim_start_of_IsSolid, trim_of_solid}
use geocoder.Strings.Split.{split_once_lem}
use geocoder.Strings.Decimal.{decimal, parse_below, parse_unsigned}
use geocoder.Strings.Decimal.RoundTrip.{decimal-IsNumber, parse_below-decimal}
use geocoder.Fetcher.State.{
  newline, strip_return, ReplicationState, read, lines_of, unescape, escape, Found, none_found,
  read_pair, read_trimmed, read_state_lines, checked, parse_state, comment_lines, to_string_wire,
}
use geocoder.Fetcher.State.Lines.{
  NoSpace, trim_of_NoSpace, NoSpace-Lacks, EndsSolid-append, trim-strip_return, lines_of-split,
}

-- A comment without whitespace at its ends, in one line.
pub record IsComment (c : Text) : Type 0 where
  pub begins : IsSolid c
  pub ends : EndsSolid c
  pub one_line : Lacks newline c

-- A time that chrono writes without whitespace and reads back: one to the second.
pub record IsWritten {T : Type 0} (parse_rfc3339 : Text → Option T) (format : T → Text) (t : T)
    : Type 0 where
  pub reads : parse_rfc3339 (format t) ≡ some t
  pub no_space : NoSpace (format t)

unescape_plain :
    (c : ℕ) (s : Text) → (c == b':') ≡ false → unescape (c ∷ escape s) ≡ c ∷ unescape (escape s)
unfolding unescape escape
unescape_plain c [] h = refl
unescape_plain c (d ∷ s) h = elim (Bool-cases (d == b':')) [
  | inl e ↦ rw e (ground arith)
  | inr e ↦ rw e (ground arith)
]

unescape_escaped :
    (c : ℕ) (s : Text) → (c == b':') ≡ true → unescape (b'\\' ∷ c ∷ s) ≡ c ∷ unescape s
unfolding unescape
unescape_escaped c s h = rw (unescape, h) refl

pub unescape-escape : (s : Text) → unescape (escape s) ≡ s
unfolding unescape escape
unescape-escape [] = refl
unescape-escape (c ∷ s) = elim (Bool-cases (c == b':')) [
  | inl e ↦ rw e (unescape_escaped c (escape s) e ∙ ap (λ t. c ∷ t) (unescape-escape s))
  | inr e ↦ rw e (unescape_plain c s e ∙ ap (λ t. c ∷ t) (unescape-escape s))
]

NoSpace-escape : (s : Text) → NoSpace s → NoSpace (escape s)
unfolding escape is_whitespace
NoSpace-escape [] h = tt
NoSpace-escape (c ∷ s) (hc, hs) = elim (Bool-cases (c == b':')) [
  | inl e ↦ rw e (refl, (hc, NoSpace-escape s hs))
  | inr e ↦ rw e (hc, NoSpace-escape s hs)
]

digits-NoSpace : (s : Text) → all is_digit s ≡ true → NoSpace s
unfolding is_whitespace
digits-NoSpace [] h = tt
digits-NoSpace (c ∷ s) h = (ground arith, digits-NoSpace s (ground (arith, h)))

parse_unsigned_digit :
    (bound : ℕ) (s : Text) {n : ℕ}
    → all is_digit s ≡ true
    → parse_below bound s ≡ some n
    → parse_unsigned bound s ≡ some n
unfolding parse_unsigned parse_below
parse_unsigned_digit bound [] h k = absurd (cc)
parse_unsigned_digit bound (c ∷ s) h k = let plus : (c == b'+') ≡ false = ground arith in rw plus k

pub parse_unsigned-decimal : (bound n : ℕ) → n < bound → parse_unsigned bound (decimal n) ≡ some n
parse_unsigned-decimal bound n h =
    parse_unsigned_digit bound (decimal n) (decimal-IsNumber n).digits
      (parse_below-decimal bound n h)

comment_lacks : (c : Text) → IsComment c → Lacks newline (b'#' ∷ b' ' ∷ c)
comment_lacks c h =
    ((λ e. absurd (ground (arith, e))), ((λ e. absurd (ground (arith, e))), h.one_line))

module _ {T : Type 0} (parse_rfc3339 : Text → Option T) (format : T → Text) where
  -- The state as the loop has it behind lines.
  read_lines_step :
      (p s : Text) (f g : Found parse_rfc3339 format)
      → Lacks newline p
      → read_trimmed parse_rfc3339 format (strip_return p) (trim p) f ≡ read g
      → read_state_lines parse_rfc3339 format (lines_of (split (p ++ newline ∷ s) newline)) f
        ≡ read_state_lines parse_rfc3339 format (lines_of (split s newline)) g
  unfolding read_state_lines
  read_lines_step p s f g lacks h =
      rw (lines_of-split p s lacks, read_state_lines, trim-strip_return p, h) refl

  abbrev with_comments : List Text → Found parse_rfc3339 format → Found parse_rfc3339 format
  with_comments cs f = record {
    timestamp_found = f.timestamp_found;
    sequence_found = f.sequence_found;
    comments_found = f.comments_found ++ cs;
  }

  comment_read :
      (c : Text) (raw : Text) (f : Found parse_rfc3339 format)
      → IsComment c
      → read_trimmed parse_rfc3339 format raw (trim (b'#' ∷ b' ' ∷ c)) f
        ≡ read (with_comments (c ∷ []) f)
  unfolding read_trimmed trim_start is_whitespace
  comment_read [] raw f h = refl
  comment_read (c ∷ s) raw f h =
      let whole : trim (b'#' ∷ b' ' ∷ c ∷ s) ≡ b'#' ∷ b' ' ∷ c ∷ s =
        trim_of_solid (b'#' ∷ b' ' ∷ c ∷ s) refl (EndsSolid-append (b'#' ∷ b' ' ∷ []) s c h.ends) in
      rw whole (
        ap
          (λ t. read (record {
            timestamp_found = f.timestamp_found;
            sequence_found = f.sequence_found;
            comments_found = f.comments_found ++ t ∷ [];
          }))
          (trim_start_of_IsSolid (c ∷ s) h.begins))

  read_comments :
      (cs : List Text) (s : Text) (f : Found parse_rfc3339 format)
      → All IsComment cs
      → read_state_lines parse_rfc3339 format
          (lines_of (split (comment_lines parse_rfc3339 format cs ++ s) newline))
          f
        ≡ read_state_lines parse_rfc3339 format (lines_of (split s newline)) (with_comments cs f)
  unfolding comment_lines
  read_comments [] s f h =
      ap
        (λ cs. read_state_lines parse_rfc3339 format (lines_of (split s newline)) (record {
          timestamp_found = f.timestamp_found;
          sequence_found = f.sequence_found;
          comments_found = cs;
        }))
        (sym (append-nil f.comments_found))
  read_comments (c ∷ cs) s f (hc, hs) =
      ap (λ t. read_state_lines parse_rfc3339 format (lines_of (split t newline)) f)
        (append_assoc (b'#' ∷ b' ' ∷ c) (newline ∷ comment_lines parse_rfc3339 format cs) s)
      ∙ read_lines_step (b'#' ∷ b' ' ∷ c) (comment_lines parse_rfc3339 format cs ++ s) f
          (with_comments (c ∷ []) f) (comment_lacks c hc)
          (comment_read c (strip_return (b'#' ∷ b' ' ∷ c)) f hc)
      ∙ read_comments cs s (with_comments (c ∷ []) f) hs
      ∙ ap
          (λ ds. read_state_lines parse_rfc3339 format (lines_of (split s newline)) (record {
            timestamp_found = f.timestamp_found;
            sequence_found = f.sequence_found;
            comments_found = ds;
          }))
          (append_assoc f.comments_found (c ∷ []) cs)

  read_split :
      (raw : Text) (c : ℕ) (s : Text) (f : Found parse_rfc3339 format) {key value : Text}
      → (c == b'#') ≡ false
      → split_once (c ∷ s) b'=' ≡ some (key, value)
      → read_trimmed parse_rfc3339 format raw (c ∷ s) f ≡ read_pair parse_rfc3339 format key value f
  unfolding read_trimmed
  read_split raw c s f h k = rw (read_trimmed, h, k) refl

  timestamp_pair :
      (value : Text) (f : Found parse_rfc3339 format) {t : T}
      → parse_rfc3339 (unescape value) ≡ some t
      → read_pair parse_rfc3339 format (codes "timestamp") value f
        ≡ read (record {
          timestamp_found = some t;
          sequence_found = f.sequence_found;
          comments_found = f.comments_found;
        })
  unfolding read_pair text_eq is_whitespace
  timestamp_pair value f h = rw (read_pair, h) refl

  sequence_pair :
      (value : Text) (f : Found parse_rfc3339 format) {n : ℕ}
      → parse_unsigned (2 ^ 64) (trim value) ≡ some n
      → read_pair parse_rfc3339 format (codes "sequenceNumber") value f
        ≡ read (record {
          timestamp_found = f.timestamp_found;
          sequence_found = some n;
          comments_found = f.comments_found;
        })
  unfolding read_pair text_eq is_whitespace
  sequence_pair value f h = rw (read_pair, h) refl

  module _ (t : T) (n : ℕ) (f : Found parse_rfc3339 format) (w : IsWritten parse_rfc3339 format t)
      (bounded : n < 2 ^ 64) where
    timestamp_line-NoSpace : NoSpace (codes "timestamp=" ++ escape (format t))
    unfolding is_whitespace
    timestamp_line-NoSpace = (
      refl,
      (
        refl,
        (
          refl,
          (
            refl,
            (refl, (refl, (refl, (refl, (refl, (refl, NoSpace-escape (format t) w.no_space)))))),
          ),
        ),
      ),
    )

    decimal-NoSpace : NoSpace (decimal n)
    decimal-NoSpace = digits-NoSpace (decimal n) (decimal-IsNumber n).digits

    sequence_line-NoSpace : NoSpace (codes "sequenceNumber=" ++ decimal n)
    unfolding is_whitespace
    sequence_line-NoSpace = (
      refl,
      (
        refl,
        (
          refl,
          (
            refl,
            (
              refl,
              (
                refl,
                (
                  refl,
                  (refl, (refl, (refl, (refl, (refl, (refl, (refl, (refl, decimal-NoSpace)))))))),
                ),
              ),
            ),
          ),
        ),
      ),
    )

    timestamp_read :
        (raw : Text)
        → read_trimmed parse_rfc3339 format raw (trim (codes "timestamp=" ++ escape (format t))) f
          ≡ read (record {
            timestamp_found = some t;
            sequence_found = f.sequence_found;
            comments_found = f.comments_found;
          })
    timestamp_read raw =
        ap (λ s. read_trimmed parse_rfc3339 format raw s f)
          (trim_of_NoSpace (codes "timestamp=" ++ escape (format t)) timestamp_line-NoSpace)
        ∙ read_split raw b't' (codes "imestamp=" ++ escape (format t)) f refl
            (split_once_lem (codes "timestamp") (escape (format t)) b'=' (ground arith))
        ∙ timestamp_pair (escape (format t)) f
            (ap parse_rfc3339 (unescape-escape (format t)) ∙ w.reads)

    sequence_read :
        (raw : Text)
        → read_trimmed parse_rfc3339 format raw (trim (codes "sequenceNumber=" ++ decimal n)) f
          ≡ read (record {
            timestamp_found = f.timestamp_found;
            sequence_found = some n;
            comments_found = f.comments_found;
          })
    sequence_read raw =
        ap (λ s. read_trimmed parse_rfc3339 format raw s f)
          (trim_of_NoSpace (codes "sequenceNumber=" ++ decimal n) sequence_line-NoSpace)
        ∙ read_split raw b's' (codes "equenceNumber=" ++ decimal n) f refl
            (split_once_lem (codes "sequenceNumber") (decimal n) b'=' (ground arith))
        ∙ sequence_pair (decimal n) f (
            ap (parse_unsigned (2 ^ 64)) (trim_of_NoSpace (decimal n) decimal-NoSpace)
            ∙ parse_unsigned-decimal (2 ^ 64) n bounded)

  -- The two lines of fields.
  abbrev fields_wire : T → ℕ → Text
  fields_wire t n =
      codes "timestamp="
      ++ (escape (format t) ++ newline ∷ (codes "sequenceNumber=" ++ (decimal n ++ newline ∷ [])))

  read_fields :
      (t : T) (n : ℕ) (f : Found parse_rfc3339 format)
      → IsWritten parse_rfc3339 format t
      → n < 2 ^ 64
      → read_state_lines parse_rfc3339 format (lines_of (split (fields_wire t n) newline)) f
        ≡ read (record {
          timestamp_found = some t;
          sequence_found = some n;
          comments_found = f.comments_found;
        })
  unfolding read_state_lines lines_of split
  read_fields t n f w bounded =
      let g : Found parse_rfc3339 format = record {
        timestamp_found = some t;
        sequence_found = f.sequence_found;
        comments_found = f.comments_found;
      } in
      read_lines_step (codes "timestamp=" ++ escape (format t))
        (codes "sequenceNumber=" ++ (decimal n ++ newline ∷ [])) f g
        (NoSpace-Lacks (codes "timestamp=" ++ escape (format t))
          (timestamp_line-NoSpace t n f w bounded))
        (timestamp_read t n f w bounded (strip_return (codes "timestamp=" ++ escape (format t))))
      ∙ read_lines_step (codes "sequenceNumber=" ++ decimal n) [] g
          (record {
            timestamp_found = some t;
            sequence_found = some n;
            comments_found = f.comments_found;
          })
          (NoSpace-Lacks (codes "sequenceNumber=" ++ decimal n)
            (sequence_line-NoSpace t n g w bounded))
          (sequence_read t n g w bounded (strip_return (codes "sequenceNumber=" ++ decimal n)))

  -- A state whose number fits 64 bits, whose time chrono reads back as it wrote it, and whose
  -- comments are single lines without whitespace at the ends, is read back from what is written of it.
  pub parse_state-to_string_wire :
      (state : ReplicationState T)
      → IsWritten parse_rfc3339 format state.timestamp
      → state.sequence_number < 2 ^ 64
      → All IsComment state.comments
      → parse_state parse_rfc3339 format (to_string_wire parse_rfc3339 format state) ≡ read state
  unfolding parse_state to_string_wire checked
  parse_state-to_string_wire state w bounded h =
      let all_read : read_state_lines parse_rfc3339 format
            (lines_of (
              split
                (comment_lines parse_rfc3339 format state.comments
                  ++ fields_wire state.timestamp state.sequence_number)
                newline))
            (none_found parse_rfc3339 format)
          ≡ read (record {
            timestamp_found = some state.timestamp;
            sequence_found = some state.sequence_number;
            comments_found = state.comments;
          }) =
        read_comments state.comments (fields_wire state.timestamp state.sequence_number)
          (none_found parse_rfc3339 format) h
        ∙ read_fields state.timestamp state.sequence_number
            (with_comments state.comments (none_found parse_rfc3339 format)) w bounded in
      rw (parse_state, all_read) refl
