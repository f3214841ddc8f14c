-- ===== src/Tests/ReplicationFiles.antt =====
-- `ReplicationState` of server/src/fetcher/state.rs, with texts for times.
use geocoder.Prelude.{
  ◌≡◌, ◌<◌, ◌^◌, refl, [], ◌∷◌, Option, some, Text, codes, text_eq, is_whitespace, trim, trim_start,
  trim_end, split, split_once, All, arith,
}
use geocoder.Strings.Decimal.{decimal_from, decimal, digits_below, parse_below, parse_unsigned}
use geocoder.Fetcher.State.{
  newline, ReplicationState, read, failed, no_sequence, strip_return, lines_of, unescape, escape,
  read_pair, read_trimmed, read_state_lines, checked, parse_state, comment_lines, to_string_wire,
}
use geocoder.Fetcher.State.RoundTrip.{IsComment, IsWritten, parse_state-to_string_wire}
use geocoder.Fetcher.State.Kept.{parse_state-IsComment}
use geocoder.Fetcher.State.Reasons.{Cause}
use geocoder.Fetcher.State.Causes.{parse_state-Cause}

program : Unit {0}
unfolding text_eq is_whitespace trim trim_start trim_end split split_once decimal_from decimal
    digits_below parse_below parse_unsigned strip_return lines_of unescape escape read_pair
    read_trimmed read_state_lines checked parse_state comment_lines to_string_wire
program = tt

abbrev parse_time : Text → Option Text
parse_time s = some s

abbrev format_time : Text → Text
format_time t = t

abbrev state : ReplicationState Text
state = record {
  timestamp = codes "2026-04-25T20:20:59Z";
  sequence_number = 4769;
  comments = codes "original 7086110" ∷ [];
}

abbrev wire : Text
wire = codes "# original 7086110\ntimestamp=2026-04-25T20\\:20\\:59Z\nsequenceNumber=4769\n"

written_as : to_string_wire parse_time format_time state ≡ wire
unfolding program
written_as = refl

reads_back : parse_state parse_time format_time wire ≡ read state
unfolding program
reads_back = refl

time-IsWritten : IsWritten parse_time format_time (codes "2026-04-25T20:20:59Z")
unfolding is_whitespace
time-IsWritten = record {
  reads = refl;
  no_space = (
    refl,
    (
      refl,
      (
        refl,
        (
          refl,
          (
            refl,
            (
              refl,
              (
                refl,
                (
                  refl,
                  (
                    refl,
                    (
                      refl,
                      (
                        refl,
                        (refl, (refl, (refl, (refl, (refl, (refl, (refl, (refl, (refl, tt))))))))),
                      ),
                    ),
                  ),
                ),
              ),
            ),
          ),
        ),
      ),
    ),
  );
}

parse_state-IsComment_example : (4769 < 2 ^ 64) × All IsComment (codes "original 7086110" ∷ [])
parse_state-IsComment_example =
    parse_state-IsComment parse_time format_time wire {state = state} reads_back

comments-IsComment : All IsComment (codes "original 7086110" ∷ [])
comments-IsComment =
    (parse_state-IsComment parse_time format_time wire {state = state} reads_back).1

parse_state-to_string_wire_example :
    parse_state parse_time format_time (to_string_wire parse_time format_time state) ≡ read state
parse_state-to_string_wire_example =
    parse_state-to_string_wire parse_time format_time state time-IsWritten (omega arith)
      comments-IsComment

no_number : parse_state parse_time format_time (codes "timestamp=x\r\n\n") ≡ failed no_sequence
unfolding program
no_number = refl

parse_state-Cause_example :
    Cause parse_time format_time (lines_of (split (codes "timestamp=x\r\n\n") newline)) no_sequence
parse_state-Cause_example =
    parse_state-Cause parse_time format_time (codes "timestamp=x\r\n\n") no_number
