-- ===== src/Tests/Readers.antt =====
-- The reader and the event generator together, on two lines and an unreadable frame.
use dozzle_gaia_fork.Common.{
  ℕ, String, Bool, true, false, none, some, List, [], ◌∷◌, length, ◌≡◌, refl, arith,
}
use dozzle_gaia_fork.Common.Int.{pos}
use dozzle_gaia_fork.Container.EventGenerator.{event, timeout, Generator, process_buffer}
use dozzle_gaia_fork.Container.EventGenerator.Delivery.{Delivered}
use dozzle_gaia_fork.Container.LogEvent.{LogEvent, object}
use dozzle_gaia_fork.Container.Logfmt.{
  Pairs, set_pair, scan_key, scan_quoted, scan_bare, scan_byte, scan_bytes, last_pair, last_value,
  finish, parse_log_fmt,
}
use dozzle_gaia_fork.Container.Reader.{
  Decoders, null, ReadResult, no_error, bad_header, other_error, cut_space, trim_newline,
  decode_json, decode_line, dated_event, create_event, read_event, consume_reader,
}
use dozzle_gaia_fork.Container.Reader.Contents.{AreRead}
use dozzle_gaia_fork.Container.Reader.Created.{process_buffer-consume_reader}

-- Every text before a space is a date.
abbrev decoders : Decoders Pairs
decoders = record {
  show = λ b. "line";
  hash = length;
  parse_time = λ b. some (pos (length b));
  is_valid_json = λ b. false;
  unmarshal = λ b. null;
  ordered = λ ps. ps;
  marshal = λ ps. [];
}

abbrev unknown_level : LogEvent Pairs → String
unknown_level e = "unknown"

-- `t x`, a frame that is not readable, and `t a=1` with the end of the log
abbrev reads : List ReadResult
reads =
    record { message = 116 ∷ 32 ∷ 120 ∷ 10 ∷ []; stream = "stdout"; error = no_error }
    ∷ record { message = []; stream = "stdout"; error = bad_header }
    ∷ record { message = 116 ∷ 32 ∷ 97 ∷ 61 ∷ 49 ∷ 10 ∷ []; stream = "stderr"; error = other_error }
    ∷ []

abbrev first_event : LogEvent Pairs
first_event = read_event decoders unknown_level "c1" (116 ∷ 32 ∷ 120 ∷ 10 ∷ []) "stdout"

abbrev second_event : LogEvent Pairs
second_event = read_event decoders unknown_level "c1" (116 ∷ 32 ∷ 97 ∷ 61 ∷ 49 ∷ 10 ∷ []) "stderr"

abbrev waiting : Generator Pairs
waiting = record {
  next = none;
  buffer = event first_event ∷ timeout ∷ event second_event ∷ [];
  events = [];
  sends = 0;
  panicked = false;
}

abbrev always : ℕ → Bool
always n = true

process_buffer-consume_reader_example :
    AreRead decoders
      ((116 ∷ 32 ∷ 120 ∷ 10 ∷ []) ∷ (116 ∷ 32 ∷ 97 ∷ 61 ∷ 49 ∷ 10 ∷ []) ∷ [])
      (first_event ∷ second_event ∷ [])
    × ((g : Generator Pairs) × (process_buffer always 4 none waiting ≡ some g)
        × Delivered waiting g)
unfolding consume_reader
process_buffer-consume_reader_example =
    process_buffer-consume_reader decoders unknown_level "c1" always (λ n. refl) 4 none reads
      waiting refl refl refl (omega arith)

-- The second line is structured: its pairs are `a` and `1`.
pairs_of_second : second_event.message ≡ object ((97 ∷ [], 49 ∷ []) ∷ [])
unfolding set_pair scan_key scan_quoted scan_bare scan_byte scan_bytes last_pair last_value finish
    parse_log_fmt cut_space trim_newline decode_json decode_line dated_event create_event read_event
pairs_of_second = refl
