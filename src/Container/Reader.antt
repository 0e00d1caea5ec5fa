-- ===== src/Container/Reader.antt =====
-- internal/container/event_generator.go: `createEvent` and the goroutine `consumeReader`, which turn
-- what a `LogReader` returns into the events of the channel. A message is the list of its bytes.
pub mod Contents
pub mod Created
use dozzle_gaia_fork.Common.{
  ℕ, suc, ◌<◌, ◌==◌, String, Bool, true, false, Option, none, some, List, [], ◌∷◌, length, ◌≡◌,
  refl, sym, subst, if◌then◌else◌, All, Bool-cases, Option-cases, inl, inr, ap, ◌∙◌,
}
use dozzle_gaia_fork.Common.Int.{ℤ, pos}
use dozzle_gaia_fork.Container.EventGenerator.{Generator, process_buffer}
use dozzle_gaia_fork.Container.EventGenerator.Delivery.{Delivered, process_buffer-Delivered}
use dozzle_gaia_fork.Container.EventGenerator.Lines.{IsCreated, arrivals, upcoming}
use dozzle_gaia_fork.Container.LogEvent.{LogEvent, single, complex, text, object, is_simple}
use dozzle_gaia_fork.Container.Logfmt.{Bytes, Pairs, space, parse_log_fmt}

-- What `json.Unmarshal` makes of a valid text: an error, nil, or an object.
pub data Unmarshalled (O : Type 0) : Type 0 where
  mismatch null : Unmarshalled O
  decoded : O → Unmarshalled O

-- The libraries that `createEvent` calls: the hash, the dates, JSON, and the text of bytes.
-- `marshal` is empty where the encoding fails.
pub record Decoders (O : Type 0) : Type 0 where
  pub show : Bytes → String
  pub hash : Bytes → ℕ
  pub parse_time : Bytes → Option ℤ
  pub is_valid_json : Bytes → Bool
  pub unmarshal : Bytes → Unmarshalled O
  pub ordered : Pairs → O
  pub marshal : Pairs → Bytes

-- What `Read` returns: a message, empty where there is none, the stream, and the error.
pub data ReadError : Type 0 where
  no_error bad_header other_error : ReadError

pub record ReadResult : Type 0 where
  pub message : Bytes
  pub stream : String
  pub error : ReadError

-- The text before the first space, and the one after it.
unfoldable pub cut_space : Bytes → Option (Bytes × Bytes)
cut_space [] = none
cut_space (c ∷ cs) =
    let rest = cut_space cs in
    if c == space then some ([], cs) else elim rest [ none ↦ none | some (a, b) ↦ some (c ∷ a, b) ]

-- `strings.TrimSuffix(s, "\n")`
unfoldable pub trim_newline : Bytes → Bytes
trim_newline [] = []
trim_newline (c ∷ []) = if c == 10 then [] else c ∷ []
trim_newline (c ∷ d ∷ cs) = c ∷ trim_newline (d ∷ cs)

module _ {O : Type 0} (d : Decoders O) where
  abbrev pub raw_event : Bytes → String → LogEvent O
  raw_event message stream = record {
    kind = single;
    message = text (d.show message);
    raw_message = "";
    timestamp = pos 0;
    id = d.hash message;
    level = "";
    stream = stream;
    container_id = "";
  }

  abbrev pub structured_event : LogEvent O → O → String → LogEvent O
  structured_event e o raw = record e { kind = complex; message = object o; raw_message = raw }

  unfoldable pub decode_json : Bytes → LogEvent O → LogEvent O
  decode_json message e = elim (d.unmarshal message) [
    | mismatch ↦ e
    | null ↦ record e { message = text "" }
    | decoded o ↦ structured_event e o e.raw_message
  ]

  -- The rest of a line after its date.
  unfoldable pub decode_line : Bytes → LogEvent O → LogEvent O
  unfolding decode_json
  decode_line [] e = record e { message = text "" }
  decode_line (c ∷ cs) e =
      if d.is_valid_json (c ∷ cs) then decode_json (c ∷ cs) e else elim (parse_log_fmt (c ∷ cs)) [
        | none ↦ e
        | some pairs ↦ structured_event e (d.ordered pairs) (d.show (d.marshal pairs))
      ]

  unfoldable pub dated_event : Bytes → ℤ → LogEvent O → LogEvent O
  unfolding decode_line
  dated_event message time e =
      decode_line message (record e {
        timestamp = time;
        message = text (d.show message);
        raw_message = d.show message;
      })

  unfoldable pub create_event : Bytes → String → LogEvent O
  unfolding dated_event
  create_event message stream = elim (cut_space message) [
    | none ↦ raw_event message stream
    | some (head, tail) ↦ elim (d.parse_time head) [
      | none ↦ raw_event message stream
      | some time ↦ dated_event (trim_newline tail) time (raw_event message stream)
    ]
  ]

  -- `guess` stands for `guessLogLevel`, of another file.
  module _ (guess : LogEvent O → String) (container_id : String) where
    unfoldable pub read_event : Bytes → String → LogEvent O
    unfolding create_event
    read_event message stream =
        let e = record (create_event message stream) { container_id = container_id } in
        record e { level = guess e }

    -- The events that go into the channel until it is closed: at the first error that is not
    -- `ErrBadHeader`.
    unfoldable pub consume_reader : List ReadResult → List (LogEvent O)
    unfolding read_event
    consume_reader [] = []
    consume_reader (r ∷ rs) =
        let rest : List (LogEvent O) = elim r.error [ other_error ↦ [] | _ ↦ consume_reader rs ] in
        elim r.message [ [] ↦ rest | c ∷ cs ↦ read_event (c ∷ cs) r.stream ∷ rest ]
