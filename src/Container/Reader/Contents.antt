-- ===== src/Container/Reader/Contents.antt =====
-- What the event of a line holds of the line.
use dozzle_gaia_fork.Common.{
  ℕ, ◌==◌, String, Bool, true, false, Option, none, some, List, [], ◌∷◌, ◌++◌, ◌≡◌, refl, sym, ap,
  ◌∙◌, subst, All, Bool-cases, Option-cases, ◌⊎◌, inl, inr, arith, if◌then◌else◌,
}
use dozzle_gaia_fork.Common.Int.{ℤ, pos}
use dozzle_gaia_fork.Container.LogEvent.{LogEvent, text, object, Message}
use dozzle_gaia_fork.Container.Logfmt.{Bytes, Pairs, parse_log_fmt}
use dozzle_gaia_fork.Container.Reader.{
  Unmarshalled, mismatch, null, decoded, Decoders, ReadError, no_error, bad_header, other_error,
  ReadResult, cut_space, trim_newline, raw_event, decode_json, decode_line, dated_event,
  create_event, read_event, consume_reader,
}

abbrev pub HasNoSpace : Bytes → Type 0
HasNoSpace bs = All (λ c. (c == 32) ≡ false) bs

-- The text is cut at its first space.
pub data IsCut (message : Bytes) : Option (Bytes × Bytes) → Type 0 where
  whole : HasNoSpace message → IsCut message none
  cut :
      (head tail : Bytes)
      → HasNoSpace head
      → message ≡ head ++ (32 ∷ tail)
      → IsCut message (some (head, tail))

is_space : (c : ℕ) → (c == 32) ≡ true → c ≡ 32
is_space c h = ground arith

cut_space-IsCut : (message : Bytes) → IsCut message (cut_space message)
unfolding cut_space
cut_space-IsCut [] = whole tt
cut_space-IsCut (c ∷ cs) = step (c == 32) refl (cut_space cs) (cut_space-IsCut cs)
  where
    step :
        (b : Bool)
        → (c == 32) ≡ b
        → (o : Option (Bytes × Bytes)) → IsCut cs o
        → IsCut (c ∷ cs) (
            if b then some ([], cs) else elim o as (λ _. Option (Bytes × Bytes)) [
              | none ↦ none
              | some (x, y) ↦ some (c ∷ x, y)
            ])
    step true e o h = cut [] cs tt (ap (λ x. x ∷ cs) (is_space c e))
    step false e _ (whole h) = whole (e, h)
    step false e _ (cut head tail h same) = cut (c ∷ head) tail (e, h) (ap (λ l. c ∷ l) same)

abbrev pub ends_in_newline : Bytes → Bool
ends_in_newline [] = false
ends_in_newline (c ∷ []) = c == 10
ends_in_newline (c ∷ e ∷ cs) = ends_in_newline (e ∷ cs)

-- The line without the newline at its end, where it has one.
abbrev pub IsTrimmed : Bytes → Bytes → Type 0
IsTrimmed tail line = (tail ≡ line ++ (10 ∷ [])) ⊎ ((tail ≡ line) × (ends_in_newline tail ≡ false))

trim_newline-IsTrimmed : (tail : Bytes) → IsTrimmed tail (trim_newline tail)
unfolding trim_newline
trim_newline-IsTrimmed [] = inr (refl, refl)
trim_newline-IsTrimmed (c ∷ []) = step (c == 10) refl
  where
    is_newline : (c == 10) ≡ true → c ≡ 10
    is_newline h = ground arith

    step : (b : Bool) → (c == 10) ≡ b → IsTrimmed (c ∷ []) (if b then [] else c ∷ [])
    step true e = inl (ap (λ x. x ∷ []) (is_newline e))
    step false e = inr (refl, e)
trim_newline-IsTrimmed (c ∷ d ∷ cs) = elim (trim_newline-IsTrimmed (d ∷ cs)) [
  | inl same ↦ inl (ap (λ l. c ∷ l) same)
  | inr (same, more) ↦ inr (ap (λ l. c ∷ l) same, more)
]

module _ {O : Type 0} (d : Decoders O) where
  -- What becomes of the line after its date: an object where it is JSON or logfmt, or else its text.
  pub data IsBody (line : Bytes) : Message O → Type 0 where
    empty : line ≡ [] → IsBody line (text "")
    json_object :
        (o : O)
        → d.is_valid_json line ≡ true
        → d.unmarshal line ≡ decoded o
        → IsBody line (object o)
    json_null : d.is_valid_json line ≡ true → d.unmarshal line ≡ null → IsBody line (text "")
    json_other :
        d.is_valid_json line ≡ true → d.unmarshal line ≡ mismatch → IsBody line (text (d.show line))
    logfmt :
        (pairs : Pairs)
        → d.is_valid_json line ≡ false
        → parse_log_fmt line ≡ some pairs
        → IsBody line (object (d.ordered pairs))
    plain :
        d.is_valid_json line ≡ false → parse_log_fmt line ≡ none → IsBody line (text (d.show line))

  -- What the event holds: the whole text where it does not begin with a date and a space, or else
  -- the date, and what becomes of the rest.
  pub data Holds (message : Bytes) (e : LogEvent O) : Type 0 where
    no_space :
        HasNoSpace message
        → e.message ≡ text (d.show message)
        → e.timestamp ≡ pos 0
        → Holds message e
    undated :
        (head tail : Bytes)
        → HasNoSpace head
        → message ≡ head ++ (32 ∷ tail)
        → d.parse_time head ≡ none
        → e.message ≡ text (d.show message)
        → e.timestamp ≡ pos 0
        → Holds message e
    dated :
        (head tail line : Bytes)
        → HasNoSpace head
        → message ≡ head ++ (32 ∷ tail)
        → IsTrimmed tail line
        → d.parse_time head ≡ some e.timestamp
        → IsBody line e.message
        → Holds message e

  json_case :
      (line : Bytes) (e : LogEvent O) (u : Unmarshalled O)
      → d.is_valid_json line ≡ true
      → d.unmarshal line ≡ u
      → e.message ≡ text (d.show line)
      → IsBody line (decode_json d line e).message
        × ((decode_json d line e).timestamp ≡ e.timestamp)
  unfolding decode_json
  json_case line e mismatch valid is shown =
      rw (is, decode_json) (subst (IsBody line) (sym shown) (json_other valid is), refl)
  json_case line e null valid is shown = rw (is, decode_json) (json_null valid is, refl)
  json_case line e (decoded o) valid is shown = rw (is, decode_json) (json_object o valid is, refl)

  decode_line-IsBody :
      (line : Bytes) (e : LogEvent O)
      → e.message ≡ text (d.show line)
      → IsBody line (decode_line d line e).message
        × ((decode_line d line e).timestamp ≡ e.timestamp)
  unfolding decode_line
  decode_line-IsBody [] e shown = (empty refl, refl)
  decode_line-IsBody (c ∷ cs) e shown = elim (Bool-cases (d.is_valid_json (c ∷ cs))) [
    | inl valid ↦ rw (decode_line, valid) (json_case (c ∷ cs) e _ valid refl shown)
    | inr other ↦ elim (Option-cases (parse_log_fmt (c ∷ cs))) [
      | inl bad ↦
          rw (decode_line, other, bad) (subst (IsBody (c ∷ cs)) (sym shown) (plain other bad), refl)
      | inr (pairs, is) ↦ rw (decode_line, other, is) (logfmt pairs other is, refl)
    ]
  ]

  timed :
      (message head tail : Bytes) (stream : String) (time : Option ℤ)
      → HasNoSpace head
      → message ≡ head ++ (32 ∷ tail)
      → d.parse_time head ≡ time
      → Holds message (elim time as (λ _. LogEvent O) [
        | none ↦ raw_event d message stream
        | some t ↦ dated_event d (trim_newline tail) t (raw_event d message stream)
      ])
  unfolding dated_event
  timed message head tail stream none h same parsed = undated head tail h same parsed refl refl
  timed message head tail stream (some t) h same parsed =
      let line = trim_newline tail in
      let started = record (raw_event d message stream) {
        timestamp = t;
        message = text (d.show line);
        raw_message = d.show line;
      } in
      let (body, time) = decode_line-IsBody line started refl in
      dated head tail line h same (trim_newline-IsTrimmed tail) (parsed ∙ ap some (sym time)) body

  created :
      (message : Bytes) (stream : String) (o : Option (Bytes × Bytes))
      → IsCut message o
      → Holds message (elim o as (λ _. LogEvent O) [
        | none ↦ raw_event d message stream
        | some (head, tail) ↦ elim (d.parse_time head) as (λ _. LogEvent O) [
          | none ↦ raw_event d message stream
          | some t ↦ dated_event d (trim_newline tail) t (raw_event d message stream)
        ]
      ])
  created message stream _ (whole h) = no_space h refl refl
  created message stream _ (cut head tail h same) =
      timed message head tail stream (d.parse_time head) h same refl

  create_event-Holds :
      (message : Bytes) (stream : String) → Holds message (create_event d message stream)
  unfolding create_event
  create_event-Holds message stream =
      created message stream (cut_space message) (cut_space-IsCut message)

  -- Other fields do not matter.
  relabelled :
      (message : Bytes) (e f : LogEvent O)
      → e.message ≡ f.message
      → e.timestamp ≡ f.timestamp
      → Holds message e
      → Holds message f
  relabelled message e f m t (no_space h shown at) = no_space h (sym m ∙ shown) (sym t ∙ at)
  relabelled message e f m t (undated head tail h same parsed shown at) =
      undated head tail h same parsed (sym m ∙ shown) (sym t ∙ at)
  relabelled message e f m t (dated head tail line h same trimmed parsed body) =
      dated head tail line h same trimmed (parsed ∙ ap some t) (subst (IsBody line) m body)

  -- The events are those of the messages, one for one and in order.
  abbrev pub AreRead : List Bytes → List (LogEvent O) → Type 0
  AreRead [] [] = Unit
  AreRead [] (e ∷ es) = ⊥
  AreRead (m ∷ ms) [] = ⊥
  AreRead (m ∷ ms) (e ∷ es) = Holds m e × AreRead ms es

  module _ (guess : LogEvent O → String) (container_id : String) where
    read_event-Holds :
        (message : Bytes) (stream : String)
        → Holds message (read_event d guess container_id message stream)
    unfolding read_event
    read_event-Holds message stream =
        relabelled message (create_event d message stream) _ refl refl
          (create_event-Holds message stream)

-- What was read up to the first error that ends the log, that read included.
abbrev pub until_end : List ReadResult → List ReadResult
until_end [] = []
until_end (r ∷ rs) = let rest = until_end rs in r ∷ (elim r.error [ other_error ↦ [] | _ ↦ rest ])

-- The messages that are not empty.
abbrev pub messages : List ReadResult → List Bytes
messages [] = []
messages (r ∷ rs) =
    let rest = messages rs in elim r.message [ [] ↦ rest | c ∷ cs ↦ (c ∷ cs) ∷ rest ]

module _ {O : Type 0} (d : Decoders O) (guess : LogEvent O → String) (container_id : String) where
  with_message-AreRead :
      (message : Bytes) (stream : String) (ms : List Bytes) (es : List (LogEvent O))
      → AreRead d ms es
      → AreRead d
          (elim message as (λ _. List Bytes) [ [] ↦ ms | c ∷ cs ↦ (c ∷ cs) ∷ ms ])
          (elim message as (λ _. List (LogEvent O)) [
            | [] ↦ es
            | c ∷ cs ↦ read_event d guess container_id (c ∷ cs) stream ∷ es
          ])
  with_message-AreRead [] stream ms es h = h
  with_message-AreRead (c ∷ cs) stream ms es h =
      (read_event-Holds d guess container_id (c ∷ cs) stream, h)

  after_error-AreRead :
      (x : ReadError) (rs : List ReadResult) (es : List (LogEvent O))
      → AreRead d (messages rs) es
      → AreRead d
          (messages (elim x as (λ _. List ReadResult) [ other_error ↦ [] | _ ↦ rs ]))
          (elim x as (λ _. List (LogEvent O)) [ other_error ↦ [] | _ ↦ es ])
  after_error-AreRead no_error rs es h = h
  after_error-AreRead bad_header rs es h = h
  after_error-AreRead other_error rs es h = tt

  pub consume_reader-AreRead :
      (rs : List ReadResult)
      → AreRead d (messages (until_end rs)) (consume_reader d guess container_id rs)
  unfolding consume_reader
  consume_reader-AreRead [] = tt
  consume_reader-AreRead (r ∷ rs) = with_message-AreRead r.message r.stream _ _ (
      after_error-AreRead r.error (until_end rs) (consume_reader d guess container_id rs)
        (consume_reader-AreRead rs))
