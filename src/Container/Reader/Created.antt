-- ===== src/Container/Reader/Created.antt =====
-- The events of `createEvent` and `consumeReader`, and what the event generator makes of them.
use dozzle_gaia_fork.Common.{
  ℕ, suc, ◌<◌, String, Bool, true, Option, none, some, List, [], ◌∷◌, length, ◌≡◌, refl, sym, subst,
  All, Bool-cases, Option-cases, inl, inr,
}
use dozzle_gaia_fork.Common.Int.{ℤ}
use dozzle_gaia_fork.Container.EventGenerator.{Generator, process_buffer}
use dozzle_gaia_fork.Container.EventGenerator.Delivery.{Delivered, process_buffer-Delivered}
use dozzle_gaia_fork.Container.EventGenerator.Lines.{IsCreated, arrivals, upcoming}
use dozzle_gaia_fork.Container.LogEvent.{LogEvent}
use dozzle_gaia_fork.Container.Logfmt.{Bytes, parse_log_fmt}
use dozzle_gaia_fork.Container.Reader.Contents.{
  AreRead, until_end, messages, consume_reader-AreRead,
}
use dozzle_gaia_fork.Container.Reader.{
  Unmarshalled, mismatch, null, decoded, Decoders, ReadError, no_error, bad_header, other_error,
  ReadResult, cut_space, trim_newline, structured_event, decode_json, decode_line, dated_event,
  create_event, read_event, consume_reader,
}

module _ {O : Type 0} (d : Decoders O) where
  structured-IsCreated :
      (e : LogEvent O) (o : O) (raw : String) → IsCreated (structured_event d e o raw)
  structured-IsCreated e o raw h = absurd cc

  json_case :
      (u : Unmarshalled O) (message : Bytes) (e : LogEvent O)
      → d.unmarshal message ≡ u
      → IsCreated e
      → IsCreated (decode_json d message e)
  unfolding decode_json
  json_case mismatch message e is h = rw (is, decode_json) h
  json_case null message e is h = rw (is, decode_json) (λ _. ("", refl))
  json_case (decoded o) message e is h =
      rw (is, decode_json) (structured-IsCreated e o e.raw_message)

  decode_line-IsCreated :
      (message : Bytes) (e : LogEvent O) → IsCreated e → IsCreated (decode_line d message e)
  unfolding decode_line
  decode_line-IsCreated [] e h = λ _. ("", refl)
  decode_line-IsCreated (c ∷ cs) e h = elim (Bool-cases (d.is_valid_json (c ∷ cs))) [
    | inl valid ↦ rw (decode_line, valid) (json_case _ (c ∷ cs) e refl h)
    | inr other ↦ elim (Option-cases (parse_log_fmt (c ∷ cs))) [
      | inl bad ↦ rw (decode_line, other, bad) h
      | inr (pairs, is) ↦
          rw (decode_line, other, is)
            (structured-IsCreated e (d.ordered pairs) (d.show (d.marshal pairs)))
    ]
  ]

  create_event-IsCreated :
      (message : Bytes) (stream : String) → IsCreated (create_event d message stream)
  unfolding create_event dated_event
  create_event-IsCreated message stream = elim (Option-cases (cut_space message)) [
    | inl none_left ↦ rw (none_left, create_event) (λ _. (d.show message, refl))
    | inr ((head, tail), is) ↦ elim (Option-cases (d.parse_time head)) [
      | inl undated ↦ rw (is, create_event, undated) (λ _. (d.show message, refl))
      | inr (time, dated) ↦
          rw (is, create_event, dated)
            (decode_line-IsCreated (trim_newline tail) _ (λ _. (d.show (trim_newline tail), refl)))
    ]
  ]

  module _ (guess : LogEvent O → String) (container_id : String) where
    read_event-IsCreated :
        (message : Bytes) (stream : String)
        → IsCreated (read_event d guess container_id message stream)
    unfolding read_event
    read_event-IsCreated message stream = create_event-IsCreated message stream

    with_message :
        (message : Bytes) (stream : String) (rest : List (LogEvent O))
        → All IsCreated rest
        → All IsCreated (elim message [
          | [] ↦ rest
          | c ∷ cs ↦ read_event d guess container_id (c ∷ cs) stream ∷ rest
        ])
    with_message [] stream rest h = h
    with_message (c ∷ cs) stream rest h = (read_event-IsCreated (c ∷ cs) stream, h)

    after_error :
        (x : ReadError) (rest : List (LogEvent O))
        → All IsCreated rest
        → All IsCreated (elim x as (λ _. List (LogEvent O)) [ other_error ↦ [] | _ ↦ rest ])
    after_error no_error rest h = h
    after_error bad_header rest h = h
    after_error other_error rest h = tt

    consume_reader-IsCreated :
        (rs : List ReadResult) → All IsCreated (consume_reader d guess container_id rs)
    unfolding consume_reader
    consume_reader-IsCreated [] = tt
    consume_reader-IsCreated (r ∷ rs) =
        with_message r.message r.stream _ (
          after_error r.error (consume_reader d guess container_id rs)
            (consume_reader-IsCreated rs))

    -- Where every send succeeds, nothing was sent yet and the channel delivers what `consumeReader`
    -- puts into it, with any silences between: there is one event for each message that is not empty,
    -- up to the first error that ends the log, in order, with the message's text or with its date and
    -- what becomes of the rest; and with two more units of fuel than there are events, `processBuffer`
    -- ends, and it sent every one of them once and in order, but for less than a thousand without a
    -- level at the very beginning.
    pub process_buffer-consume_reader :
        (accept : ℕ → Bool) (lossless : (n : ℕ) → accept n ≡ true) (fuel : ℕ)
        (started_at : Option ℤ) (rs : List ReadResult) (g : Generator O)
        → g.next ≡ none
        → g.events ≡ []
        → arrivals g.buffer ≡ consume_reader d guess container_id rs
        → suc (length (consume_reader d guess container_id rs)) < fuel
        → AreRead d (messages (until_end rs)) (arrivals g.buffer)
          × ((g' : Generator O) × (process_buffer accept fuel started_at g ≡ some g')
              × Delivered g g')
    process_buffer-consume_reader accept lossless fuel started_at rs g empty quiet from room =
        let same : upcoming g ≡ consume_reader d guess container_id rs = rw empty from in
        (
          subst (AreRead d (messages (until_end rs))) (sym from)
              (consume_reader-AreRead d guess container_id rs),
          process_buffer-Delivered accept lossless fuel started_at g quiet
              (subst (All IsCreated) (sym same) (consume_reader-IsCreated rs))
              (subst (λ l. suc (length l) < fuel) (sym same) room),
        )
