-- ===== src/Container/EventGenerator/Lines.antt =====
-- What the goroutine of event_generator.go has to deliver: the lines of its events, in order.
use dozzle_gaia_fork.Common.{
  ℕ, ◌+◌, Option-cases, inl, inr, String, Bool, true, Option, none, some, List, [], ◌∷◌, ◌++◌, map,
  ◌≡◌, refl, sym, ap, ◌∙◌, append_assoc, append-nil, All,
}
use dozzle_gaia_fork.Container.EventGenerator.{
  Arrival, event, timeout, Generator, receive, next_event, peek, texts, emit, flush_group,
  emit_as_singles, as_single, group_event,
}
use dozzle_gaia_fork.Container.LogEvent.{LogEvent, Message, text, fragments, object, is_simple}

-- One line of the log, or one structured message.
pub data Item (O : Type 0) : Type 0 where
  line : String → Item O
  structured : O → Item O

module _ {O : Type 0} where
  abbrev pub items : Message O → List (Item O)
  items (text s) = line s ∷ []
  items (fragments ss) = map line ss
  items (object o) = structured o ∷ []

  abbrev pub items_of : List (LogEvent O) → List (Item O)
  items_of [] = []
  items_of (e ∷ es) = items e.message ++ items_of es

  abbrev pub slot : Option (LogEvent O) → List (LogEvent O)
  slot none = []
  slot (some e) = e ∷ []

  abbrev pub arrivals : List (Arrival O) → List (LogEvent O)
  arrivals [] = []
  arrivals (timeout ∷ b) = arrivals b
  arrivals (event e ∷ b) = e ∷ arrivals b

  -- The events that are still to be read.
  abbrev pub upcoming : Generator O → List (LogEvent O)
  upcoming g = slot g.next ++ arrivals g.buffer

  -- A line: its message is a text.
  abbrev pub IsText : LogEvent O → Type 0
  IsText e = (s : String) × (e.message ≡ text s)

  -- What `createEvent` builds: a simple event has a text for its message.
  abbrev pub IsCreated : LogEvent O → Type 0
  IsCreated e = is_simple e ≡ true → IsText e

  pub items_of-append :
      (xs ys : List (LogEvent O)) → items_of (xs ++ ys) ≡ items_of xs ++ items_of ys
  items_of-append [] ys = refl
  items_of-append (x ∷ xs) ys =
      ap (λ l. items x.message ++ l) (items_of-append xs ys)
      ∙ sym (append_assoc (items x.message) (items_of xs) (items_of ys))

  arrivals-receive :
      (b : List (Arrival O)) → arrivals b ≡ slot (receive b).0 ++ arrivals (receive b).1
  unfolding receive
  arrivals-receive [] = refl
  arrivals-receive (timeout ∷ b) = arrivals-receive b
  arrivals-receive (event e ∷ b) = refl

  receive_end : (b : List (Arrival O)) → (receive b).0 ≡ none → arrivals (receive b).1 ≡ []
  unfolding receive
  receive_end [] h = refl
  receive_end (timeout ∷ b) h = receive_end b h
  receive_end (event e ∷ b) h = cc

  -- What `nextEvent` does: it takes the first of the events to be read, and sends nothing.
  pub record Taken (g : Generator O) (o : Option (LogEvent O)) (g' : Generator O) : Type 0 where
    pub order : upcoming g ≡ slot o ++ upcoming g'
    pub ended : o ≡ none → upcoming g' ≡ []
    pub emptied : g'.next ≡ none
    pub same_events : g'.events ≡ g.events

  pub next_event-Taken : (g : Generator O) → Taken g (next_event g).0 (next_event g).1
  unfolding next_event
  next_event-Taken g = elim (Option-cases g.next) [
    | inl e ↦ record {
      order = rw e (arrivals-receive g.buffer);
      ended = rw e (receive_end g.buffer);
      emptied = rw e refl;
      same_events = rw e refl;
    }
    | inr (a, e) ↦ record {
      order = rw e refl;
      ended = λ h. cc;
      emptied = rw e refl;
      same_events = rw e refl;
    }
  ]

  -- What `peek` does: it may fill the slot, and loses and sends nothing.
  pub record Peeked (g : Generator O) (o : Option (LogEvent O)) (g' : Generator O) : Type 0 where
    pub order : upcoming g ≡ upcoming g'
    pub in_slot : g'.next ≡ o
    pub same_events : g'.events ≡ g.events

  peek_buffer_lem :
      (b : List (Arrival O)) (g : Generator O)
      → g.next ≡ none
      → g.buffer ≡ b
      → Peeked g (peek g).0 (peek g).1
  unfolding peek
  peek_buffer_lem [] g e f = rw (e, f) (record { order = refl; in_slot = refl; same_events = refl })
  peek_buffer_lem (timeout ∷ b) g e f =
      rw (e, f) (record { order = refl; in_slot = refl; same_events = refl })
  peek_buffer_lem (event a ∷ b) g e f =
      rw (e, f) (record { order = refl; in_slot = refl; same_events = refl })

  pub peek-Peeked : (g : Generator O) → Peeked g (peek g).0 (peek g).1
  unfolding peek
  peek-Peeked g = elim (Option-cases g.next) [
    | inl e ↦ peek_buffer_lem g.buffer g e refl
    | inr (a, e) ↦ record { order = rw e refl; in_slot = rw e refl; same_events = rw e refl }
  ]

  pub texts_lem :
      (es : List (LogEvent O))
      → All IsText es
      → (ls : List String) × (texts es ≡ some ls) × (map line ls ≡ items_of es)
  unfolding texts
  texts_lem [] h = ([], refl, refl)
  texts_lem (e ∷ es) ((s, is), rest) =
      let (ls, found, same) = texts_lem es rest in
      (s ∷ ls, rw (is, found), rw is (ap (◌∷◌ (line s)) same))

-- Where every send succeeds, the senders deliver exactly what they are given.
module _ {O : Type 0} (accept : ℕ → Bool) (lossless : (n : ℕ) → accept n ≡ true) where
  -- A call that sent `given` and left the rest of the state alone.
  pub record Sent (g : Generator O) (given : List (Item O)) (g' : Generator O) : Type 0 where
    pub delivered : items_of g'.events ≡ items_of g.events ++ given
    pub same_next : g'.next ≡ g.next
    pub same_buffer : g'.buffer ≡ g.buffer

  pub emit-Sent :
      (g : Generator O) (e : LogEvent O)
      → (g' : Generator O) × (emit accept g e ≡ (g', true)) × Sent g (items e.message) g'
  unfolding emit
  emit-Sent g e = (
    record g { events = g.events ++ (e ∷ []); sends = g.sends + 1 },
    rw (lossless g.sends),
    record {
      delivered =
          items_of-append g.events (e ∷ [])
          ∙ ap (λ l. items_of g.events ++ l) (append-nil (items e.message));
      same_next = refl;
      same_buffer = refl;
    },
  )

  pub flush_group-Sent :
      (g : Generator O) (p : List (LogEvent O))
      → All IsText p
      → (g' : Generator O) × (flush_group accept g p ≡ (g', true)) × Sent g (items_of p) g'
  unfolding flush_group
  flush_group-Sent g [] h = (
    g,
    refl,
    record {
      delivered = sym (append-nil (items_of g.events));
      same_next = refl;
      same_buffer = refl;
    },
  )
  flush_group-Sent g (e ∷ []) h =
      let (g', done, sent) = emit-Sent g (as_single e) in
      (g', done, rw (append-nil (items e.message)) sent)
  flush_group-Sent g (first ∷ e ∷ es) h =
      let (ls, found, same) = texts_lem (first ∷ e ∷ es) h in
      let (g', done, sent) = emit-Sent g (group_event first ls) in
      (g', rw (found, flush_group) done, rw (← same) sent)

  pub emit_as_singles-Sent :
      (g : Generator O) (es : List (LogEvent O))
      → (g' : Generator O) × (emit_as_singles accept g es ≡ (g', true)) × Sent g (items_of es) g'
  unfolding emit_as_singles
  emit_as_singles-Sent g [] = (
    g,
    refl,
    record {
      delivered = sym (append-nil (items_of g.events));
      same_next = refl;
      same_buffer = refl;
    },
  )
  emit_as_singles-Sent g (e ∷ es) =
      let (g1, one, s1) = emit-Sent g (as_single e) in
      let (g2, all, s2) = emit_as_singles-Sent g1 es in
      (
        g2,
        rw one all,
        record {
          delivered =
              s2.delivered
              ∙ ap (λ l. l ++ items_of es) s1.delivered
              ∙ append_assoc (items_of g.events) (items e.message) (items_of es);
          same_next = s2.same_next ∙ s1.same_next;
          same_buffer = s2.same_buffer ∙ s1.same_buffer;
        },
      )
