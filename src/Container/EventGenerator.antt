-- ===== src/Container/EventGenerator.antt =====
-- internal/container/event_generator.go: the goroutine `processBuffer`, which groups the lines
-- that `consumeReader` put into a channel. The channel is the list of what it will deliver, an
-- event or 50 ms in which none comes; at its end it is closed. `accept n` says whether the n-th
-- send to `Events` succeeds or the context is done first. Pointers to events are the events: each
-- stands in one place at a time, the slot `next`, the pending group or the orphan buffer.
pub mod Lines
pub mod Conservation
pub mod Orphans
pub mod Delivery
use dozzle_gaia_fork.Common.{
  ℕ, zero, suc, ◌+◌, ◌≤◌, String, Bool, true, false, not, ◌&&◌, ◌||◌, Option, none, some, List, [],
  ◌∷◌, ◌++◌, length, ltb, leb, ◌==◌, if◌then◌else◌,
}
use dozzle_gaia_fork.Common.Int.{ℤ, pos, is_pos, is_zero, dist_ℤ}
use dozzle_gaia_fork.Common.Text.{str_eq}
use dozzle_gaia_fork.Container.LogEvent.{
  LogType, single, group, LogEvent, Message, text, fragments, object, has_level, is_simple,
  is_close_to_time, max_group_time_delta,
}

pub data Arrival (O : Type 0) : Type 0 where
  event : LogEvent O → Arrival O
  timeout : Arrival O

-- `events` is what was sent, oldest first; `sends` counts the attempts.
pub record Generator (O : Type 0) : Type 0 where
  pub next : Option (LogEvent O)
  pub buffer : List (Arrival O)
  pub events : List (LogEvent O)
  pub sends : ℕ
  pub panicked : Bool

-- What one round of the main loop does: leave it, or go on with a pending group.
pub data Round (O : Type 0) : Type 0 where
  stop : Generator O → Round O
  more : List (LogEvent O) → Generator O → Round O

-- What one round of `skipOrphanedLines` does: return an event, or look at the next one.
pub data Skip (O : Type 0) : Type 0 where
  found : Option (LogEvent O) → Generator O → Skip O
  again : List (LogEvent O) → ℤ → LogEvent O → Generator O → Skip O

abbrev pub max_orphan_lines : ℕ
max_orphan_lines = 1000

module _ {O : Type 0} where
  unfoldable pub can_continue_group : LogEvent O → LogEvent O → String → Bool
  can_continue_group prev next level =
      (not (has_level next) || str_eq next.level level) && is_close_to_time prev next

  unfoldable pub can_start_group : LogEvent O → LogEvent O → Bool
  unfolding can_continue_group
  can_start_group current next = has_level current && can_continue_group current next current.level

  -- The receive from the channel, which waits through any silence.
  unfoldable pub receive : List (Arrival O) → Option (LogEvent O) × List (Arrival O)
  receive [] = (none, [])
  receive (timeout ∷ b) = receive b
  receive (event e ∷ b) = (some e, b)

  unfoldable pub next_event : Generator O → Option (LogEvent O) × Generator O
  next_event g = elim g.next [
    | some e ↦ (some e, record g { next = none })
    | none ↦ let (e, b) = receive g.buffer in (e, record g { buffer = b })
  ]

  -- A closed channel delivers nil at once.
  unfoldable pub peek_buffer : List (Arrival O) → Generator O → Option (LogEvent O) × Generator O
  peek_buffer [] g = (none, g)
  peek_buffer (timeout ∷ b) g = (none, record g { buffer = b })
  peek_buffer (event e ∷ b) g = (some e, record g { next = some e; buffer = b })

  unfoldable pub peek : Generator O → Option (LogEvent O) × Generator O
  unfolding peek_buffer
  peek g = elim g.next [ some e ↦ (some e, g) | none ↦ peek_buffer g.buffer g ]

  abbrev pub cons_text : Message O → Option (List String) → Option (List String)
  cons_text (text s) (some rest) = some (s ∷ rest)
  cons_text _ _ = none

  -- The loop over `e.Message.(string)`, which panics at another type.
  unfoldable pub texts : List (LogEvent O) → Option (List String)
  texts [] = some []
  texts (e ∷ es) = cons_text e.message (texts es)

  -- The event that a group of two or more is sent as.
  abbrev pub group_event : LogEvent O → List String → LogEvent O
  group_event first lines = record {
    kind = group;
    message = fragments lines;
    raw_message = "";
    timestamp = first.timestamp;
    id = first.id;
    level = first.level;
    stream = first.stream;
    container_id = first.container_id;
  }

  abbrev pub as_single : LogEvent O → LogEvent O
  as_single e = record e { kind = single }

  -- `next.Level = …` on the event in the slot.
  abbrev pub set_next : LogEvent O → String → Generator O → Generator O
  set_next n level g = record g { next = some (record n { level = level }) }

  abbrev pub starts : LogEvent O → Option (LogEvent O) → Bool
  starts current none = false
  starts current (some n) = is_simple n && can_start_group current n

  abbrev pub continues : LogEvent O → Option (LogEvent O) → String → Bool
  continues prev none level = false
  continues prev (some n) level = is_simple n && can_continue_group prev n level

  abbrev pub join_next : Option (LogEvent O) → String → Generator O → Generator O
  join_next none level g = g
  join_next (some n) level g = set_next n level g

  abbrev pub is_orphan : ℤ → LogEvent O → Bool
  is_orphan last e =
      is_simple e
      && (not (has_level e)
          && (is_pos e.timestamp
              && (is_zero last || ltb (dist_ℤ last e.timestamp) max_group_time_delta)))

  abbrev pub is_time_gap : ℤ → LogEvent O → Bool
  is_time_gap last e =
      not (is_zero last)
      && (is_pos e.timestamp && leb max_group_time_delta (dist_ℤ last e.timestamp))

  -- `started_at` is `none` for the zero time, else its milliseconds.
  abbrev pub near_start : Option ℤ → LogEvent O → Bool
  near_start none e = false
  near_start (some started) e = is_pos e.timestamp && ltb (dist_ℤ started e.timestamp) 5000

  abbrev pub return_next : Generator O → Skip O
  return_next g = let (e, g') = next_event g in found e g'

  -- Go on with `pending` if the send succeeded.
  abbrev pub proceed : List (LogEvent O) → Generator O × Bool → Round O
  proceed pending (g, sent) = if sent then more pending g else stop g

module _ {O : Type 0} (accept : ℕ → Bool) where
  unfoldable pub emit : Generator O → LogEvent O → Generator O × Bool
  emit g e =
      if accept g.sends
      then (record g { events = g.events ++ (e ∷ []); sends = g.sends + 1 }, true)
      else (record g { sends = g.sends + 1 }, false)

  unfoldable pub flush_group : Generator O → List (LogEvent O) → Generator O × Bool
  flush_group g [] = (g, true)
  flush_group g (e ∷ []) = emit g (as_single e)
  flush_group g (first ∷ e ∷ es) = elim (texts (first ∷ e ∷ es)) [
    | none ↦ (record g { panicked = true }, false)
    | some lines ↦ emit g (group_event first lines)
  ]

  unfoldable pub emit_as_singles : Generator O → List (LogEvent O) → Generator O × Bool
  emit_as_singles g [] = (g, true)
  emit_as_singles g (e ∷ es) =
      let (g', sent) = emit g (as_single e) in
      let rest = emit_as_singles g' es in if sent then rest else (g', false)

  -- A structured line ends the pending group and is sent at once.
  unfoldable pub complex_round : List (LogEvent O) → LogEvent O → Generator O → Round O
  complex_round pending current g =
      let (g', sent) = flush_group g pending in
      if sent then proceed [] (emit g' current) else stop g'

  unfoldable pub simple_round :
      List (LogEvent O) → LogEvent O → Option (LogEvent O) → Generator O → Round O
  simple_round [] current next g =
      if starts current next
      then more (current ∷ []) (join_next next current.level g)
      else proceed [] (emit g (as_single current))
  simple_round (first ∷ pending) current next g =
      let joined = first ∷ (pending ++ (current ∷ [])) in
      if continues current next first.level
      then more joined (join_next next first.level g)
      else proceed [] (flush_group g joined)

  -- A round of the main loop, with the event that `nextEvent` returned.
  unfoldable pub round_on : List (LogEvent O) → Option (LogEvent O) → Generator O → Round O
  round_on pending none g = stop (flush_group g pending).0
  round_on pending (some current) g =
      if not (is_simple current)
      then complex_round pending current g
      else (let (next, g') = peek g in simple_round pending current next g')

  unfoldable pub round : List (LogEvent O) → Generator O → Round O
  unfolding round_on
  round pending g = let (current, g') = next_event g in round_on pending current g'

  -- The main loop, on fuel; `none` means that the fuel ran out.
  unfoldable pub main_loop : ℕ → List (LogEvent O) → Generator O → Option (Generator O)
  main_loop zero pending g = none
  main_loop (suc fuel) pending g = elim (round pending g) [
    | stop g' ↦ some g'
    | more pending' g' ↦ main_loop fuel pending' g'
  ]

  -- The receive that follows a successful look ahead.
  unfoldable pub skip_take : List (LogEvent O) → ℤ → Option (LogEvent O) → Generator O → Skip O
  skip_take orphans last none g = found none (emit_as_singles g orphans).0
  skip_take orphans last (some e) g = again orphans last e g

  -- Silence ends the run of orphans; an event is looked at in the next round.
  unfoldable pub skip_ahead : List (LogEvent O) → ℤ → Option (LogEvent O) → Generator O → Skip O
  unfolding skip_take
  skip_ahead orphans last none g = return_next (emit_as_singles g orphans).0
  skip_ahead orphans last (some _) g =
      let (current, g') = next_event g in skip_take orphans last current g'

  -- After a line was buffered: give up at the limit, or look ahead.
  unfoldable pub skip_on : List (LogEvent O) → ℤ → Generator O → Skip O
  unfolding skip_ahead
  skip_on orphans last g =
      if leb max_orphan_lines (length orphans)
      then return_next (emit_as_singles g orphans).0
      else (let (ahead, g') = peek g in skip_ahead orphans last ahead g')

  unfoldable pub skip_round : List (LogEvent O) → ℤ → LogEvent O → Generator O → Skip O
  unfolding skip_on
  skip_round orphans last current g =
      if not (is_orphan last current)
      then (if ltb 0 (length orphans) && is_time_gap last current
          then found (some current) (emit_as_singles g orphans).0
          else found (some current) g)
      else skip_on (orphans ++ (current ∷ [])) current.timestamp g

  unfoldable pub skip_loop :
      ℕ
      → List (LogEvent O)
      → ℤ
      → LogEvent O
      → Generator O
      → Option (Option (LogEvent O) × Generator O)
  skip_loop zero orphans last current g = none
  skip_loop (suc fuel) orphans last current g = elim (skip_round orphans last current g) [
    | found e g' ↦ some (e, g')
    | again orphans' last' e g' ↦ skip_loop fuel orphans' last' e g'
  ]

  -- `skipOrphanedLines`, with its first event.
  unfoldable pub skip_from :
      ℕ → Option ℤ → Option (LogEvent O) → Generator O → Option (Option (LogEvent O) × Generator O)
  skip_from fuel started_at none g = some (none, g)
  skip_from fuel started_at (some e) g =
      if near_start started_at e then some (some e, g) else skip_loop fuel [] (pos 0) e g

  unfoldable pub skip_orphaned_lines :
      ℕ → Option ℤ → Generator O → Option (Option (LogEvent O) × Generator O)
  unfolding skip_from
  skip_orphaned_lines fuel started_at g =
      let (first, g') = next_event g in skip_from fuel started_at first g'

  -- The rest of `processBuffer`: the first real event goes back into the slot.
  unfoldable pub process_from : ℕ → Option (LogEvent O) × Generator O → Option (Generator O)
  process_from fuel (none, g) = some g
  process_from fuel (some first, g) = main_loop fuel [] (record g { next = some first })

  unfoldable pub process_buffer : ℕ → Option ℤ → Generator O → Option (Generator O)
  unfolding process_from
  process_buffer fuel started_at g = elim (skip_orphaned_lines fuel started_at g) [
    | none ↦ none
    | some r ↦ process_from fuel r
  ]
