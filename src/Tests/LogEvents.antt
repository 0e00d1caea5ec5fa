-- ===== src/Tests/LogEvents.antt =====
-- The event generator on a short log: two lines of a group that an earlier fetch sent, an error
-- with its stack trace, and a structured line.
use dozzle_gaia_fork.Common.{
  ℕ, String, Bool, true, false, Option, none, some, List, [], ◌∷◌, ◌≡◌, refl, arith, All,
}
use dozzle_gaia_fork.Common.Int.{pos}
use dozzle_gaia_fork.Container.EventGenerator.{
  Arrival, event, timeout, Generator, main_loop, process_buffer, receive, next_event, peek, emit,
  flush_group, emit_as_singles, can_continue_group, can_start_group, texts, complex_round,
  simple_round, round_on, round, skip_take, skip_ahead, skip_on, skip_round, skip_loop, skip_from,
  skip_orphaned_lines, process_from,
}
use dozzle_gaia_fork.Container.EventGenerator.Conservation.{main_loop-total, total}
use dozzle_gaia_fork.Container.EventGenerator.Delivery.{
  Delivered, process_buffer-Delivered, process_buffer-near_start,
}
use dozzle_gaia_fork.Container.EventGenerator.Lines.{
  Item, line, structured, items_of, upcoming, IsCreated,
}
use dozzle_gaia_fork.Container.LogEvent.{single, complex, LogEvent, text, object}

abbrev log_line : String → String → ℕ → LogEvent String
log_line s level time = record {
  kind = single;
  message = text s;
  raw_message = s;
  timestamp = pos time;
  id = 0;
  level = level;
  stream = "stdout";
  container_id = "c1";
}

abbrev json_line : String → ℕ → LogEvent String
json_line s time = record (log_line s "info" time) { kind = complex; message = object s }

abbrev a_log : List (Arrival String)
a_log =
    event (log_line "at main" "unknown" 1000)
    ∷ event (log_line "at exit" "unknown" 1001)
    ∷ event (log_line "boom" "error" 1002)
    ∷ event (log_line "at f" "unknown" 1003)
    ∷ timeout
    ∷ event (json_line "{}" 2000)
    ∷ []

abbrev fresh : List (Arrival String) → Generator String
fresh b = record { next = none; buffer = b; events = []; sends = 0; panicked = false }

abbrev always : ℕ → Bool
always n = true

a_log-IsCreated : All IsCreated (upcoming (fresh a_log))
a_log-IsCreated =
    (λ _. (_, refl), (λ _. (_, refl), (λ _. (_, refl), (λ _. (_, refl), (λ h. cc, tt)))))

process_buffer-Delivered_example :
    (g : Generator String) × (process_buffer always 9 (some (pos 90000)) (fresh a_log) ≡ some g)
    × Delivered (fresh a_log) g
process_buffer-Delivered_example =
    process_buffer-Delivered always (λ n. refl) 9 (some (pos 90000)) (fresh a_log) refl
      a_log-IsCreated (omega arith)

process_buffer-near_start_example :
    (g : Generator String) × (process_buffer always 9 (some (pos 100)) (fresh a_log) ≡ some g)
    × (items_of g.events ≡ items_of (upcoming (fresh a_log)))
unfolding next_event receive
process_buffer-near_start_example =
    process_buffer-near_start always (λ n. refl) 9 (some (pos 100)) (fresh a_log)
      (log_line "at main" "unknown" 1000) refl a_log-IsCreated (omega arith) refl refl

main_loop-total_example :
    (g : Generator String) × (main_loop always 9 [] (fresh a_log) ≡ some g)
    × (items_of g.events ≡ total [] (fresh a_log))
main_loop-total_example =
    main_loop-total always (λ n. refl) 9 [] (fresh a_log) (omega arith) tt a_log-IsCreated

abbrev sent_lines : Option (Generator String) → List (Item String)
sent_lines none = []
sent_lines (some g) = items_of g.events

orphans_dropped :
    sent_lines (process_buffer always 9 none (fresh a_log))
    ≡ line "boom" ∷ line "at f" ∷ structured "{}" ∷ []
unfolding receive next_event peek emit flush_group emit_as_singles can_continue_group
    can_start_group texts complex_round simple_round round_on round skip_take skip_ahead skip_on
    skip_round skip_loop skip_from skip_orphaned_lines process_from main_loop process_buffer
orphans_dropped = refl
