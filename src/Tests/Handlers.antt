-- ===== src/Tests/Handlers.antt =====
-- The alert engine's handlers and the quiet hours on small inputs.
use Prim.Native.String.{◌++◌ as append}
use Prim.Native.String.{count}
use text.Mathlib.TextLemmas.{length-append, append-nil}
use dozzle_gaia_fork.Common.Text.{concat}
use dozzle_gaia_fork.Notification.Platform.{Platform}
use dozzle_gaia_fork.Common.{
  ◌∙◌, ap, ℕ, ◌*◌, ◌+◌, ◌%◌, ◌≡◌, ◌≢◌, ◌≤◌, ◌<◌, ◌==◌, ◌⊎◌, refl, arith, String, Bool, true, false,
  none, some, List, [], ◌∷◌, length,
}
use dozzle_gaia_fork.Common.Int.{pos, negsuc, ◌+ℤ◌, ◌-ℤ◌, int64}
use dozzle_gaia_fork.Common.MapOps.{assoc_map}
use dozzle_gaia_fork.Common.Outcome.{ok}
use dozzle_gaia_fork.Notification.Cooldowns.{still_cooling}
use dozzle_gaia_fork.Notification.Drain.{get_dispatcher}
use dozzle_gaia_fork.Notification.Rule.{
  is_paused, is_log_alert, matches_container, matches_watchdog, matches_log,
}
use dozzle_gaia_fork.Notification.Engine.{Send, QuietSummaryGroup, World}
use dozzle_gaia_fork.Notification.Platform.{resolve_location}
use dozzle_gaia_fork.Notification.Processing.Apart.{Line, on_lines, on_log-on_lines}
use dozzle_gaia_fork.Notification.Processing.Keeps.{no_queue}
use dozzle_gaia_fork.Notification.Processing.Logs.{on_log}
use dozzle_gaia_fork.Notification.Processing.Watched.{IsWatching, on_log_cleared, on_log_triggered}
use dozzle_gaia_fork.Notification.QuietHours.{in_daily_window, daily_end, a_day}
use dozzle_gaia_fork.Notification.QuietHours.Ends.{
  PlainClock, IsClockTime, in_daily_window-daily_end,
}
use dozzle_gaia_fork.Notification.QuietSummary.Counts.{
  QuietHit, count_all, counted, occurrences, groups_for, count_all-counted,
}
use dozzle_gaia_fork.Notification.QuietSummary.Render.{Shown, show_groups, sort_groups}
use dozzle_gaia_fork.Notification.QuietSummary.Shows.{IsShown, total, show_groups-sort_groups}
use dozzle_gaia_fork.Notification.Retry.{
  delivered, failed_all, send_with_retry, send_with_retry-delivered,
}
use dozzle_gaia_fork.Notification.Schedule.{is_subscription_processable, is_delivery_day}
use dozzle_gaia_fork.Notification.Subscription.{Subscription, Timer, Armed}
use dozzle_gaia_fork.Notification.Time.{Time, second, seconds, clamp_cooldown_seconds}
use dozzle_gaia_fork.Notification.Types.{NotificationLog, Message}
use dozzle_gaia_fork.Tests.Engines.{clock, platform, engine}
use dozzle_gaia_fork.Tests.Queues.{at, notice}
use dozzle_gaia_fork.Tests.Samples.{values, expr, rule, subscription}

clock_bound : (t : Time) → clock t < a_day
clock_bound (pos n) = ground arith
clock_bound (negsuc n) = ground arith

clock_moves : (t : Time) (k : ℕ) → clock (t +ℤ pos k) ≡ (clock t + k) % a_day
unfolding ◌+ℤ◌
clock_moves (pos n) k = ground arith
clock_moves (negsuc n) k = ground arith

abbrev plain_days : PlainClock platform (resolve_location platform "")
plain_days = record { clock = clock; clock_lt = clock_bound; clock_later = clock_moves }

ten_at_night :
    IsClockTime platform (resolve_location platform "") plain_days "22:00" (22 * (3600 * second))
ten_at_night = (omega arith, λ t. refl)

seven : IsClockTime platform (resolve_location platform "") plain_days "07:00" (7 * (3600 * second))
seven = (omega arith, λ t. refl)

in_daily_window-daily_end_example :
    (j : ℕ) × ((daily_end platform "07:00" "" (pos 82800_000_000_000)).time
      ≡ pos 82800_000_000_000 +ℤ pos j)
    × ((k : ℕ)
        → k < j
        → in_daily_window platform "22:00" "07:00" "" (pos 82800_000_000_000 +ℤ pos k) ≡ true)
    × (in_daily_window platform "22:00" "07:00" "" (pos 82800_000_000_000 +ℤ pos j) ≡ false)
unfolding in_daily_window ◌+ℤ◌ ◌-ℤ◌
in_daily_window-daily_end_example =
    in_daily_window-daily_end platform "22:00" "07:00" "" plain_days (22 * (3600 * second))
      (7 * (3600 * second)) ten_at_night seven (λ e. absurd (omega arith)) (pos 82800_000_000_000)
      refl

send_with_retry-delivered_example :
    ((k : ℕ)
      → 1 ≤ k
      → k ≤ 3
      → (k == 2) ≡ true
      → ((j : ℕ) → 1 ≤ j → j < k → (j == 2) ≡ false)
      → ((send_with_retry (λ n. true) true (λ n. n == 2) (λ n. false)).0 ≡ delivered k)
        × ((send_with_retry (λ n. true) true (λ n. n == 2) (λ n. false)).1 ≤ 150 * second))
    × (((j : ℕ) → 1 ≤ j → j ≤ 3 → (j == 2) ≡ false)
        → (send_with_retry (λ n. true) true (λ n. n == 2) (λ n. false)).0 ≡ failed_all)
send_with_retry-delivered_example =
    send_with_retry-delivered (λ n. true) true (λ n. n == 2) (λ n. false) (λ n. refl) refl
      (λ n. refl)

abbrev hits : List QuietHit
hits =
    record { fingerprint = "a"; example = "a1"; time = at 1 }
    ∷ record { fingerprint = "b"; example = "b1"; time = at 2 }
    ∷ record { fingerprint = "a"; example = "a2"; time = at 3 }
    ∷ []

count_all-counted_example :
    (counted "a" (count_all hits []) ≡ occurrences "a" hits)
    × (groups_for "a" (count_all hits []) ≤ 1)
count_all-counted_example = count_all-counted hits "a"

abbrev group_of : String → ℕ → QuietSummaryGroup
group_of fp n = record {
  fingerprint = fp;
  count = n;
  first_seen = at 1;
  last_seen = at 2;
  first_example = fp;
  last_example = fp;
}

-- Texts with one byte for each character.
abbrev sized : Platform values
sized = record platform { byte_length = count }

count-concat : (a b : String) → count (concat (a ∷ b ∷ [])) ≡ count a + count b
count-concat a b = length-append a (append b "") ∙ ap (λ n. count a + n) (ap count (append-nil b))

show_groups-sort_groups_example :
    let gs = group_of "a" 2 ∷ group_of "b" 5 ∷ [] in
    let start : Shown = record { body = "heading"; groups = 0; hits = 0 } in
    IsShown sized tt 1 (sort_groups gs) start (show_groups sized tt 1 (sort_groups gs) start)
    × (length (sort_groups gs) ≡ 2)
    × (total (sort_groups gs) ≡ 7)
unfolding total
show_groups-sort_groups_example =
    show_groups-sort_groups sized count-concat tt 1 (group_of "a" 2 ∷ group_of "b" 5 ∷ []) "heading"
      (omega arith)

abbrev entry : String → NotificationLog values
entry s = record {
  id = 1;
  message = Message.text s;
  timestamp = pos 0;
  level = "error";
  stream = "stderr";
  kind = "single";
}

abbrev line : ℕ → Line values
line n = record { container = (notice "x").container; log = entry "disk full"; time = at n }

on_log-on_lines_example :
    (s1 : Subscription expr assoc_map) × (ss1 : List (Send values)) × (on_log engine subscription
        (no_queue engine [])
        "c1"
        (notice "x").container
        (entry "disk full")
        (at 100)
      ≡ ok (s1, no_queue engine ss1))
    × (((s1.trigger_count ≡ subscription.trigger_count) × (ss1 ≡ []))
        ⊎ ((s2 : Subscription expr assoc_map) × (on_lines engine "c1"
                (line 130 ∷ line 159 ∷ [])
                s1
                (no_queue engine ss1)
              ≡ ok (s2, no_queue engine ss1))
            × (s2.trigger_count ≡ s1.trigger_count)))
unfolding still_cooling seconds int64 clamp_cooldown_seconds ◌+ℤ◌
on_log-on_lines_example =
    on_log-on_lines engine "c1" subscription [] [] (line 100) (line 130 ∷ line 159 ∷ []) ([], refl)
      refl refl refl (refl, (refl, tt))

-- A watchdog rule whose patterns match, or do not match, every line.
abbrev watcher : Bool → Bool → Subscription expr assoc_map
watcher triggers clears = record subscription {
  rule = record rule {
    watchdog_window = pos 30;
    log_program = some triggers;
    watchdog_program = some clears;
  };
  watchdog_timers = some (
      (
        "c1",
        record { deadline = at 40; action = record { dispatcher = 2; notification = notice "y" } },
      )
      ∷ []);
}

abbrev running : List (String × Timer (Armed values))
running =
    (
      "c1",
      record { deadline = at 40; action = record { dispatcher = 2; notification = notice "y" } },
    )
    ∷ []

watching :
    (triggers clears : Bool)
    → IsWatching engine (watcher triggers clears) (notice "x").container (at 20)
unfolding is_subscription_processable is_paused is_delivery_day is_log_alert matches_container
watching triggers clears = record {
  processable = refl;
  log_alert = refl;
  matching = refl;
  window = refl;
}

on_log_cleared_example :
    (s' : Subscription expr assoc_map) × (w' : World values) × (m' : List
      (String × Timer (Armed values)))
    × (on_log engine
          (watcher false true)
          (no_queue engine [])
          "c1"
          (notice "x").container
          (entry "done")
          (at 20)
        ≡ ok (s', w'))
    × (s'.watchdog_timers ≡ some m')
    × (assoc_map.load m' "c1" ≡ none)
    × ((k : String) → "c1" ≢ k → assoc_map.load m' k ≡ assoc_map.load running k)
unfolding matches_watchdog matches_log
on_log_cleared_example =
    on_log_cleared engine (watcher false true) (no_queue engine []) running "c1"
      (notice "x").container (entry "done") (at 20) (watching false true) refl refl refl refl

on_log_triggered_example :
    (s' : Subscription expr assoc_map) × (m' : List (String × Timer (Armed values))) × (t : Timer
      (Armed values))
    × (on_log engine
          (watcher true false)
          (no_queue engine [])
          "c1"
          (notice "x").container
          (entry "go")
          (at 20)
        ≡ ok (s', no_queue engine []))
    × (s'.watchdog_timers ≡ some m')
    × (assoc_map.load m' "c1" ≡ some t)
    × (t.deadline ≡ at 20 +ℤ seconds (pos 30))
    × ((k : String) → "c1" ≢ k → assoc_map.load m' k ≡ assoc_map.load running k)
unfolding matches_watchdog matches_log get_dispatcher
on_log_triggered_example =
    on_log_triggered engine (watcher true false) (no_queue engine []) running "c1"
      (notice "x").container (entry "go") 2 (at 20) (watching true false) refl refl refl refl
