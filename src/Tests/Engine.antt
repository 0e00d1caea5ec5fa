-- ===== src/Tests/Engine.antt =====
-- The expiring cache, the watchdog timers, the delivery days and the delivery of queued items.
use dozzle_gaia_fork.Common.{
  ℕ, String, false, none, some, List, [], ◌∷◌, ◌≡◌, refl, arith, if◌then◌else◌,
}
use dozzle_gaia_fork.Common.Int.{◌+ℤ◌}
use dozzle_gaia_fork.Common.MapOps.{assoc_map}
use dozzle_gaia_fork.Common.Outcome.{ok}
use dozzle_gaia_fork.Common.Text.{str_eq}
use dozzle_gaia_fork.Notification.Drain.{Manager, deliver_queued_notification}
use dozzle_gaia_fork.Notification.Drain.Outcomes.{Delivery, deliver_queued_notification_outcome}
use dozzle_gaia_fork.Notification.Queue.Jobs.{QueuedNotification, queued}
use dozzle_gaia_fork.Notification.Schedule.Days.{normalize_delivery_days-is_delivery_day}
use dozzle_gaia_fork.Notification.Schedule.{any, is_delivery_day, normalize_delivery_days}
use dozzle_gaia_fork.Notification.Subscription.{Subscription, Timer, Armed}
use dozzle_gaia_fork.Notification.Time.{after}
use dozzle_gaia_fork.Notification.TtlCache.{
  TtlCache, load_entry, store_entry, evict, load_entry-evict, load_entry-store_entry,
}
use dozzle_gaia_fork.Notification.Watchdog.{stop_runtime}
use dozzle_gaia_fork.Notification.Watchdog.Laws.{stop_runtime_all}
use dozzle_gaia_fork.Tests.Queues.{at, notice, job, tables, never}
use dozzle_gaia_fork.Tests.Samples.{values, expr, rule, subscription}

abbrev cache : TtlCache assoc_map ℕ
cache = record {
  entries =
      ("a", record { value = 1; expires_at = at 10 })
      ∷ ("b", record { value = 2; expires_at = at 20 })
      ∷ [];
  ttl = at 5;
}

load_entry-evict_example :
    load_entry (evict cache (at 15)) "b" (at 16) ≡ load_entry cache "b" (at 16)
load_entry-evict_example = load_entry-evict cache "b" (at 15) (at 16) (omega arith)

load_entry-store_entry_example : load_entry (store_entry cache "a" 3 (at 12)) "a" (at 16) ≡ (
    if str_eq "a" "a"
    then (if after (at 16) (at 12 +ℤ at 5) then none else some 3)
    else load_entry cache "a" (at 16))
load_entry-store_entry_example = load_entry-store_entry cache "a" "a" 3 (at 12) (at 16)

abbrev watched : Subscription expr assoc_map
watched = record subscription {
  watchdog_timers = some (
      (
        "c1",
        record { deadline = at 30; action = record { dispatcher = 2; notification = notice "x" } },
      )
      ∷ (
        "c2",
        record { deadline = at 40; action = record { dispatcher = 2; notification = notice "y" } },
      )
      ∷ []);
}

stop_runtime_all_example :
    (s : Subscription expr assoc_map) × (m : List (String × Timer (Armed values))) × (stop_runtime
        watched
      ≡ ok s)
    × (s.watchdog_timers ≡ some m)
    × ((k : String) → assoc_map.load m k ≡ none)
stop_runtime_all_example =
    stop_runtime_all watched
      ((
        "c1",
        record { deadline = at 30; action = record { dispatcher = 2; notification = notice "x" } },
      )
        ∷ (
          "c2",
          record {
            deadline = at 40;
            action = record { dispatcher = 2; notification = notice "y" };
          },
        )
        ∷ [])
      refl

normalize_delivery_days-is_delivery_day_example :
    is_delivery_day (normalize_delivery_days (λ d. d) ("mon" ∷ "holiday" ∷ "mon" ∷ [])) 2 ≡ false
unfolding any
normalize_delivery_days-is_delivery_day_example =
    normalize_delivery_days-is_delivery_day (λ d. d) 2 ("mon" ∷ "holiday" ∷ "mon" ∷ [])

-- One dispatcher, that refuses everything.
abbrev manager : Manager expr ℕ
manager = record {
  cloud_dispatcher = none;
  dispatchers = λ id. some 2;
  subscriptions = λ id. some rule;
  weekday = λ zone now. 1;
  send = λ d n. false;
}

abbrev item : QueuedNotification values
item = queued (job 1 "a") (notice "a")

deliver_queued_notification_outcome_example :
    Delivery manager item
      (at 300)
      (job 1 "a" ∷ [])
      (deliver_queued_notification never manager item (at 300) (tables (job 1 "a" ∷ []))).jobs
deliver_queued_notification_outcome_example =
    deliver_queued_notification_outcome never manager item (at 300) (tables (job 1 "a" ∷ [])) refl
