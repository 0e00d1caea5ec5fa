-- ===== src/Tests/Registries.antt =====
-- The registry of rules on one rule.
use dozzle_gaia_fork.Common.{String, false, none, some, List, [], ◌∷◌, ◌≡◌, refl}
use dozzle_gaia_fork.Common.Int.{pos}
use dozzle_gaia_fork.Common.MapOps.{assoc_map}
use dozzle_gaia_fork.Common.Outcome.{ok}
use dozzle_gaia_fork.Notification.Compile.{bad_event}
use dozzle_gaia_fork.Notification.Registry.{Registry, lookup}
use dozzle_gaia_fork.Notification.Registry.Failed.{update_subscription_failed}
use dozzle_gaia_fork.Notification.Registry.Synced.{
  adds, updates, removes, IsSynced, serve_all, serve_all-IsSynced,
}
use dozzle_gaia_fork.Notification.Registry.Updates.{
  UpdateError, enabled_to, event_expression_to, apply_updates, update_subscription,
}
use dozzle_gaia_fork.Notification.Subscription.{Subscription, Timer, Armed}
use dozzle_gaia_fork.Tests.Queues.{at, notice}
use dozzle_gaia_fork.Tests.Samples.{values, expr, subscription}

abbrev empty : Registry expr assoc_map
empty = record {
  subscriptions = [];
  subscription_counter = pos 0;
  dispatchers = [];
  dispatcher_counter = pos 0;
  cloud_dispatcher = none;
  stream_updates = 0;
  is_listening_to_stats = false;
  is_listening_to_events = false;
}

serve_all-IsSynced_example :
    (m' : Registry expr assoc_map) × (serve_all
        (λ d. d)
        (adds subscription ∷ updates (pos 1) (enabled_to false ∷ []) ∷ removes (pos 1) ∷ [])
        empty
      ≡ ok m')
    × IsSynced m'
serve_all-IsSynced_example =
    serve_all-IsSynced (λ d. d)
      (adds subscription ∷ updates (pos 1) (enabled_to false ∷ []) ∷ removes (pos 1) ∷ []) empty
      (record { stats = refl; events = refl })

abbrev running : List (String × Timer (Armed values))
running =
    (
      "c1",
      record { deadline = at 40; action = record { dispatcher = 2; notification = notice "y" } },
    )
    ∷ []

abbrev one_rule : Registry expr assoc_map
one_rule = record empty {
  subscriptions = (pos 1, record subscription { watchdog_timers = some running }) ∷ [];
}

update_subscription_failed_example :
    (m' : Registry expr assoc_map) × (s' : Subscription expr assoc_map) × (left : List
      (String × Timer (Armed values)))
    × (update_subscription (λ d. d) one_rule (pos 1) (event_expression_to "(" ∷ [])
        ≡ ok (m', some (UpdateError.not_compiled bad_event)))
    × (lookup (pos 1) m'.subscriptions ≡ some s')
    × (s'.rule ≡ subscription.rule)
    × (s'.watchdog_timers ≡ some left)
    × ((k : String) → assoc_map.load left k ≡ none)
unfolding apply_updates
update_subscription_failed_example =
    update_subscription_failed (λ d. d) one_rule (pos 1) (event_expression_to "(" ∷ []) bad_event
      (record subscription { watchdog_timers = some running }) running refl refl (λ t. refl)
