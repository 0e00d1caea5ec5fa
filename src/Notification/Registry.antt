-- ===== src/Notification/Registry.antt =====
-- internal/notification/manager.go: the manager's maps of rules and dispatchers, and the listeners that
-- it starts and stops as the rules need them. A map with integer keys is an association list. The
-- watchdog timers of a rule that leaves the map are stopped; its other timers are not followed.
pub mod Updates
pub mod Synced
pub mod Failed
use dozzle_gaia_fork.Common.{
  ℕ, suc, ◌+◌, ◌-◌, ◌==◌, ◌^◌, String, Bool, true, false, not, ◌&&◌, ◌||◌, Option, none, some, List,
  [], ◌∷◌, is_some, if◌then◌else◌,
}
use dozzle_gaia_fork.Common.Int.{ℤ, pos, negsuc}
use dozzle_gaia_fork.Common.MapOps.{MapOps}
use dozzle_gaia_fork.Notification.Compile.{CompileError, Checked, good, bad, compile_expressions}
use dozzle_gaia_fork.Notification.Queue.Jobs.{eqb_ℤ}
use dozzle_gaia_fork.Notification.Rule.{
  Expr, Rule, is_metric_alert, is_event_alert, matches_container,
}
use dozzle_gaia_fork.Common.Text.{is_empty}
use dozzle_gaia_fork.Notification.Schedule.{normalize_delivery_days, is_subscription_processable}
use dozzle_gaia_fork.Notification.Subscription.{Subscription, Timer, Armed, Restarting}
use dozzle_gaia_fork.Notification.Time.{Time}
use dozzle_gaia_fork.Notification.Types.{Values, NotificationContainer}
use dozzle_gaia_fork.Utils.RingBuffer.{RingBuffer}

abbrev pub lookup : {A : Type 0} → ℤ → List (ℤ × A) → Option A
lookup k [] = none
lookup k ((j, a) ∷ m) = if eqb_ℤ j k then some a else lookup k m

abbrev pub remove : {A : Type 0} → ℤ → List (ℤ × A) → List (ℤ × A)
remove k [] = []
remove k ((j, a) ∷ m) = let rest = remove k m in if eqb_ℤ j k then rest else (j, a) ∷ rest

abbrev pub put : {A : Type 0} → ℤ → A → List (ℤ × A) → List (ℤ × A)
put k a [] = (k, a) ∷ []
put k a ((j, b) ∷ m) = let rest = put k a m in if eqb_ℤ j k then (j, a) ∷ m else (j, b) ∷ rest

-- `counter.Add(1)` of an `atomic.Int32`
unfoldable pub next_counter : ℤ → ℤ
next_counter (pos n) = if n == 2 ^ 31 - 1 then negsuc (2 ^ 31 - 1) else pos (n + 1)
next_counter (negsuc n) = if n == 0 then pos 0 else negsuc (n - 1)

pub record Registry {V : Values} (E : Expr V) (X : MapOps) : Type 0 where
  pub subscriptions : List (ℤ × Subscription E X)
  pub subscription_counter : ℤ
  pub dispatchers : List (ℤ × V.Dispatcher)
  pub dispatcher_counter : ℤ
  pub cloud_dispatcher : Option V.Dispatcher
  -- how often `UpdateStreams` was called, and which of the other listeners run
  pub stream_updates : ℕ
  pub is_listening_to_stats : Bool
  pub is_listening_to_events : Bool

-- `NormalizeDeliverySchedule`
abbrev pub normalized : {V : Values} {E : Expr V} → (String → String) → Rule E → Rule E
normalized fold r = record r { delivery_days = normalize_delivery_days fold r.delivery_days }

module _ {V : Values} {E : Expr V} {X : MapOps} where
  abbrev pub needs_stats : List (ℤ × Subscription E X) → Bool
  needs_stats [] = false
  needs_stats ((_, s) ∷ rest) = s.rule.enabled && is_metric_alert s.rule || needs_stats rest

  abbrev pub needs_events : List (ℤ × Subscription E X) → Bool
  needs_events [] = false
  needs_events ((_, s) ∷ rest) = s.rule.enabled && is_event_alert s.rule || needs_events rest

  unfoldable pub update_listeners : Registry E X → Registry E X
  update_listeners m = record m {
    stream_updates = m.stream_updates + 1;
    is_listening_to_stats = needs_stats m.subscriptions;
    is_listening_to_events = needs_events m.subscriptions;
  }

  -- The maps that `ReplaceSubscription` makes.
  abbrev pub with_new_maps : Subscription E X → Subscription E X
  with_new_maps s = record s {
    metric_cooldowns = some (X.empty Time);
    metric_sample_buffers = some (X.empty (RingBuffer Bool));
    event_cooldowns = some (X.empty Time);
    log_cooldowns = some (X.empty Time);
    burst_trackers = some (X.empty (List Time));
    restart_loop_timers = some (X.empty (Timer Restarting));
    restart_loop_cooldowns = some (X.empty Time);
    restart_loop_first_seen_at = some (X.empty Time);
    restart_loop_restart_streaks = some (X.empty (List Time));
  }

  -- `AddSubscription` makes two more.
  abbrev pub with_watchdog_maps : Subscription E X → Subscription E X
  with_watchdog_maps s = record (with_new_maps s) {
    watchdog_timers = some (X.empty (Timer (Armed V)));
    watchdog_cooldowns = some (X.empty Time);
  }

  -- A rule is stored, and the listeners follow.
  abbrev pub store_rule : Registry E X → ℤ → Subscription E X → Registry E X
  store_rule m id s = update_listeners (record m { subscriptions = put id s m.subscriptions })

  module _ (fold : String → String) where
    abbrev pub store_compiled :
        Registry E X → Subscription E X → Checked (Rule E) → Registry E X × Option CompileError
    store_compiled m s (bad err) = (m, some err)
    store_compiled m s (good r) = (store_rule m r.id (record s { rule = r }), none)

    -- A rule that does not compile still takes an id.
    unfoldable pub add_subscription :
        Registry E X → Subscription E X → Registry E X × Option CompileError
    unfolding update_listeners
    add_subscription m s =
        let id = next_counter m.subscription_counter in
        let r = normalized fold (record s.rule { id = id; enabled = true }) in
        store_compiled (record m { subscription_counter = id }) (with_watchdog_maps s)
          (compile_expressions r)

    -- The rule keeps whether it is enabled and until when it is paused.
    abbrev kept_state : Option (Subscription E X) → Rule E → Rule E
    kept_state none r = record r { enabled = true }
    kept_state (some old) r = record r {
      enabled = old.rule.enabled;
      paused_until = old.rule.paused_until;
    }

    abbrev pub replace_compiled :
        Registry E X → Subscription E X → Checked (Rule E) → Registry E X × Option CompileError
    replace_compiled m s (bad err) = (m, some err)
    replace_compiled m s (good r) =
        (store_rule m r.id (record s { rule = kept_state (lookup r.id m.subscriptions) r }), none)

    unfoldable pub replace_subscription :
        Registry E X → Subscription E X → Registry E X × Option CompileError
    unfolding update_listeners
    replace_subscription m s =
        replace_compiled m (with_new_maps s) (compile_expressions (normalized fold s.rule))

  unfoldable pub remove_subscription : Registry E X → ℤ → Registry E X
  unfolding update_listeners
  remove_subscription m id =
      if not (is_some (lookup id m.subscriptions))
      then m
      else update_listeners (record m { subscriptions = remove id m.subscriptions })

  unfoldable pub add_dispatcher : Registry E X → V.Dispatcher → Registry E X × ℤ
  add_dispatcher m d =
      let id = next_counter m.dispatcher_counter in
      (record m { dispatcher_counter = id; dispatchers = put id d m.dispatchers }, id)

  unfoldable pub update_dispatcher : Registry E X → ℤ → V.Dispatcher → Registry E X
  update_dispatcher m id d = record m { dispatchers = put id d m.dispatchers }

  unfoldable pub remove_dispatcher : Registry E X → ℤ → Registry E X
  remove_dispatcher m id = record m { dispatchers = remove id m.dispatchers }

  unfoldable pub set_cloud_dispatcher : Registry E X → V.Dispatcher → Registry E X
  set_cloud_dispatcher m d = record m { cloud_dispatcher = some d }

  unfoldable pub clear_cloud_dispatcher : Registry E X → Registry E X
  clear_cloud_dispatcher m = record m { cloud_dispatcher = none }

  -- `ShouldListenToContainer`
  unfoldable pub should_listen_to_container :
      (String → Time → ℕ) → List (ℤ × Subscription E X) → NotificationContainer → Time → Bool
  should_listen_to_container weekday [] c now = false
  should_listen_to_container weekday ((_, s) ∷ rest) c now =
      not (is_empty s.rule.log_expression)
        && (is_subscription_processable weekday s.rule now && matches_container s.rule c)
      || should_listen_to_container weekday rest c now
