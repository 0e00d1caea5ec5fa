-- ===== src/Notification/Subscription.antt =====
-- internal/notification/types.go: `Subscription`, a rule with its runtime state. The maps are
-- `xsync.Map` pointers, nil where they are `none`; a method of a nil map panics. The maps of
-- timers hold when a timer fires and what its function has captured.
use dozzle_gaia_fork.Common.{ℕ, String, Bool, Option, none, some, List, ◌+◌}
use dozzle_gaia_fork.Common.MapOps.{MapOps}
use dozzle_gaia_fork.Notification.Rule.{Expr, Rule}
use dozzle_gaia_fork.Notification.Time.{Time}
use dozzle_gaia_fork.Notification.Types.{
  Values, Notification, NotificationContainer, NotificationEvent,
}
use dozzle_gaia_fork.Utils.RingBuffer.{RingBuffer}

pub record UniqueState : Type 0 where
  pub count : ℕ
  pub window_start : Time
  pub sent : Bool

-- A `*time.Timer` of `time.AfterFunc` that was not stopped.
pub record Timer (A : Type 0) : Type 0 where
  pub deadline : Time
  pub action : A

-- What the function of a watchdog timer has captured.
pub record Armed (V : Values) : Type 0 where
  pub dispatcher : V.Dispatcher
  pub notification : Notification V

-- What the function of a restart-loop timer has captured.
pub record Restarting : Type 0 where
  pub container : NotificationContainer
  pub event : NotificationEvent

pub record Subscription {V : Values} (E : Expr V) (X : MapOps) : Type 0 where
  pub rule : Rule E
  pub trigger_count : ℕ
  pub last_triggered_at : Option Time
  pub triggered_container_ids : Option (X.Map (Unit {0}))
  pub metric_cooldowns : Option (X.Map Time)
  pub event_cooldowns : Option (X.Map Time)
  pub log_cooldowns : Option (X.Map Time)
  pub metric_sample_buffers : Option (X.Map (RingBuffer Bool))
  pub burst_trackers : Option (X.Map (List Time))
  pub unique_trackers : Option (X.Map UniqueState)
  pub watchdog_timers : Option (X.Map (Timer (Armed V)))
  pub watchdog_cooldowns : Option (X.Map Time)
  pub restart_loop_timers : Option (X.Map (Timer Restarting))
  pub restart_loop_cooldowns : Option (X.Map Time)
  pub restart_loop_first_seen_at : Option (X.Map Time)
  pub restart_loop_restart_streaks : Option (X.Map (List Time))

module _ {V : Values} {E : Expr V} {X : MapOps} where
  -- `AddTriggeredContainer`
  unfoldable pub add_triggered_container : Subscription E X → String → Subscription E X
  add_triggered_container s id =
      let ids : X.Map (Unit {0}) = elim s.triggered_container_ids [
        | none ↦ X.empty (Unit {0})
        | some m ↦ m
      ] in
      record s { triggered_container_ids = some (X.store ids id tt) }

  -- `AddTriggeredContainer`, `TriggerCount.Add(1)` and `LastTriggeredAt.Store(&now)`, which the
  -- handlers make together.
  unfoldable pub record_trigger : Subscription E X → String → Time → Subscription E X
  unfolding add_triggered_container
  record_trigger s id now = record (add_triggered_container s id) {
    trigger_count = s.trigger_count + 1;
    last_triggered_at = some now;
  }
