-- ===== src/Notification/Processing/Watchdogs.antt =====
-- internal/notification/processing.go: the watchdog mode of the handlers. A matching line or event
-- starts a timer for its container; another pattern cancels it; a timer that fires sends the alert.
use dozzle_gaia_fork.Common.{ℕ, String, Bool, true, false, not, ◌&&◌, [], ◌∷◌, if◌then◌else◌}
use dozzle_gaia_fork.Common.Int.{ℤ}
use dozzle_gaia_fork.Common.MapOps.{MapOps}
use dozzle_gaia_fork.Common.Outcome.{Outcome}
use dozzle_gaia_fork.Common.Text.{is_empty, concat}
use dozzle_gaia_fork.Notification.Burst.{detect_burst}
use dozzle_gaia_fork.Notification.Cooldowns.{is_watchdog_cooldown_active, set_watchdog_cooldown}
use dozzle_gaia_fork.Notification.Engine.{Engine, World}
use dozzle_gaia_fork.Notification.Modifiers.{apply_burst_modifier}
use dozzle_gaia_fork.Notification.Processing.{dispatch, new_notification}
use dozzle_gaia_fork.Notification.QuietSummary.{should_aggregate_quiet}
use dozzle_gaia_fork.Notification.Rule.{Expr}
use dozzle_gaia_fork.Notification.Sending.{send_or_queue}
use dozzle_gaia_fork.Notification.Subscription.{Subscription, Armed, record_trigger}
use dozzle_gaia_fork.Notification.Time.{Time}
use dozzle_gaia_fork.Notification.Types.{
  Values, Notification, NotificationType, NotificationContainer, SubscriptionConfig,
}
use dozzle_gaia_fork.Notification.Watchdog.{reset_watchdog_timer}

-- What the handler of lines and the one of events put into the notifications of a watchdog.
pub record Watched (V : Values) : Type 0 where
  pub kind : NotificationType
  pub container : NotificationContainer
  -- the key of the timer, and the id that the texts of the notifications start with
  pub timer_id : String
  pub text_id : String
  pub detail : String
  pub attach : Notification V → Notification V
  pub config : ℤ → SubscriptionConfig

module _ {V : Values} {E : Expr V} {X : MapOps} (e : Engine E) where
  -- The function of the timer.
  unfoldable pub fire_watchdog :
      Subscription E X → World V → String → Armed V → Time → Subscription E X × World V
  unfolding is_watchdog_cooldown_active set_watchdog_cooldown record_trigger send_or_queue
  fire_watchdog s w id armed now = if is_watchdog_cooldown_active s id now then (s, w) else (
    record_trigger (set_watchdog_cooldown s id now) armed.notification.container.id now,
    send_or_queue e armed.dispatcher armed.notification s.rule now w,
  )

  -- The message that a cancelled timer sends, if the rule has one; true where the handler returns at
  -- once, for a summary.
  unfoldable pub send_clear : Watched V → Subscription E X → World V → Bool → Time → World V × Bool
  unfolding dispatch should_aggregate_quiet
  send_clear o s w was_active now =
      let (grouping, queue) = should_aggregate_quiet e s.rule now w.queue in
      let w' = record w { queue = queue } in
      let id = concat (o.text_id ∷ "-watchdog-clear-" ∷ e.platform.unix_nano_decimal now ∷ []) in
      let n = o.attach (
        new_notification s.rule (o.config s.rule.ntfy_priority) o.kind id
          s.rule.watchdog_clear_message o.container s.rule.ntfy_priority now) in
      if not (was_active && not (is_empty s.rule.watchdog_clear_message))
      then (w, false)
      else if grouping
      then (w', true)
      else (dispatch e s w' n now, false)

  -- What the timer's function captures, with the burst counter's answer.
  unfoldable pub armed_by :
      Watched V → V.Dispatcher → Subscription E X → ℤ × Bool × ℕ → Time → Armed V
  unfolding apply_burst_modifier
  armed_by o d s (priority, escalated, count) now =
      let id = concat (o.text_id ∷ "-watchdog-" ∷ e.platform.unix_nano_decimal now ∷ []) in
      let n =
        o.attach (
          new_notification s.rule (o.config priority) o.kind id o.detail o.container priority
            now) in
      record {
        dispatcher = d;
        notification = apply_burst_modifier e.platform n s.rule escalated count;
      }

  -- A timer for the container, which replaces the one that runs.
  unfoldable pub arm_watchdog :
      Watched V → V.Dispatcher → Subscription E X → Time → Outcome (Subscription E X)
  unfolding detect_burst armed_by reset_watchdog_timer
  arm_watchdog o d s now =
      let (s', burst) = detect_burst s o.timer_id s.rule.ntfy_priority now in
      reset_watchdog_timer s' o.timer_id (armed_by o d s burst now) s.rule.watchdog_window now
