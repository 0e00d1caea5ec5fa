-- ===== src/Notification/Processing/Logs.antt =====
-- internal/notification/processing.go: `processLogEvent`. The container and its host are what the
-- listener finds for the line; where it finds none, or where Dozzle itself wrote it, nothing is done.
use dozzle_gaia_fork.Common.{
  String, Bool, false, not, ◌&&◌, ◌||◌, Option, none, some, List, [], ◌∷◌, is_some, if◌then◌else◌,
}
use dozzle_gaia_fork.Common.Int.{ℤ, is_pos}
use dozzle_gaia_fork.Common.MapOps.{MapOps}
use dozzle_gaia_fork.Common.Outcome.{Outcome, ok, ◌>>=◌}
use dozzle_gaia_fork.Common.Text.{is_empty, concat}
use dozzle_gaia_fork.Container.LogEvent.{LogEvent}
use dozzle_gaia_fork.Notification.Cooldowns.{is_log_cooldown_active, set_log_cooldown}
use dozzle_gaia_fork.Notification.Drain.{get_dispatcher}
use dozzle_gaia_fork.Notification.Engine.{Engine, World}
use dozzle_gaia_fork.Notification.Platform.{format_log_message}
use dozzle_gaia_fork.Notification.Processing.{Handled, Hit, base_config, process_hit}
use dozzle_gaia_fork.Notification.Processing.Watchdogs.{Watched, send_clear, arm_watchdog}
use dozzle_gaia_fork.Notification.Rule.{
  Expr, Rule, is_log_alert, matches_container, matches_log, matches_watchdog,
}
use dozzle_gaia_fork.Notification.Schedule.{is_subscription_processable}
use dozzle_gaia_fork.Notification.Sources.{
  Container, Host, from_container_model, from_log_event, is_dozzle_container,
}
use dozzle_gaia_fork.Notification.Subscription.{Subscription}
use dozzle_gaia_fork.Notification.Time.{Time}
use dozzle_gaia_fork.Notification.Types.{
  Values, Notification, NotificationType, NotificationContainer, NotificationLog,
  SubscriptionConfig,
}
use dozzle_gaia_fork.Notification.Watchdog.{cancel_watchdog_timer}

module _ {V : Values} {E : Expr V} (e : Engine E) where
  abbrev log_config : Rule E → ℤ → SubscriptionConfig
  log_config r priority = record (base_config r priority) { log_expression = r.log_expression }

  abbrev with_log : NotificationLog V → Notification V → Notification V
  with_log l n = record n { log = some l }

  -- The message of the rule, or one of two texts.
  abbrev watchdog_detail : Rule E → String
  watchdog_detail r =
      if not (is_empty r.watchdog_trigger_message)
      then r.watchdog_trigger_message
      else if not (is_empty r.watchdog_pattern)
      then concat (
          "Watchdog: no follow-up received within "
          ∷ e.platform.decimal r.watchdog_window
          ∷ " seconds"
          ∷ [])
      else concat (
          "Watchdog: no heartbeat seen for "
          ∷ e.platform.decimal r.watchdog_window
          ∷ " seconds"
          ∷ [])

  abbrev pub watched_log : Rule E → String → NotificationContainer → NotificationLog V → Watched V
  watched_log r id c l = record {
    kind = NotificationType.log;
    container = c;
    timer_id = id;
    text_id = c.id;
    detail = watchdog_detail r;
    attach = with_log l;
    config = log_config r;
  }

module _ {V : Values} {E : Expr V} {X : MapOps} (e : Engine E) where
  -- The clear pattern, which cancels the timer; true where the handler returns.
  unfoldable pub watch_clear :
      Subscription E X
      → World V
      → String
      → NotificationContainer
      → NotificationLog V
      → Time
      → Outcome ((Subscription E X × World V) × Bool)
  unfolding cancel_watchdog_timer send_clear
  watch_clear s w id c l now =
      if not (is_some s.rule.watchdog_program && matches_watchdog s.rule l)
      then ok ((s, w), false)
      else do
        (s', was_active) ← cancel_watchdog_timer s id
        let (w', stop) = send_clear e (watched_log e s.rule id c l) s' w was_active now
        ok ((s', w'), stop)

  -- The trigger, which starts the timer.
  unfoldable pub watch_trigger :
      Subscription E X
      → World V
      → String
      → NotificationContainer
      → NotificationLog V
      → Time
      → Handled E X
  unfolding arm_watchdog
  watch_trigger s w id c l now =
      if not (matches_log s.rule l)
      then ok (s, w)
      else elim (get_dispatcher e.manager s.rule.dispatcher_id) [
        | none ↦ ok (s, w)
        | some d ↦ arm_watchdog e (watched_log e s.rule id c l) d s now >>= λ s'. ok (s', w)
      ]

  abbrev pub watch_log :
      Subscription E X
      → World V
      → String
      → NotificationContainer
      → NotificationLog V
      → Time
      → Handled E X
  watch_log s w id c l now = watch_clear s w id c l now >>= λ ((s', w'), stop).
      if stop then ok (s', w') else watch_trigger s' w' id c l now

  abbrev pub log_hit : Rule E → String → NotificationContainer → NotificationLog V → Time → Hit E X
  log_hit r id c l now = record {
    kind = NotificationType.log;
    container = c;
    detail = format_log_message e.platform l.message;
    counted_id = id;
    recorded_id = c.id;
    notification_id = concat (c.id ∷ "-" ∷ e.platform.unix_nano_decimal now ∷ []);
    attach = with_log e l;
    config = log_config e r;
    is_cooling = λ s. ok (is_pos s.rule.cooldown && is_log_cooldown_active s id now);
    start_cooldown = λ s. ok (if is_pos s.rule.cooldown then set_log_cooldown s id now else s);
    cooldown_key = concat (e.platform.decimal r.id ∷ ":" ∷ id ∷ ":log" ∷ []);
  }

  -- The function that is called for each rule.
  unfoldable pub on_log :
      Subscription E X
      → World V
      → String
      → NotificationContainer
      → NotificationLog V
      → Time
      → Handled E X
  unfolding watch_clear watch_trigger process_hit format_log_message
  on_log s w id c l now =
      if not (is_subscription_processable e.manager.weekday s.rule now) || not (is_log_alert s.rule)
      then ok (s, w)
      else if not (matches_container s.rule c)
      then ok (s, w)
      else if is_pos s.rule.watchdog_window
      then watch_log s w id c l now
      else if not (matches_log s.rule l)
      then ok (s, w)
      else process_hit e (log_hit s.rule id c l now) s w now

  -- `m.subscriptions.Range`, in the order in which the map is visited.
  unfoldable pub on_log_all :
      List (Subscription E X)
      → World V
      → String
      → NotificationContainer
      → NotificationLog V
      → Time
      → Outcome (List (Subscription E X) × World V)
  unfolding on_log
  on_log_all [] w id c l now = ok ([], w)
  on_log_all (s ∷ ss) w id c l now = do
    (s', w1) ← on_log s w id c l now
    (ss', w2) ← on_log_all ss w1 id c l now
    ok (s' ∷ ss', w2)

  unfoldable pub process_log_event :
      Option (Container V × Host)
      → LogEvent V.Object
      → List (Subscription E X)
      → World V
      → Time
      → Outcome (List (Subscription E X) × World V)
  unfolding on_log_all from_container_model from_log_event is_dozzle_container
  process_log_event none l ss w now = ok (ss, w)
  process_log_event (some (c, host)) l ss w now =
      if is_dozzle_container e.platform c
      then ok (ss, w)
      else on_log_all ss w l.container_id (from_container_model c host)
          (from_log_event e.platform l) now
