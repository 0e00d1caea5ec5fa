-- ===== src/Notification/Processing/Events.antt =====
-- internal/notification/processing.go: `processDockerEvent`.
use dozzle_gaia_fork.Common.{
  String, not, ◌&&◌, ◌||◌, none, some, List, [], ◌∷◌, is_some, if◌then◌else◌,
}
use dozzle_gaia_fork.Common.Assoc
use dozzle_gaia_fork.Common.Int.{ℤ, is_pos}
use dozzle_gaia_fork.Common.MapOps.{MapOps}
use dozzle_gaia_fork.Common.Outcome.{Outcome, ok, ◌>>=◌}
use dozzle_gaia_fork.Common.Text.{is_empty, str_eq, concat}
use dozzle_gaia_fork.Notification.Cooldowns.{is_event_cooldown_active, set_event_cooldown}
use dozzle_gaia_fork.Notification.Drain.{get_dispatcher}
use dozzle_gaia_fork.Notification.Engine.{Engine, World}
use dozzle_gaia_fork.Notification.Processing.{Handled, Hit, base_config, process_hit}
use dozzle_gaia_fork.Notification.Processing.RestartLoop.{process_restart_loop}
use dozzle_gaia_fork.Notification.Processing.Watchdogs.{Watched, send_clear, arm_watchdog}
use dozzle_gaia_fork.Notification.Rule.{
  Expr, Rule, is_event_alert, matches_container, matches_event, matches_watchdog_event,
}
use dozzle_gaia_fork.Notification.Schedule.{is_subscription_processable}
use dozzle_gaia_fork.Notification.Sources.{
  Container, Host, ContainerEvent, from_container_model, from_container_event,
}
use dozzle_gaia_fork.Notification.Subscription.{Subscription}
use dozzle_gaia_fork.Notification.Time.{Time}
use dozzle_gaia_fork.Notification.Types.{
  Values, Notification, NotificationType, NotificationContainer, NotificationEvent,
  SubscriptionConfig,
}
use dozzle_gaia_fork.Notification.Watchdog.{cancel_watchdog_timer}

-- The exit code of a container that died is part of the text.
unfoldable pub event_detail : NotificationEvent → String
event_detail ev =
    let plain = concat ("Container event: " ∷ ev.name ∷ []) in
    elim (Assoc.load ev.attributes "exitCode") [
      | none ↦ plain
      | some code ↦
          if str_eq ev.name "die"
          then concat ("Container event: " ∷ ev.name ∷ " (exit code " ∷ code ∷ ")" ∷ [])
          else plain
    ]

module _ {V : Values} {E : Expr V} (e : Engine E) where
  abbrev event_config : Rule E → ℤ → SubscriptionConfig
  event_config r priority = record (base_config r priority) {
    event_expression = r.event_expression;
  }

  abbrev with_event : NotificationEvent → Notification V → Notification V
  with_event ev n = record n { event = some ev }

  abbrev watched_event : Rule E → NotificationContainer → NotificationEvent → Watched V
  watched_event r c ev = record {
    kind = NotificationType.event;
    container = c;
    timer_id = ev.actor_id;
    text_id = ev.actor_id;
    detail =
        if not (is_empty r.watchdog_trigger_message)
        then r.watchdog_trigger_message
        else concat (
            "Watchdog: no follow-up received within "
            ∷ e.platform.decimal r.watchdog_window
            ∷ " seconds"
            ∷ []);
    attach = with_event ev;
    config = event_config r;
  }

module _ {V : Values} {E : Expr V} {X : MapOps} (e : Engine E) where
  abbrev pub event_hit : Rule E → NotificationContainer → NotificationEvent → Time → Hit E X
  event_hit r c ev now =
      let id = ev.actor_id in
      record {
        kind = NotificationType.event;
        container = c;
        detail = event_detail ev;
        counted_id = id;
        recorded_id = id;
        notification_id = concat (id ∷ "-event-" ∷ e.platform.unix_nano_decimal now ∷ []);
        attach = with_event e ev;
        config = λ priority. record (event_config e r priority) { cooldown = r.cooldown };
        is_cooling = λ s. is_event_cooldown_active s id now;
        start_cooldown = λ s. if is_pos s.rule.cooldown then set_event_cooldown s id now else ok s;
        cooldown_key = concat (e.platform.decimal r.id ∷ ":" ∷ id ∷ ":event" ∷ []);
      }

  -- The rest of the function, for a rule that is not a watchdog, or whose dispatcher is missing.
  unfoldable pub plain_event :
      Subscription E X
      → World V
      → String
      → NotificationContainer
      → NotificationEvent
      → Time
      → Handled E X
  unfolding process_restart_loop process_hit event_detail is_event_cooldown_active
  plain_event s w state c ev now =
      if s.rule.restart_loop_enabled
      then process_restart_loop e s w ev.actor_id state ev.name
          (record { container = c; event = ev }) now
      else process_hit e (event_hit s.rule c ev now) s w now

  -- The watchdog mode: the clear pattern comes first, and an event that matches it starts no timer.
  unfoldable pub watch_event :
      Subscription E X
      → World V
      → String
      → NotificationContainer
      → NotificationEvent
      → Time
      → Handled E X
  unfolding cancel_watchdog_timer send_clear arm_watchdog plain_event
  watch_event s w state c ev now =
      if is_some s.rule.watchdog_event_program && matches_watchdog_event s.rule ev
      then (cancel_watchdog_timer s ev.actor_id >>= λ (s', was_active).
          let (w', _) = send_clear e (watched_event e s.rule c ev) s' w was_active now in
          ok (s', w'))
      else elim (get_dispatcher e.manager s.rule.dispatcher_id) [
        | none ↦ plain_event s w state c ev now
        | some d ↦ arm_watchdog e (watched_event e s.rule c ev) d s now >>= λ s'. ok (s', w)
      ]

  -- The function that is called for each rule.
  unfoldable pub on_event :
      Subscription E X
      → World V
      → String
      → NotificationContainer
      → NotificationEvent
      → Time
      → Handled E X
  unfolding watch_event plain_event
  on_event s w state c ev now =
      if not (is_subscription_processable e.manager.weekday s.rule now)
        || not (is_event_alert s.rule)
      then ok (s, w)
      else if not (matches_container s.rule c)
      then ok (s, w)
      else if not (matches_event s.rule ev)
      then ok (s, w)
      else if is_pos s.rule.watchdog_window
      then watch_event s w state c ev now
      else plain_event s w state c ev now

  -- `m.subscriptions.Range`, in the order in which the map is visited.
  unfoldable pub on_event_all :
      List (Subscription E X)
      → World V
      → String
      → NotificationContainer
      → NotificationEvent
      → Time
      → Outcome (List (Subscription E X) × World V)
  unfolding on_event
  on_event_all [] w state c ev now = ok ([], w)
  on_event_all (s ∷ ss) w state c ev now = do
    (s', w1) ← on_event s w state c ev now
    (ss', w2) ← on_event_all ss w1 state c ev now
    ok (s' ∷ ss', w2)

  unfoldable pub process_docker_event :
      Container V
      → Host
      → ContainerEvent
      → List (Subscription E X)
      → World V
      → Time
      → Outcome (List (Subscription E X) × World V)
  unfolding on_event_all from_container_model from_container_event
  process_docker_event c host event ss w now =
      on_event_all ss w c.state (from_container_model c host) (from_container_event event) now
