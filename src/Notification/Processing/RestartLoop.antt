-- ===== src/Notification/Processing/RestartLoop.antt =====
-- internal/notification/processing.go and types.go: the restart-loop mode of an event rule. It fires
-- where a container stays in the state "restarting", or restarts often enough within a window.
use dozzle_gaia_fork.Common.{
  String, Bool, true, false, not, ◌&&◌, ◌||◌, none, some, List, [], ◌∷◌, ◌++◌, leb, length,
  if◌then◌else◌,
}
use dozzle_gaia_fork.Common.Int.{ℤ, ◌+ℤ◌, ◌-ℤ◌, is_pos, pos_part, ltb_ℤ}
use dozzle_gaia_fork.Common.MapOps.{MapOps}
use dozzle_gaia_fork.Common.Outcome.{Outcome, ok, ◌>>=◌, deref}
use dozzle_gaia_fork.Common.Text.{is_empty, str_eq, concat}
use dozzle_gaia_fork.Notification.Burst.{detect_burst, prune, stamps_of}
use dozzle_gaia_fork.Notification.Cooldowns.{
  is_restart_loop_cooldown_active, set_restart_loop_cooldown,
}
use dozzle_gaia_fork.Notification.Engine.{Engine, World}
use dozzle_gaia_fork.Notification.Modifiers.{apply_burst_modifier}
use dozzle_gaia_fork.Notification.Processing.{Handled, base_config, new_notification, dispatch}
use dozzle_gaia_fork.Notification.Rule.{Expr, Rule}
use dozzle_gaia_fork.Notification.Schedule.{is_subscription_processable}
use dozzle_gaia_fork.Notification.Subscription.{Subscription, Timer, Restarting, record_trigger}
use dozzle_gaia_fork.Notification.Time.{Time, seconds}
use dozzle_gaia_fork.Notification.Types.{Values, NotificationType, SubscriptionConfig}

module _ {V : Values} {E : Expr V} {X : MapOps} where
  abbrev forget_first_seen : Subscription E X → String → Subscription E X
  forget_first_seen s id = elim s.restart_loop_first_seen_at [
    | none ↦ s
    | some m ↦ record s { restart_loop_first_seen_at = some (X.delete m id) }
  ]

  -- Whether there was a timer to cancel.
  unfoldable pub cancel_restart_loop_timer : Subscription E X → String → Subscription E X × Bool
  cancel_restart_loop_timer s id = elim s.restart_loop_timers [
    | none ↦ (s, false)
    | some m ↦ elim (X.load m id) [
      | none ↦ (forget_first_seen s id, false)
      | some t ↦
          (forget_first_seen (record s { restart_loop_timers = some (X.delete m id) }) id, true)
    ]
  ]

  -- The container was seen in the state "restarting": for the first time, or again.
  unfoldable pub note_restarting :
      Subscription E X → String → Restarting → Time → Outcome (Subscription E X)
  note_restarting s id seen now = do
    m ← deref s.restart_loop_first_seen_at
    elim (X.load m id) [
      | some first ↦ ok s
      | none ↦ deref s.restart_loop_timers >>= λ timers.
          let t : Timer Restarting = record {
            deadline = now +ℤ seconds s.rule.restart_loop_state_window;
            action = seen;
          } in
          ok (record s {
            restart_loop_first_seen_at = some (X.store m id now);
            restart_loop_timers = some (X.store timers id t);
          })
    ]

  -- The streak of restarts within the window, with this one.
  abbrev restarts_of : Subscription E X → X.Map (List Time) → String → Time → List Time
  restarts_of s m id now =
      prune (now -ℤ seconds s.rule.restart_loop_event_window) (stamps_of X m id) ++ (now ∷ [])

  -- Whether the rule's number of restarts is reached.
  unfoldable pub count_restart :
      Subscription E X → String → Time → Outcome (Subscription E X × Bool)
  count_restart s id now = do
    m ← deref s.restart_loop_restart_streaks
    ok (
      record s { restart_loop_restart_streaks = some (X.store m id (restarts_of s m id now)) },
      leb (pos_part s.rule.restart_loop_event_count) (length (restarts_of s m id now)),
    )

abbrev restart_config : {V : Values} {E : Expr V} → Rule E → ℤ → SubscriptionConfig
restart_config r priority = record (base_config r priority) {
  event_expression = r.event_expression;
  cooldown = r.cooldown;
  restart_loop_enabled = r.restart_loop_enabled;
  restart_loop_state_window = r.restart_loop_state_window;
  restart_loop_event_count = r.restart_loop_event_count;
  restart_loop_event_window = r.restart_loop_event_window;
  restart_loop_cooldown = r.restart_loop_cooldown;
  restart_loop_trigger_message = r.restart_loop_trigger_message;
}

module _ {V : Values} {E : Expr V} {X : MapOps} (e : Engine E) where
  unfoldable pub fire_restart_loop_alert :
      Subscription E X → World V → String → Restarting → String → Time → Subscription E X × World V
  unfolding detect_burst apply_burst_modifier dispatch record_trigger set_restart_loop_cooldown
  fire_restart_loop_alert s w id seen detail now =
      let s1 = record_trigger (set_restart_loop_cooldown s id now) id now in
      let (s2, (priority, escalated, count)) = detect_burst s1 id s.rule.ntfy_priority now in
      let message = s.rule.restart_loop_trigger_message in
      let text = concat (id ∷ "-restart-loop-" ∷ e.platform.unix_nano_decimal now ∷ []) in
      let n =
        new_notification s.rule (restart_config s.rule priority) NotificationType.event text
          (if is_empty message then detail else message) seen.container priority now in
      let n' =
        apply_burst_modifier e.platform (record n { event = some seen.event }) s.rule escalated
          count in
      if not (is_subscription_processable e.manager.weekday s.rule now)
        || is_restart_loop_cooldown_active s id now
      then (s, w)
      else (s2, dispatch e s2 w n' now)

  -- The part of `processRestartLoop` that looks at the state; true where it returns.
  unfoldable pub watch_state :
      Subscription E X → String → String → Restarting → Time → Outcome (Subscription E X × Bool)
  unfolding note_restarting cancel_restart_loop_timer
  watch_state s id state seen now =
      if not (is_pos s.rule.restart_loop_state_window)
      then ok (s, false)
      else if str_eq state "restarting"
      then (note_restarting s id seen now >>= λ s'. ok (s', false))
      else ok (cancel_restart_loop_timer s id)

  -- The part that counts the events.
  unfoldable pub watch_restarts :
      Subscription E X → World V → String → String → Restarting → Time → Handled E X
  unfolding count_restart fire_restart_loop_alert
  watch_restarts s w id name seen now =
      if not (
        is_pos s.rule.restart_loop_event_count
        && (is_pos s.rule.restart_loop_event_window && str_eq name "restart"))
      then ok (s, w)
      else do
        (s', reached) ← count_restart s id now
        ok (
            if reached
            then fire_restart_loop_alert s' w id seen "restart events exceeded threshold" now
            else (s', w))

  unfoldable pub process_restart_loop :
      Subscription E X → World V → String → String → String → Restarting → Time → Handled E X
  unfolding watch_state watch_restarts
  process_restart_loop s w id state name seen now =
      if is_restart_loop_cooldown_active s id now then ok (s, w) else do
        (s', returns) ← watch_state s id state seen now
        if returns then ok (s', w) else watch_restarts s' w id name seen now

  -- The function of the timer. In one step, the second look at the time that was first seen finds
  -- the same.
  unfoldable pub fire_restart_timer :
      Subscription E X → World V → String → Restarting → Time → Handled E X
  unfolding fire_restart_loop_alert
  fire_restart_timer s w id seen now = do
    timers ← deref s.restart_loop_timers
    firsts ← deref s.restart_loop_first_seen_at
    let s' = record s { restart_loop_timers = some (X.delete timers id) }
    elim (X.load firsts id) [
      | none ↦ ok (s', w)
      | some first ↦
          if ltb_ℤ (now -ℤ first) (seconds s.rule.restart_loop_state_window)
            || is_restart_loop_cooldown_active s' id now
          then ok (s', w)
          else ok (fire_restart_loop_alert s' w id seen "restarting state persisted" now)
    ]
