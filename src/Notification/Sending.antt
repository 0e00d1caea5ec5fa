-- ===== src/Notification/Sending.antt =====
-- internal/notification/processing.go: `sendOrQueue`, which sends a notification at once, holds it in
-- the queue or counts it in a summary; and `sendWithRetry`.
pub mod KeepsJobs
pub mod Holding
pub mod Hits
pub mod Counting
pub mod Placement
use dozzle_gaia_fork.Common.{
  ℕ, suc, ◌+◌, ◌*◌, String, Bool, true, false, not, ◌&&◌, Option, none, some, List, [], ◌∷◌, ◌++◌,
  if◌then◌else◌,
}
use dozzle_gaia_fork.Common.Int.{ℤ, pos, ◌+ℤ◌, is_pos, ltb_ℤ, int64}
use dozzle_gaia_fork.Common.Text.{is_empty, concat}
use dozzle_gaia_fork.Notification.Drain.{is_subscription_active}
use dozzle_gaia_fork.Notification.Engine.{Engine, Send, World}
use dozzle_gaia_fork.Notification.Fingerprint.{alert_fingerprint}
use dozzle_gaia_fork.Notification.Modifiers.{format_duration_seconds}
use dozzle_gaia_fork.Notification.Queue.{Db, AlertState, Reply, done, failed, state_of}
use dozzle_gaia_fork.Notification.Queue.Jobs.{enqueue, pending_count_for_subscription}
use dozzle_gaia_fork.Notification.Queue.States.{get_or_create_alert_state, upsert_alert_state}
use dozzle_gaia_fork.Notification.QuietHours.{ZonedTime, effective_quiet_hours}
use dozzle_gaia_fork.Notification.QuietSummary.{
  should_aggregate_quiet, aggregate_quiet_notification,
}
use dozzle_gaia_fork.Notification.Rule.{Expr, Rule}
use dozzle_gaia_fork.Notification.Time.{Time, Duration, after, seconds, second, scale}
use dozzle_gaia_fork.Notification.Types.{
  Values, Notification, NotificationType, add_context, add_modifier_tag,
}

-- `string(notification.Type)`
abbrev pub kind_name : NotificationType → String
kind_name NotificationType.log = "log"
kind_name NotificationType.metric = "metric"
kind_name NotificationType.event = "event"

-- A setting, or its default where it is not positive, or the rule's own.
abbrev pub setting : ℤ → ℤ → ℤ → ℤ
setting global default own = if is_pos own then own else if is_pos global then global else default

-- The state as the code counts this hit in it, and whether it is the hit that escalates.
unfoldable pub count_held : AlertState → Time → Duration → ℤ → AlertState × Bool
count_held st now window threshold =
    let expired_window = after now (st.window_start +ℤ window) in
    let fresh =
      if expired_window
      then record st { count = pos 0; stacked_sent = false; window_start = now }
      else st in
    let counted = record fresh { count = fresh.count +ℤ pos 1 } in
    if not (ltb_ℤ counted.count threshold) && not counted.stacked_sent
    then (record counted { stacked_sent = true }, true)
    else (counted, false)

module _ {V : Values} {E : Expr V} (e : Engine E) where
  abbrev pub rfc3339 : ZonedTime e.platform.Location → String
  rfc3339 t = e.platform.format t.zone t.time "2006-01-02T15:04:05Z07:00"

  abbrev stack_threshold : Rule E → ℤ
  stack_threshold r = setting e.quiet_hours.stack_threshold (pos 3) r.quiet_stack_threshold

  abbrev stack_window : Rule E → ℤ
  stack_window r = setting e.quiet_hours.stack_window (pos 900) r.quiet_stack_window

  -- The notification of the hit that escalates.
  unfoldable pub escalate_held : Notification V → Rule E → ℤ → Notification V
  unfolding add_context
  escalate_held n r count =
      let qh = e.quiet_hours in
      let raised = record n { ntfy_priority = setting qh.stacked_priority (pos 4) (pos 0) } in
      let routed =
        if qh.stacked_uses_quiet_topic && not (is_empty qh.quiet_topic)
        then record raised { ntfy_topic = qh.quiet_topic }
        else raised in
      add_context routed "Quiet-hours stack" (
        concat (
          e.platform.decimal count
          ∷ " held alerts / "
          ∷ format_duration_seconds e.platform (stack_window r)
          ∷ []))

  -- What follows the call of `GetOrCreateAlertState`. An error of the update keeps the change of the
  -- notification, and the caller only reports it.
  abbrev pub with_alert_state :
      Notification V → Rule E → Time → Reply AlertState → Notification V × Db
  with_alert_state n r now (failed db) = (n, db)
  with_alert_state n r now (done st db) =
      let (st', escalates) = count_held st now (seconds (stack_window r)) (stack_threshold r) in
      let (_, written) = upsert_alert_state e.fails st' now db in
      (if escalates then escalate_held n r st'.count else n, state_of written)

  unfoldable pub apply_quiet_hours_burst_escalation :
      Notification V → Rule E → Time → Db → Notification V × Db
  unfolding count_held escalate_held alert_fingerprint
  apply_quiet_hours_burst_escalation n r now db =
      let kind = kind_name n.kind in
      let fp =
        alert_fingerprint e.platform r.name n.container.host_name n.container.name kind n.detail in
      with_alert_state n r now (
        get_or_create_alert_state e.fails fp r.id n.container.host_name n.container.name kind now
          db)

  -- `PendingCountForSubscription`, 0 on an error, and the tables after it.
  abbrev pub count_or_zero : Reply ℕ → ℕ × Db
  count_or_zero (done n db) = (n, db)
  count_or_zero (failed db) = (0, db)

  -- The notification as it is held, with where and until when.
  abbrev pub held : Notification V → String → ZonedTime e.platform.Location → Notification V
  held n why at = add_context (add_context n "Delivery" why) "Queued until" (rfc3339 at)

  -- Held until the end of the quiet hours, two seconds after the rule's notification before it.
  unfoldable pub hold_quiet :
      Notification V → Rule E → ZonedTime e.platform.Location → Time → Db → Db
  unfolding apply_quiet_hours_burst_escalation add_context
  hold_quiet n r quiet_end now db =
      let (n', db1) = apply_quiet_hours_burst_escalation n r now db in
      let (pending_count, db2) = count_or_zero (pending_count_for_subscription e.fails r.id db1) in
      let at = quiet_end.time +ℤ int64 (pos (pending_count * (2 * second))) in
      state_of (
        enqueue e.codec e.fails
          (held n' "held during quiet hours" (record { zone = quiet_end.zone; time = at })) at now
          db2)

  -- Held for the hold window of the rule.
  unfoldable pub hold_window : Notification V → Rule E → Time → Db → Db
  unfolding add_context
  hold_window n r now db =
      let at = now +ℤ seconds r.hold_clear_window in
      state_of (
        enqueue e.codec e.fails
          (held n "legacy hold window" (record { zone = e.platform.local_zone; time = at })) at now
          db)

  -- The call `go m.sendWithRetry(…)`.
  abbrev pub start_send : V.Dispatcher → Notification V → Rule E → World V → World V
  start_send d n r w = record w {
    sends =
        w.sends
        ++ (record { dispatcher = d; notification = n; dispatcher_id = r.dispatcher_id } ∷ []);
  }

  -- The end of `sendOrQueue`, where quiet hours do not hold the notification.
  unfoldable pub send_now : V.Dispatcher → Notification V → Rule E → Time → World V → World V
  unfolding hold_window
  send_now d n r now w = elim w.queue [
    | none ↦ start_send d n r w
    | some db ↦
        if is_pos r.hold_clear_window
        then record w { queue = some (hold_window n r now db) }
        else start_send d n r w
  ]

  -- The answer of `shouldAggregateQuiet`, and what the code does on each. The last clause is not
  -- reached: the queue is still there.
  unfoldable pub send_quiet :
      Notification V
      → Rule E
      → ZonedTime e.platform.Location
      → Time
      → World V
      → Bool × Option Db
      → World V
  unfolding hold_quiet aggregate_quiet_notification
  send_quiet n r quiet_end now w (true, some db) = record w {
    queue = some (state_of (aggregate_quiet_notification e n r now db));
  }
  send_quiet n r quiet_end now w (false, some db) = record w {
    queue = some (hold_quiet n r quiet_end now db);
  }
  send_quiet n r quiet_end now w (b, none) = w

  -- Without a queue the priority is lowered instead.
  unfoldable pub lowered : Notification V → Rule E → Notification V
  unfolding add_context
  lowered n r =
      add_context
        (if is_pos r.quiet_priority then record n { ntfy_priority = r.quiet_priority } else n)
        "Delivery" "quiet hours active; sent without queue"

  unfoldable pub send_without_queue :
      V.Dispatcher → Notification V → Rule E → Time → World V → World V
  unfolding send_now lowered
  send_without_queue d n r now w = send_now d (lowered n r) r now w

  unfoldable pub send_or_queue : V.Dispatcher → Notification V → Rule E → Time → World V → World V
  unfolding send_quiet send_without_queue send_now add_modifier_tag should_aggregate_quiet
  send_or_queue d n r now w =
      let (in_quiet, quiet_end) = effective_quiet_hours e.platform e.quiet_hours r now in
      let tagged = add_modifier_tag n "quiet-hours" in
      if not in_quiet then send_now d n r now w else elim w.queue [
        | none ↦ send_without_queue d tagged r now w
        | some db ↦ send_quiet tagged r quiet_end now w (should_aggregate_quiet e r now (some db))
      ]
