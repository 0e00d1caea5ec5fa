-- ===== src/Notification/Processing.antt =====
-- internal/notification/processing.go: a hit of a rule, from the match to the notification. The
-- handlers of log lines, samples and container events differ in the `Hit` that they make of their
-- event; `now` is the clock, which one call reads once here.
pub mod Watchdogs
pub mod Logs
pub mod Keeps
pub mod LogSteps
pub mod Apart
pub mod Watched
pub mod Stats
pub mod RestartLoop
pub mod Events
use dozzle_gaia_fork.Common.{
  ℕ, ◌+◌, String, Bool, true, false, not, Option, none, some, [], ◌∷◌, if◌then◌else◌,
}
use dozzle_gaia_fork.Common.Int.{ℤ, pos, ◌+ℤ◌, is_pos}
use dozzle_gaia_fork.Common.MapOps.{MapOps}
use dozzle_gaia_fork.Common.Outcome.{Outcome, ok, panic, ◌>>=◌}
use dozzle_gaia_fork.Common.Text.{concat}
use dozzle_gaia_fork.Notification.Burst.{detect_burst}
use dozzle_gaia_fork.Notification.Drain.{get_dispatcher}
use dozzle_gaia_fork.Notification.Engine.{Engine, World}
use dozzle_gaia_fork.Notification.Modifiers.{
  apply_burst_modifier, apply_unique_modifier, evaluate_unique,
}
use dozzle_gaia_fork.Notification.Queue.{Db, state_of}
use dozzle_gaia_fork.Notification.Queue.States.{set_cooldown}
use dozzle_gaia_fork.Notification.QuietSummary.{
  should_aggregate_quiet, aggregate_quiet_notification, summary_notification,
}
use dozzle_gaia_fork.Notification.Rule.{Expr, Rule}
use dozzle_gaia_fork.Notification.Sending.{send_or_queue}
use dozzle_gaia_fork.Notification.Subscription.{Subscription, record_trigger}
use dozzle_gaia_fork.Notification.Time.{Time, seconds, clamp_cooldown_seconds}
use dozzle_gaia_fork.Notification.Types.{
  Values, Notification, NotificationType, NotificationContainer, SubscriptionConfig,
}
use dozzle_gaia_fork.Notification.Unique.{UniqueDecision}

-- The fields of the rule that every handler copies; the others stay empty.
abbrev pub base_config : {V : Values} {E : Expr V} → Rule E → ℤ → SubscriptionConfig
base_config r priority = record {
  id = r.id;
  name = r.name;
  enabled = r.enabled;
  dispatcher_id = r.dispatcher_id;
  log_expression = "";
  container_expression = r.container_expression;
  metric_expression = "";
  event_expression = "";
  cooldown = pos 0;
  sample_window = pos 0;
  ntfy_topic = r.ntfy_topic;
  ntfy_priority = priority;
  ntfy_tags = r.ntfy_tags;
  bypass_quiet_hours = r.bypass_quiet_hours;
  restart_loop_enabled = false;
  restart_loop_state_window = pos 0;
  restart_loop_event_count = pos 0;
  restart_loop_event_window = pos 0;
  restart_loop_cooldown = pos 0;
  restart_loop_trigger_message = "";
}

-- A notification without the event that it is about.
abbrev pub new_notification :
    {V : Values} {E : Expr V}
    → Rule E
    → SubscriptionConfig
    → NotificationType
    → String
    → String
    → NotificationContainer
    → ℤ
    → Time
    → Notification V
new_notification r config kind id detail c priority now = record {
  id = id;
  kind = kind;
  detail = detail;
  container = c;
  log = none;
  stat = none;
  event = none;
  subscription = config;
  timestamp = now;
  ntfy_topic = r.ntfy_topic;
  ntfy_priority = priority;
  ntfy_tags = r.ntfy_tags;
  context = [];
}

pub record Hit {V : Values} (E : Expr V) (X : MapOps) : Type 0 where
  pub kind : NotificationType
  pub container : NotificationContainer
  pub detail : String
  -- under which the counters of the container are kept, and the container that is recorded
  pub counted_id : String
  pub recorded_id : String
  pub notification_id : String
  -- the pointer to the event
  pub attach : Notification V → Notification V
  pub config : ℤ → SubscriptionConfig
  -- the cooldown: whether it runs, its start, and the key in the table
  pub is_cooling : Subscription E X → Outcome Bool
  pub start_cooldown : Subscription E X → Outcome (Subscription E X)
  pub cooldown_key : String

-- What a handler's function for one rule leaves: the rule and the manager's state.
abbrev pub Handled : {V : Values} → Expr V → MapOps → Type 0
Handled {V = V} E X = Outcome (Subscription E X × World V)

module _ {V : Values} {E : Expr V} {X : MapOps} (e : Engine E) where
  -- `if d, ok := m.getDispatcher(…); ok { m.sendOrQueue(d, notification, sub) }`
  unfoldable pub dispatch : Subscription E X → World V → Notification V → Time → World V
  unfolding send_or_queue
  dispatch s w n now = elim (get_dispatcher e.manager s.rule.dispatcher_id) [
    | none ↦ w
    | some d ↦ send_or_queue e d n s.rule now w
  ]

  -- A hit in quiet hours that group their alerts is counted in the summary. An error of the database
  -- is only reported.
  unfoldable pub summarise :
      Hit E X → Subscription E X → World V → Time → Subscription E X × World V
  unfolding summary_notification aggregate_quiet_notification record_trigger
  summarise h s w now = (
    record_trigger s h.recorded_id now,
    elim w.queue [
      | none ↦ w
      | some db ↦
          let n = h.attach (summary_notification e s.rule h.kind h.detail h.container now) in
          record w { queue = some (state_of (aggregate_quiet_notification e n s.rule now db)) }
    ],
  )

  -- `m.queue.SetCooldown(key, expiresAt)`, for a rule with a cooldown.
  unfoldable pub persist_cooldown : Hit E X → Subscription E X → World V → Time → World V
  persist_cooldown h s w now = if not (is_pos s.rule.cooldown) then w else elim w.queue [
    | none ↦ w
    | some db ↦
        let expires_at = now +ℤ seconds (clamp_cooldown_seconds s.rule.cooldown) in
        record w { queue = some (state_of (set_cooldown e.fails h.cooldown_key expires_at db)) }
  ]

  -- What the hit's notification says, once the burst counter has its priority.
  abbrev pub notification_of :
      Hit E X → Rule E → UniqueDecision → ℤ × Bool × ℕ → Time → Notification V
  notification_of h r unique (priority, escalated, count) now =
      let n =
        new_notification r (h.config priority) h.kind h.notification_id h.detail h.container
          priority now in
      apply_burst_modifier e.platform (apply_unique_modifier e.platform (h.attach n) unique) r
        escalated count

  -- The alert itself, after the cooldown.
  unfoldable pub alert :
      Hit E X → Subscription E X → World V → UniqueDecision → Time → Subscription E X × World V
  unfolding dispatch detect_burst apply_burst_modifier apply_unique_modifier record_trigger
  alert h s w unique now =
      let (s', burst) =
        detect_burst (record_trigger s h.recorded_id now) h.counted_id s.rule.ntfy_priority now in
      (s', dispatch s' w (notification_of h s'.rule unique burst now) now)

  -- A hit that is not counted in a summary.
  abbrev pub unless_cooling :
      Hit E X → Subscription E X → World V → UniqueDecision → Time → Outcome Bool → Handled E X
  unless_cooling h s w unique now panic = panic
  unless_cooling h s w unique now (ok true) = ok (s, w)
  unless_cooling h s w unique now (ok false) =
      h.start_cooldown s >>= λ s'. ok (alert h s' (persist_cooldown h s' w now) unique now)

  -- A hit that the unique filter lets through.
  abbrev pub allowed_hit :
      Hit E X → Subscription E X → World V → UniqueDecision → Time → Handled E X
  allowed_hit h s w unique now =
      let (grouping, queue) = should_aggregate_quiet e s.rule now w.queue in
      let w' = record w { queue = queue } in
      if grouping
      then ok (summarise h s w' now)
      else unless_cooling h s w' unique now (h.is_cooling s)

  -- What follows the call of `evaluateUnique`.
  abbrev pub after_unique :
      Hit E X → World V → Time → (Subscription E X × Option Db) × UniqueDecision → Handled E X
  after_unique h w now ((s, queue), unique) =
      let w' = record w { queue = queue } in
      if not unique.allowed then ok (s, w') else allowed_hit h s w' unique now

  unfoldable pub process_hit : Hit E X → Subscription E X → World V → Time → Handled E X
  unfolding summarise alert persist_cooldown should_aggregate_quiet evaluate_unique
  process_hit h s w now =
      evaluate_unique e s h.counted_id h.detail now w.queue >>= after_unique h w now
