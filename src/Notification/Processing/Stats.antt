-- ===== src/Notification/Processing/Stats.antt =====
-- internal/notification/processing.go: `processStatEvent`, a sample of a container's resources.
use dozzle_gaia_fork.Common.{String, not, ◌||◌, some, List, [], ◌∷◌, if◌then◌else◌}
use dozzle_gaia_fork.Common.MapOps.{MapOps}
use dozzle_gaia_fork.Common.Outcome.{Outcome, ok, ◌>>=◌}
use dozzle_gaia_fork.Common.Text.{concat}
use dozzle_gaia_fork.Notification.Cooldowns.{is_metric_cooldown_active, set_metric_cooldown}
use dozzle_gaia_fork.Notification.Engine.{Engine, World}
use dozzle_gaia_fork.Notification.Processing.{Handled, Hit, base_config, process_hit}
use dozzle_gaia_fork.Notification.Rule.{
  Expr, Rule, is_metric_alert, matches_container, matches_metric,
}
use dozzle_gaia_fork.Notification.Samples.{record_metric_sample}
use dozzle_gaia_fork.Notification.Schedule.{is_subscription_processable}
use dozzle_gaia_fork.Notification.Sources.{
  Container, Host, ContainerStat, from_container_model, notification_stat,
}
use dozzle_gaia_fork.Notification.Subscription.{Subscription}
use dozzle_gaia_fork.Notification.Time.{Time}
use dozzle_gaia_fork.Notification.Types.{
  Values, NotificationType, NotificationContainer, NotificationStat,
}

module _ {V : Values} {E : Expr V} {X : MapOps} (e : Engine E) where
  abbrev pub stat_hit :
      Rule E → String → NotificationContainer → NotificationStat V → Time → Hit E X
  stat_hit r id c st now = record {
    kind = NotificationType.metric;
    container = c;
    detail = concat (
        "CPU: "
        ∷ e.platform.one_decimal st.cpu_percent
        ∷ "%, Memory: "
        ∷ e.platform.one_decimal st.memory_percent
        ∷ "%"
        ∷ []);
    counted_id = id;
    recorded_id = id;
    notification_id = concat (id ∷ "-metric-" ∷ e.platform.unix_nano_decimal now ∷ []);
    attach = λ n. record n { stat = some st };
    config = λ priority. record (base_config r priority) {
      metric_expression = r.metric_expression;
      cooldown = r.cooldown;
      sample_window = r.sample_window;
    };
    is_cooling = λ s. is_metric_cooldown_active s id now;
    start_cooldown = λ s. set_metric_cooldown s id now;
    cooldown_key = concat (e.platform.decimal r.id ∷ ":" ∷ id ∷ ":metric" ∷ []);
  }

  -- The function that is called for each rule.
  unfoldable pub on_stat :
      Subscription E X
      → World V
      → String
      → NotificationContainer
      → NotificationStat V
      → Time
      → Handled E X
  unfolding record_metric_sample process_hit is_metric_cooldown_active set_metric_cooldown
  on_stat s w id c st now =
      if not (is_subscription_processable e.manager.weekday s.rule now)
        || not (is_metric_alert s.rule)
      then ok (s, w)
      else if not (matches_container s.rule c)
      then ok (s, w)
      else do
        (s', fires) ← record_metric_sample s id (matches_metric s.rule st)
        if not fires then ok (s', w) else process_hit e (stat_hit s'.rule id c st now) s' w now

  -- `m.subscriptions.Range`, in the order in which the map is visited.
  unfoldable pub on_stat_all :
      List (Subscription E X)
      → World V
      → String
      → NotificationContainer
      → NotificationStat V
      → Time
      → Outcome (List (Subscription E X) × World V)
  unfolding on_stat
  on_stat_all [] w id c st now = ok ([], w)
  on_stat_all (s ∷ ss) w id c st now = do
    (s', w1) ← on_stat s w id c st now
    (ss', w2) ← on_stat_all ss w1 id c st now
    ok (s' ∷ ss', w2)

  unfoldable pub process_stat_event :
      Container V
      → Host
      → ContainerStat V
      → List (Subscription E X)
      → World V
      → Time
      → Outcome (List (Subscription E X) × World V)
  unfolding on_stat_all notification_stat from_container_model
  process_stat_event c host stat ss w now =
      on_stat_all ss w stat.id (from_container_model c host)
        (notification_stat e.platform c host stat) now
