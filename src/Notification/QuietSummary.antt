-- ===== src/Notification/QuietSummary.antt =====
-- internal/notification/quiet_summary.go: the hits of a rule in quiet hours, counted in groups of
-- like messages, one summary for each rule, container and period.
pub mod Render
pub mod Counts
pub mod Shows
use dozzle_gaia_fork.Common.{
  ℕ, suc, ◌+◌, ◌-◌, ◌==◌, String, Bool, true, false, not, Option, none, some, List, [], ◌∷◌, ltb,
  leb, length, if◌then◌else◌,
}
use dozzle_gaia_fork.Common.Int.{ℤ, pos, negsuc, ◌+ℤ◌, ◌-ℤ◌, is_zero}
use dozzle_gaia_fork.Common.Text.{is_empty, str_eq, concat}
use dozzle_gaia_fork.Notification.Engine.{QuietSummaryGroup, Engine}
use dozzle_gaia_fork.Notification.Platform.{Platform, resolve_location}
use dozzle_gaia_fork.Notification.Queue.{Db, Reply, done, failed, ◌>>=◌}
use dozzle_gaia_fork.Notification.Queue.Quiet.{
  QuietSummary, get_quiet_summary, upsert_quiet_summary, quiet_period_grouping,
}
use dozzle_gaia_fork.Notification.QuietHours.{
  QuietHoursConfig, grouping_enabled, time_today, effective_quiet_hours,
}
use dozzle_gaia_fork.Notification.Rule.{Expr, Rule}
use dozzle_gaia_fork.Notification.Time.{Time, before, zero_time}
use dozzle_gaia_fork.Notification.Types.{
  Values, Notification, NotificationType, NotificationContainer,
}

abbrev max_quiet_summary_example : ℕ
max_quiet_summary_example = 1000

-- The loop over the groups, with the group that it appends where it finds none.
unfoldable pub count_hit : String → String → Time → List QuietSummaryGroup → List QuietSummaryGroup
count_hit fp example now [] =
    record {
      fingerprint = fp;
      count = 1;
      first_seen = now;
      last_seen = now;
      first_example = example;
      last_example = example;
    }
    ∷ []
count_hit fp example now (g ∷ gs) =
    let rest = count_hit fp example now gs in
    if str_eq g.fingerprint fp
    then record g { count = g.count + 1; last_seen = now; last_example = example } ∷ gs
    else g ∷ rest

pub record Period (L : Type 0) : Type 0 where
  pub start : Time
  pub finish : Time
  pub zone : L

module _ {V : Values} (P : Platform V) where
  unfoldable pub normalize_quiet_summary_text : String → String
  normalize_quiet_summary_text text = P.single_spaced (P.trim_space (P.without_values text))

  unfoldable pub truncate_quiet_example : String → String
  truncate_quiet_example text =
      let t = P.trim_space text in
      if leb (P.byte_length t) max_quiet_summary_example
      then t
      else concat (P.byte_prefix (max_quiet_summary_example - 3) t ∷ "..." ∷ [])

  unfoldable pub quiet_summary_fingerprint : String → String
  unfolding normalize_quiet_summary_text
  quiet_summary_fingerprint text = P.sha256_hex (normalize_quiet_summary_text text)

  -- The rest of `quietSummaryPeriod`, once the window is chosen.
  unfoldable pub period_of : String → String → String → Time → Period P.Location
  unfolding resolve_location
  period_of start finish timezone now =
      let loc = resolve_location P timezone in
      let today = time_today P loc finish now in
      let ends = if not (before now today) then P.add_days loc today (pos 1) else today in
      let begins = time_today P loc start ends in
      record {
        start = if not (before begins ends) then P.add_days loc begins (negsuc 0) else begins;
        finish = ends;
        zone = loc;
      }

module _ {V : Values} {E : Expr V} (e : Engine E) where
  unfoldable pub quiet_summary_period : Rule E → Time → Period e.platform.Location
  unfolding period_of
  quiet_summary_period r now =
      if r.alert_quiet_enabled
      then period_of e.platform r.alert_quiet_start r.alert_quiet_end r.alert_quiet_timezone now
      else period_of e.platform e.quiet_hours.start e.quiet_hours.finish e.quiet_hours.timezone now

  abbrev pub summary_key : Notification V → Rule E → Period e.platform.Location → String
  summary_key n r p = concat (
      e.platform.decimal r.id
      ∷ ":"
      ∷ n.container.host_name
      ∷ ":"
      ∷ n.container.id
      ∷ ":"
      ∷ e.platform.unix_decimal p.start
      ∷ [])

  -- The summary that was found, or the one that the source starts.
  abbrev pub summary_or_new :
      Notification V
      → Rule E
      → Period e.platform.Location
      → Option (QuietSummary V)
      → QuietSummary V
  summary_or_new n r p none = record {
    key = summary_key n r p;
    subscription_id = r.id;
    dispatcher_id = r.dispatcher_id;
    period_start = p.start;
    period_end = p.finish;
    timezone = e.platform.location_name p.zone;
    notification = n;
    groups_json = "";
    total_count = pos 0;
    updated_at = zero_time;
  }
  summary_or_new n r p (some s) = s

  abbrev pub groups_of : QuietSummary V → List QuietSummaryGroup
  groups_of s = if is_empty s.groups_json then [] else e.group_codec.unmarshal s.groups_json

  unfoldable pub add_hit : QuietSummary V → Notification V → Rule E → Time → QuietSummary V
  unfolding truncate_quiet_example quiet_summary_fingerprint count_hit
  add_hit s n r now = record s {
    total_count = s.total_count +ℤ pos 1;
    notification = record n {
      ntfy_topic = r.ntfy_topic;
      ntfy_priority = r.ntfy_priority;
      ntfy_tags = r.ntfy_tags;
    };
    groups_json = e.group_codec.marshal (
        count_hit (quiet_summary_fingerprint e.platform n.detail)
          (truncate_quiet_example e.platform n.detail) now (groups_of s));
  }

  abbrev pub hit_time : Notification V → Time → Time
  hit_time n now = if is_zero n.timestamp then now else n.timestamp

  unfoldable pub aggregate_quiet_notification :
      Notification V → Rule E → Time → Db → Reply (Unit {0})
  unfolding quiet_summary_period add_hit
  aggregate_quiet_notification n r now db =
      let p = quiet_summary_period r (hit_time n now) in
      get_quiet_summary e.codec e.fails (summary_key n r p) db >>= λ found d.
      upsert_quiet_summary e.codec e.fails
        (add_hit (summary_or_new n r p found) n r (hit_time n now)) now d

  -- The answer of the query, or the default where it failed.
  abbrev pub answer_or : Bool → Reply Bool → Bool × Option Db
  answer_or b (done a db) = (a, some db)
  answer_or b (failed db) = (b, some db)

  unfoldable pub should_aggregate_quiet : Rule E → Time → Option Db → Bool × Option Db
  unfolding effective_quiet_hours quiet_summary_period grouping_enabled
  should_aggregate_quiet r now none = (false, none)
  should_aggregate_quiet r now (some db) =
      let p = quiet_summary_period r now in
      let key = concat (e.platform.decimal r.id ∷ ":" ∷ e.platform.unix_decimal p.start ∷ []) in
      let grouping = grouping_enabled e.quiet_hours in
      if r.bypass_quiet_hours
      then (false, some db)
      else if not (effective_quiet_hours e.platform e.quiet_hours r now).0
      then (false, some db)
      else answer_or grouping (quiet_period_grouping e.fails key p.finish grouping db)

  unfoldable pub summary_notification :
      Rule E → NotificationType → String → NotificationContainer → Time → Notification V
  summary_notification r kind detail c now = record {
    id = concat (c.id ∷ "-quiet-hit-" ∷ e.platform.unix_nano_decimal now ∷ []);
    kind = kind;
    detail = detail;
    container = c;
    log = none;
    stat = none;
    event = none;
    subscription = record {
      id = r.id;
      name = r.name;
      enabled = false;
      dispatcher_id = r.dispatcher_id;
      log_expression = "";
      container_expression = "";
      metric_expression = "";
      event_expression = "";
      cooldown = pos 0;
      sample_window = pos 0;
      ntfy_topic = r.ntfy_topic;
      ntfy_priority = r.ntfy_priority;
      ntfy_tags = r.ntfy_tags;
      bypass_quiet_hours = r.bypass_quiet_hours;
      restart_loop_enabled = false;
      restart_loop_state_window = pos 0;
      restart_loop_event_count = pos 0;
      restart_loop_event_window = pos 0;
      restart_loop_cooldown = pos 0;
      restart_loop_trigger_message = "";
    };
    timestamp = now;
    ntfy_topic = r.ntfy_topic;
    ntfy_priority = r.ntfy_priority;
    ntfy_tags = r.ntfy_tags;
    context = [];
  }
