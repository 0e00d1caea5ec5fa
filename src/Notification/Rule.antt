-- ===== src/Notification/Rule.antt =====
-- internal/notification/types.go: the configured part of `Subscription`, and the library of
-- expressions, expr-lang/expr, that its filters are compiled by.
use dozzle_gaia_fork.Common.{
  String, Bool, true, false, not, ◌&&◌, Option, none, some, List, is_some, if◌then◌else◌,
}
use dozzle_gaia_fork.Common.Int.{ℤ}
use dozzle_gaia_fork.Common.Text.{is_empty}
use dozzle_gaia_fork.Notification.Time.{Time, before}
use dozzle_gaia_fork.Notification.Types.{
  Values, NotificationContainer, NotificationLog, NotificationStat, NotificationEvent,
}

-- What `expr.Run` returns: a Boolean, another value, or an error.
pub data Evaluated : Type 0 where
  boolean : Bool → Evaluated
  other failed : Evaluated

-- expr-lang/expr and regexp, with the results of `FindStringSubmatch` and `strings.TrimSpace`.
pub record Expr (V : Values) : Type 1 where
  pub Program : Type 0
  pub run_container : Program → NotificationContainer → Evaluated
  pub run_log : Program → NotificationLog V → Evaluated
  pub run_stat : Program → NotificationStat V → Evaluated
  pub run_event : Program → NotificationEvent → Evaluated
  pub Regexp : Type 0
  pub find_string_submatch : Regexp → String → List String
  pub trim_space : String → String
  -- `expr.Compile` for each of the four types, and `regexp.Compile`
  pub compile_container : String → Option Program
  pub compile_log : String → Option Program
  pub compile_stat : String → Option Program
  pub compile_event : String → Option Program
  pub compile_regexp : String → Option Regexp

pub record Rule {V : Values} (E : Expr V) : Type 0 where
  pub id : ℤ
  pub name : String
  pub alert_group : String
  pub enabled : Bool
  pub dispatcher_id : ℤ
  pub log_expression : String
  pub container_expression : String
  pub metric_expression : String
  pub event_expression : String
  pub cooldown : ℤ
  pub sample_window : ℤ
  pub paused_until : Option Time
  pub delivery_days : List String
  pub ntfy_topic : String
  pub ntfy_priority : ℤ
  pub ntfy_tags : List String
  pub bypass_quiet_hours : Bool
  pub quiet_priority : ℤ
  pub hold_during_quiet : Bool
  pub hold_clear_window : ℤ
  pub burst_count : ℤ
  pub burst_window : ℤ
  pub burst_priority : ℤ
  pub burst_ntfy_topic : String
  pub unique_key_regex : String
  pub unique_window : ℤ
  pub unique_threshold : ℤ
  pub watchdog_pattern : String
  pub watchdog_window : ℤ
  pub watchdog_cooldown : ℤ
  pub watchdog_trigger_message : String
  pub watchdog_clear_message : String
  pub restart_loop_enabled : Bool
  pub restart_loop_state_window : ℤ
  pub restart_loop_event_count : ℤ
  pub restart_loop_event_window : ℤ
  pub restart_loop_cooldown : ℤ
  pub restart_loop_trigger_message : String
  pub alert_quiet_enabled : Bool
  pub alert_quiet_start : String
  pub alert_quiet_end : String
  pub alert_quiet_timezone : String
  pub quiet_stack_threshold : ℤ
  pub quiet_stack_window : ℤ
  pub log_program : Option E.Program
  pub container_program : Option E.Program
  pub metric_program : Option E.Program
  pub event_program : Option E.Program
  pub watchdog_program : Option E.Program
  pub watchdog_event_program : Option E.Program
  pub unique_regex : Option E.Regexp

-- `match, ok := result.(bool); return ok && match`, false also on an error
abbrev pub holds : Evaluated → Bool
holds (boolean b) = b
holds other = false
holds failed = false

module _ {V : Values} {E : Expr V} (r : Rule E) where
  unfoldable pub matches_container : NotificationContainer → Bool
  matches_container c = elim r.container_program [
    | none ↦ false
    | some p ↦ holds (E.run_container p c)
  ]

  unfoldable pub matches_log : NotificationLog V → Bool
  matches_log l = elim r.log_program [ none ↦ false | some p ↦ holds (E.run_log p l) ]

  unfoldable pub matches_metric : NotificationStat V → Bool
  matches_metric s = elim r.metric_program [ none ↦ false | some p ↦ holds (E.run_stat p s) ]

  unfoldable pub matches_event : NotificationEvent → Bool
  matches_event e = elim r.event_program [ none ↦ false | some p ↦ holds (E.run_event p e) ]

  unfoldable pub matches_watchdog : NotificationLog V → Bool
  matches_watchdog l = elim r.watchdog_program [ none ↦ false | some p ↦ holds (E.run_log p l) ]

  unfoldable pub matches_watchdog_event : NotificationEvent → Bool
  matches_watchdog_event e = elim r.watchdog_event_program [
    | none ↦ false
    | some p ↦ holds (E.run_event p e)
  ]

  unfoldable pub is_log_alert : Bool
  is_log_alert = not (is_empty r.log_expression) && is_some r.log_program

  unfoldable pub is_metric_alert : Bool
  is_metric_alert = not (is_empty r.metric_expression) && is_some r.metric_program

  unfoldable pub is_event_alert : Bool
  is_event_alert = not (is_empty r.event_expression) && is_some r.event_program

  unfoldable pub is_paused : Time → Bool
  is_paused now =
      if not r.enabled
      then true
      else elim r.paused_until [ none ↦ false | some until ↦ before now until ]
