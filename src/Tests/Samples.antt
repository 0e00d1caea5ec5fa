-- ===== src/Tests/Samples.antt =====
-- Test data: a stand-in for the libraries, a rule and a subscription.
use dozzle_gaia_fork.Common.{ℕ, Bool, true, false, none, some, [], ◌∷◌, if◌then◌else◌}
use dozzle_gaia_fork.Common.Int.{pos}
use dozzle_gaia_fork.Common.Text.{str_eq}
use dozzle_gaia_fork.Common.MapOps.{assoc_map}
use dozzle_gaia_fork.Notification.Rule.{Expr, Rule, boolean}
use dozzle_gaia_fork.Notification.Subscription.{Subscription}
use dozzle_gaia_fork.Notification.Types.{Values}

abbrev pub values : Values
values = record { Float = ℕ; Object = ℕ; Dispatcher = ℕ }

-- A program is the answer that it gives.
abbrev pub expr : Expr values
expr = record {
  Program = Bool;
  run_container = λ p _. boolean p;
  run_log = λ p _. boolean p;
  run_stat = λ p _. boolean p;
  run_event = λ p _. boolean p;
  Regexp = Unit {0};
  find_string_submatch = λ _ s. s ∷ [];
  trim_space = λ s. s;
  compile_container = λ s. some true;
  compile_log = λ s. some true;
  compile_stat = λ s. some true;
  compile_event = λ s. if str_eq s "(" then none else some true;
  compile_regexp = λ s. some tt;
}

abbrev pub rule : Rule expr
rule = record {
  id = pos 1;
  name = "disk full";
  alert_group = "";
  enabled = true;
  dispatcher_id = pos 7;
  log_expression = "message contains 'full'";
  container_expression = "true";
  metric_expression = "";
  event_expression = "";
  cooldown = pos 60;
  sample_window = pos 5;
  paused_until = none;
  delivery_days = [];
  ntfy_topic = "alerts";
  ntfy_priority = pos 3;
  ntfy_tags = [];
  bypass_quiet_hours = false;
  quiet_priority = pos 0;
  hold_during_quiet = false;
  hold_clear_window = pos 0;
  burst_count = pos 3;
  burst_window = pos 10;
  burst_priority = pos 5;
  burst_ntfy_topic = "urgent";
  unique_key_regex = "";
  unique_window = pos 60;
  unique_threshold = pos 2;
  watchdog_pattern = "";
  watchdog_window = pos 0;
  watchdog_cooldown = pos 30;
  watchdog_trigger_message = "";
  watchdog_clear_message = "";
  restart_loop_enabled = false;
  restart_loop_state_window = pos 0;
  restart_loop_event_count = pos 0;
  restart_loop_event_window = pos 0;
  restart_loop_cooldown = pos 30;
  restart_loop_trigger_message = "";
  alert_quiet_enabled = false;
  alert_quiet_start = "";
  alert_quiet_end = "";
  alert_quiet_timezone = "";
  quiet_stack_threshold = pos 0;
  quiet_stack_window = pos 0;
  log_program = some true;
  container_program = some true;
  metric_program = none;
  event_program = none;
  watchdog_program = none;
  watchdog_event_program = none;
  unique_regex = some tt;
}

-- A subscription as `AddSubscription` starts it, with the in-memory tracker that a loaded one has.
abbrev pub subscription : Subscription expr assoc_map
subscription = record {
  rule = rule;
  trigger_count = 0;
  last_triggered_at = none;
  triggered_container_ids = none;
  metric_cooldowns = some [];
  event_cooldowns = some [];
  log_cooldowns = some [];
  metric_sample_buffers = some [];
  burst_trackers = some [];
  unique_trackers = some [];
  watchdog_timers = some [];
  watchdog_cooldowns = some [];
  restart_loop_timers = some [];
  restart_loop_cooldowns = some [];
  restart_loop_first_seen_at = some [];
  restart_loop_restart_streaks = some [];
}
