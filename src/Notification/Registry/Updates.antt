-- ===== src/Notification/Registry/Updates.antt =====
-- internal/notification/manager.go: `UpdateSubscription`. An entry of `updates` whose value has the
-- type that the code asks for is a constructor; every other entry is `ignored`.
use dozzle_gaia_fork.Common.{String, Bool, Option, none, some, List, [], ◌∷◌, if◌then◌else◌}
use dozzle_gaia_fork.Common.Int.{ℤ}
use dozzle_gaia_fork.Common.MapOps.{MapOps}
use dozzle_gaia_fork.Common.Outcome.{Outcome, ok, panic}
use dozzle_gaia_fork.Common.Text.{is_empty}
use dozzle_gaia_fork.Notification.Compile.{
  CompileError, bad_container, bad_log, bad_metric, bad_event, bad_watchdog, Checked, good, bad,
  ◌>>=◌, compiled, compile_expressions,
}
use dozzle_gaia_fork.Notification.Registry.{Registry, lookup, put, store_rule, update_listeners}
use dozzle_gaia_fork.Notification.Rule.{Expr, Rule}
use dozzle_gaia_fork.Notification.Schedule.{normalize_delivery_days}
use dozzle_gaia_fork.Notification.Subscription.{Subscription, UniqueState}
use dozzle_gaia_fork.Notification.Time.{Time}
use dozzle_gaia_fork.Notification.Types.{Values}
use dozzle_gaia_fork.Notification.Watchdog.{stop_runtime}
use dozzle_gaia_fork.Utils.RingBuffer.{RingBuffer}

-- A field of the rule that is replaced, and nothing else.
pub data Setting : Type 0 where
  set_name : String → Setting
  set_ntfy_topic : String → Setting
  set_burst_ntfy_topic : String → Setting
  set_watchdog_trigger_message : String → Setting
  set_watchdog_clear_message : String → Setting
  set_restart_loop_trigger_message : String → Setting
  set_alert_quiet_start : String → Setting
  set_alert_quiet_end : String → Setting
  set_alert_quiet_timezone : String → Setting
  set_dispatcher_id : ℤ → Setting
  set_cooldown : ℤ → Setting
  set_ntfy_priority : ℤ → Setting
  set_quiet_priority : ℤ → Setting
  set_hold_clear_window : ℤ → Setting
  set_burst_count : ℤ → Setting
  set_burst_window : ℤ → Setting
  set_burst_priority : ℤ → Setting
  set_watchdog_window : ℤ → Setting
  set_watchdog_cooldown : ℤ → Setting
  set_restart_loop_state_window : ℤ → Setting
  set_restart_loop_event_count : ℤ → Setting
  set_restart_loop_event_window : ℤ → Setting
  set_restart_loop_cooldown : ℤ → Setting
  set_quiet_stack_threshold : ℤ → Setting
  set_quiet_stack_window : ℤ → Setting
  set_bypass_quiet_hours : Bool → Setting
  set_hold_during_quiet : Bool → Setting
  set_restart_loop_enabled : Bool → Setting
  set_alert_quiet_enabled : Bool → Setting
  set_ntfy_tags : List String → Setting

pub data Update : Type 0 where
  setting : Setting → Update
  alert_group_to : String → Update
  enabled_to : Bool → Update
  paused_until_to : Option Time → Update
  delivery_days_to : List String → Update
  container_expression_to : String → Update
  log_expression_to : String → Update
  metric_expression_to : String → Update
  event_expression_to : String → Update
  sample_window_to : ℤ → Update
  unique_key_regex_to : String → Update
  unique_window_to : ℤ → Update
  unique_threshold_to : ℤ → Update
  watchdog_pattern_to : String → Update
  ignored : Update

unfoldable pub apply_setting : {V : Values} {E : Expr V} → Setting → Rule E → Rule E
apply_setting (set_name x) r = record r { name = x }
apply_setting (set_ntfy_topic x) r = record r { ntfy_topic = x }
apply_setting (set_burst_ntfy_topic x) r = record r { burst_ntfy_topic = x }
apply_setting (set_watchdog_trigger_message x) r = record r { watchdog_trigger_message = x }
apply_setting (set_watchdog_clear_message x) r = record r { watchdog_clear_message = x }
apply_setting (set_restart_loop_trigger_message x) r = record r { restart_loop_trigger_message = x }
apply_setting (set_alert_quiet_start x) r = record r { alert_quiet_start = x }
apply_setting (set_alert_quiet_end x) r = record r { alert_quiet_end = x }
apply_setting (set_alert_quiet_timezone x) r = record r { alert_quiet_timezone = x }
apply_setting (set_dispatcher_id x) r = record r { dispatcher_id = x }
apply_setting (set_cooldown x) r = record r { cooldown = x }
apply_setting (set_ntfy_priority x) r = record r { ntfy_priority = x }
apply_setting (set_quiet_priority x) r = record r { quiet_priority = x }
apply_setting (set_hold_clear_window x) r = record r { hold_clear_window = x }
apply_setting (set_burst_count x) r = record r { burst_count = x }
apply_setting (set_burst_window x) r = record r { burst_window = x }
apply_setting (set_burst_priority x) r = record r { burst_priority = x }
apply_setting (set_watchdog_window x) r = record r { watchdog_window = x }
apply_setting (set_watchdog_cooldown x) r = record r { watchdog_cooldown = x }
apply_setting (set_restart_loop_state_window x) r = record r { restart_loop_state_window = x }
apply_setting (set_restart_loop_event_count x) r = record r { restart_loop_event_count = x }
apply_setting (set_restart_loop_event_window x) r = record r { restart_loop_event_window = x }
apply_setting (set_restart_loop_cooldown x) r = record r { restart_loop_cooldown = x }
apply_setting (set_quiet_stack_threshold x) r = record r { quiet_stack_threshold = x }
apply_setting (set_quiet_stack_window x) r = record r { quiet_stack_window = x }
apply_setting (set_bypass_quiet_hours x) r = record r { bypass_quiet_hours = x }
apply_setting (set_hold_during_quiet x) r = record r { hold_during_quiet = x }
apply_setting (set_restart_loop_enabled x) r = record r { restart_loop_enabled = x }
apply_setting (set_alert_quiet_enabled x) r = record r { alert_quiet_enabled = x }
apply_setting (set_ntfy_tags x) r = record r { ntfy_tags = x }

-- The error of an update.
pub data UpdateError : Type 0 where
  not_found : UpdateError
  not_compiled : CompileError → UpdateError

-- The two programs of a watchdog pattern, both of which have to compile.
abbrev with_pattern : {V : Values} {E : Expr V} → Rule E → String → Checked (Rule E)
with_pattern {E = E} r text = compiled bad_watchdog (E.compile_log text) (λ p. p) >>= λ p.
    compiled bad_watchdog (E.compile_event text) (λ q. record r {
      watchdog_pattern = text;
      watchdog_program = some p;
      watchdog_event_program = some q;
    })

module _ {V : Values} {E : Expr V} {X : MapOps} (fold : String → String) where
  abbrev with_rule : Subscription E X → Rule E → Subscription E X
  with_rule s r = record s { rule = r }

  abbrev with_new_unique : Subscription E X → Rule E → Subscription E X
  with_new_unique s r = record s { rule = r; unique_trackers = some (X.empty UniqueState) }

  -- One round of the loop over the updates; `fold` is `strings.ToLower(strings.TrimSpace(…))`.
  unfoldable pub apply_update : Update → Subscription E X → Checked (Subscription E X)
  unfolding apply_setting
  apply_update ignored s = good s
  apply_update (setting x) s = good (with_rule s (apply_setting x s.rule))
  apply_update (alert_group_to x) s =
      good (with_rule s (record s.rule { alert_group = E.trim_space x }))
  apply_update (enabled_to x) s = good (
      with_rule s
        (record s.rule { enabled = x; paused_until = if x then none else s.rule.paused_until }))
  apply_update (paused_until_to x) s = good (with_rule s (record s.rule { paused_until = x }))
  apply_update (delivery_days_to x) s =
      good (with_rule s (record s.rule { delivery_days = normalize_delivery_days fold x }))
  apply_update (container_expression_to x) s =
      compiled bad_container (E.compile_container x)
        (λ p. with_rule s (record s.rule { container_expression = x; container_program = some p }))
  apply_update (log_expression_to x) s =
      if is_empty x
      then good (with_rule s (record s.rule { log_expression = ""; log_program = none }))
      else compiled bad_log (E.compile_log x)
          (λ p. with_rule s (record s.rule { log_expression = x; log_program = some p }))
  apply_update (metric_expression_to x) s =
      if is_empty x
      then good (with_rule s (record s.rule { metric_expression = ""; metric_program = none }))
      else compiled bad_metric (E.compile_stat x)
          (λ p. with_rule s (record s.rule { metric_expression = x; metric_program = some p }))
  apply_update (event_expression_to x) s =
      if is_empty x
      then good (with_rule s (record s.rule { event_expression = ""; event_program = none }))
      else compiled bad_event (E.compile_event x)
          (λ p. with_rule s (record s.rule { event_expression = x; event_program = some p }))
  apply_update (sample_window_to x) s = good (record s {
    rule = record s.rule { sample_window = x };
    metric_sample_buffers = some (X.empty (RingBuffer Bool));
  })
  apply_update (unique_key_regex_to x) s =
      if is_empty x
      then good (with_new_unique s (record s.rule { unique_key_regex = ""; unique_regex = none }))
      else (compile_expressions (record s.rule { unique_key_regex = x }) >>= λ r.
          good (with_new_unique s r))
  apply_update (unique_window_to x) s =
      good (with_new_unique s (record s.rule { unique_window = x }))
  apply_update (unique_threshold_to x) s =
      good (with_new_unique s (record s.rule { unique_threshold = x }))
  apply_update (watchdog_pattern_to x) s =
      if is_empty x
      then good (
          with_rule s (record s.rule {
            watchdog_pattern = "";
            watchdog_program = none;
            watchdog_event_program = none;
          }))
      else (with_pattern s.rule x >>= λ r. good (with_rule s r))

  -- The loop, in the order in which the map of updates is visited.
  unfoldable pub apply_updates : List Update → Subscription E X → Checked (Subscription E X)
  unfolding apply_update
  apply_updates [] s = good s
  apply_updates (u ∷ us) s = apply_update u s >>= apply_updates us

  -- After the rule's watchdog timers are stopped, which its clone shares.
  abbrev pub finish_update :
      Registry E X
      → ℤ
      → Subscription E X
      → Checked (Subscription E X)
      → Registry E X × Option UpdateError
  finish_update m id stopped (bad err) =
      (record m { subscriptions = put id stopped m.subscriptions }, some (not_compiled err))
  finish_update m id stopped (good updated) = (store_rule m id updated, none)

  abbrev pub update_found :
      Registry E X
      → ℤ
      → List Update
      → Outcome (Subscription E X)
      → Outcome (Registry E X × Option UpdateError)
  update_found m id us panic = panic
  update_found m id us (ok stopped) = ok (finish_update m id stopped (apply_updates us stopped))

  unfoldable pub update_subscription :
      Registry E X → ℤ → List Update → Outcome (Registry E X × Option UpdateError)
  unfolding apply_updates stop_runtime update_listeners
  update_subscription m id us = elim (lookup id m.subscriptions) [
    | none ↦ ok (m, some not_found)
    | some s ↦ update_found m id us (stop_runtime s)
  ]
