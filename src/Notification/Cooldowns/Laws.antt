-- ===== src/Notification/Cooldowns/Laws.antt =====
-- What the cooldowns of internal/notification/types.go promise: a container's alert is held back
-- for the clamped cooldown after it was sent, and no other container's is.
use dozzle_gaia_fork.Common.{String, Bool, false, some, ◌≡◌, arith, if◌then◌else◌}
use dozzle_gaia_fork.Common.Int.{ℤ, ◌+ℤ◌, is_zero}
use dozzle_gaia_fork.Common.MapOps.{MapOps}
use dozzle_gaia_fork.Common.Outcome.{ok, ◌>>=◌}
use dozzle_gaia_fork.Common.Text.{str_eq}
use dozzle_gaia_fork.Notification.Cooldowns.{
  is_event_cooldown_active, set_event_cooldown, is_metric_cooldown_active, set_metric_cooldown,
  is_log_cooldown_active, set_log_cooldown, is_watchdog_cooldown_active, set_watchdog_cooldown,
  is_restart_loop_cooldown_active, set_restart_loop_cooldown,
}
use dozzle_gaia_fork.Notification.Rule.{Expr}
use dozzle_gaia_fork.Notification.Subscription.{Subscription}
use dozzle_gaia_fork.Notification.Time.{Time, before, seconds, clamp_cooldown_seconds}
use dozzle_gaia_fork.Notification.Types.{Values}

-- When a cooldown that started at `last` is over, for a rule with that cooldown.
abbrev pub cooling : ℤ → Time → Time → Bool
cooling cooldown last now =
    if is_zero cooldown
    then false
    else before now (last +ℤ seconds (clamp_cooldown_seconds cooldown))

module _ {V : Values} {E : Expr V} {X : MapOps} (s : Subscription E X) (id : String)
    (t : Time) where
  -- After `SetLogCooldown` at `t`, the container is held back exactly while the clamped cooldown
  -- has not passed since `t`, whatever its clock said before; every other container as before.
  pub is_log_cooldown_active-set_log_cooldown :
      (m : X.Map Time) (j : String) (now : Time)
      → s.log_cooldowns ≡ some m
      → is_log_cooldown_active (set_log_cooldown s id t) j now
        ≡ (if str_eq id j then cooling s.rule.cooldown t now else is_log_cooldown_active s j now)
  unfolding is_log_cooldown_active set_log_cooldown
  is_log_cooldown_active-set_log_cooldown m j now e = ground (arith, X.load-store m id j t)

  -- The same for the watchdog's own cooldown.
  pub is_watchdog_cooldown_active-set_watchdog_cooldown :
      (m : X.Map Time) (j : String) (now : Time)
      → s.watchdog_cooldowns ≡ some m
      → is_watchdog_cooldown_active (set_watchdog_cooldown s id t) j now ≡ (
          if str_eq id j
          then cooling s.rule.watchdog_cooldown t now
          else is_watchdog_cooldown_active s j now)
  unfolding is_watchdog_cooldown_active set_watchdog_cooldown
  is_watchdog_cooldown_active-set_watchdog_cooldown m j now e =
      ground (arith, X.load-store m id j t)

  -- The same for the restart loop's own cooldown.
  pub is_restart_loop_cooldown_active-set_restart_loop_cooldown :
      (m : X.Map Time) (j : String) (now : Time)
      → s.restart_loop_cooldowns ≡ some m
      → is_restart_loop_cooldown_active (set_restart_loop_cooldown s id t) j now ≡ (
          if str_eq id j
          then cooling s.rule.restart_loop_cooldown t now
          else is_restart_loop_cooldown_active s j now)
  unfolding is_restart_loop_cooldown_active set_restart_loop_cooldown
  is_restart_loop_cooldown_active-set_restart_loop_cooldown m j now e =
      ground (arith, X.load-store m id j t)

  -- The metric and the event cooldown: with the maps in place neither call panics, and the
  -- container is held back exactly while the clamped cooldown has not passed since `t`; every
  -- other container as before.
  pub is_event_cooldown_active-set_event_cooldown :
      (m : X.Map Time) (j : String) (now : Time)
      → s.event_cooldowns ≡ some m
      → (set_event_cooldown s id t >>= λ s'. is_event_cooldown_active s' j now) ≡ (
          if str_eq id j
          then ok (cooling s.rule.cooldown t now)
          else is_event_cooldown_active s j now)
  unfolding is_event_cooldown_active set_event_cooldown
  is_event_cooldown_active-set_event_cooldown m j now e = ground (arith, X.load-store m id j t)

  pub is_metric_cooldown_active-set_metric_cooldown :
      (m : X.Map Time) (j : String) (now : Time)
      → s.metric_cooldowns ≡ some m
      → (set_metric_cooldown s id t >>= λ s'. is_metric_cooldown_active s' j now) ≡ (
          if str_eq id j
          then ok (cooling s.rule.cooldown t now)
          else is_metric_cooldown_active s j now)
  unfolding is_metric_cooldown_active set_metric_cooldown
  is_metric_cooldown_active-set_metric_cooldown m j now e = ground (arith, X.load-store m id j t)
