-- ===== src/Notification/Cooldowns.antt =====
-- internal/notification/types.go: the cooldowns of a rule, one clock for each container. `now` is
-- the value of `time.Now()` in the call.
pub mod Laws
use dozzle_gaia_fork.Common.{
  String, Bool, true, false, ◌||◌, Option, none, some, is_some, not, if◌then◌else◌,
}
use dozzle_gaia_fork.Common.Int.{ℤ, pos, ◌+ℤ◌, is_zero}
use dozzle_gaia_fork.Common.MapOps.{MapOps}
use dozzle_gaia_fork.Common.Outcome.{Outcome, ok, panic, ◌>>=◌, deref}
use dozzle_gaia_fork.Notification.Rule.{Expr}
use dozzle_gaia_fork.Notification.Subscription.{Subscription}
use dozzle_gaia_fork.Notification.Time.{Time, before, seconds, clamp_cooldown_seconds}
use dozzle_gaia_fork.Notification.Types.{Values}

-- The test that every `Is…CooldownActive` ends with, at the time that its map holds.
unfoldable pub still_cooling : ℤ → Option Time → Time → Bool
still_cooling cooldown none now = false
still_cooling cooldown (some last) now =
    before now (last +ℤ seconds (clamp_cooldown_seconds cooldown))

module _ {V : Values} {E : Expr V} {X : MapOps} where
  unfoldable pub is_event_cooldown_active : Subscription E X → String → Time → Outcome Bool
  unfolding still_cooling
  is_event_cooldown_active s id now =
      if is_zero s.rule.cooldown
      then ok false
      else do m ← deref s.event_cooldowns; ok (still_cooling s.rule.cooldown (X.load m id) now)

  unfoldable pub set_event_cooldown : Subscription E X → String → Time → Outcome (Subscription E X)
  set_event_cooldown s id now = do
    m ← deref s.event_cooldowns
    ok (record s { event_cooldowns = some (X.store m id now) })

  unfoldable pub is_metric_cooldown_active : Subscription E X → String → Time → Outcome Bool
  unfolding still_cooling
  is_metric_cooldown_active s id now =
      if is_zero s.rule.cooldown
      then ok false
      else do m ← deref s.metric_cooldowns; ok (still_cooling s.rule.cooldown (X.load m id) now)

  unfoldable pub set_metric_cooldown : Subscription E X → String → Time → Outcome (Subscription E X)
  set_metric_cooldown s id now = do
    m ← deref s.metric_cooldowns
    ok (record s { metric_cooldowns = some (X.store m id now) })

  unfoldable pub is_log_cooldown_active : Subscription E X → String → Time → Bool
  unfolding still_cooling
  is_log_cooldown_active s id now =
      if is_zero s.rule.cooldown then false else elim s.log_cooldowns [
        | none ↦ false
        | some m ↦ still_cooling s.rule.cooldown (X.load m id) now
      ]

  unfoldable pub set_log_cooldown : Subscription E X → String → Time → Subscription E X
  set_log_cooldown s id now = elim s.log_cooldowns [
    | none ↦ s
    | some m ↦ record s { log_cooldowns = some (X.store m id now) }
  ]

  unfoldable pub is_watchdog_cooldown_active : Subscription E X → String → Time → Bool
  unfolding still_cooling
  is_watchdog_cooldown_active s id now =
      if is_zero s.rule.watchdog_cooldown then false else elim s.watchdog_cooldowns [
        | none ↦ false
        | some m ↦ still_cooling s.rule.watchdog_cooldown (X.load m id) now
      ]

  unfoldable pub set_watchdog_cooldown : Subscription E X → String → Time → Subscription E X
  set_watchdog_cooldown s id now = elim s.watchdog_cooldowns [
    | none ↦ s
    | some m ↦ record s { watchdog_cooldowns = some (X.store m id now) }
  ]

  unfoldable pub is_restart_loop_cooldown_active : Subscription E X → String → Time → Bool
  unfolding still_cooling
  is_restart_loop_cooldown_active s id now =
      if is_zero s.rule.restart_loop_cooldown then false else elim s.restart_loop_cooldowns [
        | none ↦ false
        | some m ↦ still_cooling s.rule.restart_loop_cooldown (X.load m id) now
      ]

  unfoldable pub set_restart_loop_cooldown : Subscription E X → String → Time → Subscription E X
  set_restart_loop_cooldown s id now = elim s.restart_loop_cooldowns [
    | none ↦ s
    | some m ↦ record s { restart_loop_cooldowns = some (X.store m id now) }
  ]
