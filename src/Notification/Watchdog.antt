-- ===== src/Notification/Watchdog.antt =====
-- internal/notification/types.go: the watchdog timers of a subscription. A timer that leaves the map
-- was stopped; one that fires stays in the map.
pub mod Laws
use dozzle_gaia_fork.Common.{String, Bool, true, false, Option, none, some, List, [], ◌∷◌, is_some}
use dozzle_gaia_fork.Common.Int.{ℤ, ◌+ℤ◌}
use dozzle_gaia_fork.Common.MapOps.{MapOps}
use dozzle_gaia_fork.Common.Outcome.{Outcome, ok, panic, ◌>>=◌, deref}
use dozzle_gaia_fork.Notification.Rule.{Expr}
use dozzle_gaia_fork.Notification.Subscription.{Subscription, Timer, Armed}
use dozzle_gaia_fork.Notification.Time.{Time, seconds}
use dozzle_gaia_fork.Notification.Types.{Values}

module _ {V : Values} {E : Expr V} {X : MapOps} where
  abbrev pub set_timers : Subscription E X → X.Map (Timer (Armed V)) → Subscription E X
  set_timers s m = record s { watchdog_timers = some m }

  -- `fire` is what the timer's function has captured.
  unfoldable pub reset_watchdog_timer :
      Subscription E X → String → Armed V → ℤ → Time → Outcome (Subscription E X)
  reset_watchdog_timer s id fire window now = do
    m ← deref s.watchdog_timers
    ok (set_timers s (X.store m id (record { deadline = now +ℤ seconds window; action = fire })))

  unfoldable pub cancel_watchdog_timer :
      Subscription E X → String → Outcome (Subscription E X × Bool)
  cancel_watchdog_timer s id = do
    m ← deref s.watchdog_timers
    ok (set_timers s (X.delete m id), is_some (X.load m id))

  -- The loop of `StopRuntime`.
  unfoldable pub cancel_all : List String → Subscription E X → Outcome (Subscription E X)
  unfolding cancel_watchdog_timer
  cancel_all [] s = ok s
  cancel_all (id ∷ ids) s = cancel_watchdog_timer s id >>= λ (s', _). cancel_all ids s'

  unfoldable pub stop_runtime : Subscription E X → Outcome (Subscription E X)
  unfolding cancel_all
  stop_runtime s = elim s.watchdog_timers [ none ↦ ok s | some m ↦ cancel_all (X.keys m) s ]
