-- ===== src/Notification/Drain.antt =====
-- internal/notification/manager.go: `deliverQueuedNotification`, which `flushQueue` calls for the
-- first item that `DrainReady` returns. The dispatchers and the subscriptions are what the manager's
-- maps hold; `send` says whether a dispatcher's `Send` reports no error.
pub mod Outcomes
use dozzle_gaia_fork.Common.{
  ℕ, String, Bool, true, false, not, Option, none, some, if◌then◌else◌, is_some,
}
use dozzle_gaia_fork.Common.Int.{ℤ, pos, is_zero}
use dozzle_gaia_fork.Notification.Queue.{Db, state_of}
use dozzle_gaia_fork.Notification.Queue.Jobs.{QueuedNotification, mark_sent, mark_failed}
use dozzle_gaia_fork.Notification.Rule.{Expr, Rule}
use dozzle_gaia_fork.Notification.Schedule.{is_subscription_processable}
use dozzle_gaia_fork.Notification.Time.{Time}
use dozzle_gaia_fork.Notification.Types.{Values, Notification}

-- The part of `Manager` that the delivery reads, and the calls that leave the program. `weekday` is
-- the day in a time zone.
pub record Manager {V : Values} (E : Expr V) (D : Type 0) : Type 0 where
  pub cloud_dispatcher : Option D
  pub dispatchers : ℤ → Option D
  pub subscriptions : ℤ → Option (Rule E)
  pub weekday : String → Time → ℕ
  pub send : D → Notification V → Bool

module _ {V : Values} {E : Expr V} {D : Type 0} where
  unfoldable pub get_dispatcher : Manager E D → ℤ → Option D
  get_dispatcher m id = if is_zero id then m.cloud_dispatcher else m.dispatchers id

  unfoldable pub is_subscription_active : Manager E D → ℤ → Time → Bool
  is_subscription_active m id now = if is_zero id then true else elim (m.subscriptions id) [
    | none ↦ false
    | some r ↦ is_subscription_processable m.weekday r now
  ]

  module _ (fails : ℕ → Bool) where
    unfoldable pub deliver_queued_notification : Manager E D → QueuedNotification V → Time → Db → Db
    deliver_queued_notification m item now db = elim (get_dispatcher m item.dispatcher_id) [
      | none ↦ state_of (mark_failed fails item.id 3 now db)
      | some d ↦
          if not (is_subscription_active m item.notification.subscription.id now)
          then state_of (mark_sent fails item.id db)
          else (if m.send d item.notification
              then state_of (mark_sent fails item.id db)
              else state_of (mark_failed fails item.id item.attempts now db))
    ]
