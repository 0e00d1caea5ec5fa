-- ===== src/Notification/Engine.antt =====
-- internal/notification/manager.go: what the handlers of one event work with. The manager's maps of
-- rules and dispatchers, its quiet hours and the libraries do not change while one runs; the queue
-- does, and so does the list of the notifications for which `sendWithRetry` was started.
use dozzle_gaia_fork.Common.{ℕ, Bool, String, Option, List}
use dozzle_gaia_fork.Common.Int.{ℤ}
use dozzle_gaia_fork.Notification.Drain.{Manager}
use dozzle_gaia_fork.Notification.Platform.{Platform}
use dozzle_gaia_fork.Notification.Queue.{Db, Codec}
use dozzle_gaia_fork.Notification.QuietHours.{QuietHoursConfig}
use dozzle_gaia_fork.Notification.Rule.{Expr}
use dozzle_gaia_fork.Notification.Time.{Time}
use dozzle_gaia_fork.Notification.Types.{Values, Notification}

-- internal/notification/quiet_summary.go. Counts are read from the table, where they are never
-- negative.
pub record QuietSummaryGroup : Type 0 where
  pub fingerprint : String
  pub count : ℕ
  pub first_seen : Time
  pub last_seen : Time
  pub first_example : String
  pub last_example : String

-- `json.Marshal` and `json.Unmarshal` of the groups, whose errors the source ignores.
pub record GroupCodec : Type 0 where
  pub marshal : List QuietSummaryGroup → String
  pub unmarshal : String → List QuietSummaryGroup

pub record Engine {V : Values} (E : Expr V) : Type 1 where
  pub platform : Platform V
  pub codec : Codec V
  pub group_codec : GroupCodec
  -- whether the database refuses a statement
  pub fails : ℕ → Bool
  pub quiet_hours : QuietHoursConfig
  pub manager : Manager E V.Dispatcher

-- A call `go m.sendWithRetry(d, notification, dispatcherID)`.
pub record Send (V : Values) : Type 0 where
  pub dispatcher : V.Dispatcher
  pub notification : Notification V
  pub dispatcher_id : ℤ

-- The queue, nil where it is `none`, and the calls that were made, the oldest first.
pub record World (V : Values) : Type 0 where
  pub queue : Option Db
  pub sends : List (Send V)
