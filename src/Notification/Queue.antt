-- ===== src/Notification/Queue.antt =====
-- internal/notification/queue/queue.go: the SQLite tables as lists of rows, and the statements on
-- them, which the source writes out as SQL. `fails n` says whether the database refuses the n-th
-- statement; a refused statement changes nothing. The pool has one connection (`SetMaxOpenConns`).
pub mod Table
pub mod Jobs
pub mod States
pub mod Quiet
pub mod Rows
pub mod Delivery
pub mod Lifecycle
pub mod Kept
use dozzle_gaia_fork.Common.{
  ℕ, suc, ◌+◌, ◌/◌, ◌*◌, String, Bool, List, Option, none, some, if◌then◌else◌,
}
use dozzle_gaia_fork.Common.Int.{ℤ, pos, negsuc}
use dozzle_gaia_fork.Notification.Time.{Time, scale, second}
use dozzle_gaia_fork.Notification.Types.{Values, Notification}

pub data Status : Type 0 where
  pending sent dropped : Status

-- A row of `notification_queue`. Attempts are read from the table, where they are never negative.
pub record Job : Type 0 where
  pub id : ℕ
  pub subscription_id : ℤ
  pub dispatcher_id : ℤ
  pub payload : String
  pub ntfy_topic : String
  pub ntfy_priority : ℤ
  pub created_at : Time
  pub deliver_at : Time
  pub attempts : ℕ
  pub status : Status

-- `WindowStart` and `UpdatedAt` are whole seconds in the tables.
pub record AlertState : Type 0 where
  pub fingerprint : String
  pub subscription_id : ℤ
  pub host_name : String
  pub container_name : String
  pub alert_type : String
  pub count : ℤ
  pub window_start : Time
  pub quiet_first_sent : Bool
  pub stacked_sent : Bool
  pub updated_at : Time

pub record StoredUnique : Type 0 where
  pub fingerprint : String
  pub subscription_id : ℤ
  pub unique_key : String
  pub count : ℤ
  pub window_start : Time
  pub is_sent : Bool
  pub updated_at : Time

pub record QuietRow : Type 0 where
  pub key : String
  pub subscription_id : ℤ
  pub dispatcher_id : ℤ
  pub period_start : ℤ
  pub period_end : ℤ
  pub timezone : String
  pub payload : String
  pub groups_json : String
  pub total_count : ℤ
  pub updated_at : ℤ

pub record PeriodMode : Type 0 where
  pub key : String
  pub grouping : Bool
  pub period_end : ℤ

pub record Cooldown : Type 0 where
  pub key : String
  pub expires_at : ℤ

pub record Db : Type 0 where
  pub jobs : List Job
  pub next_id : ℕ
  pub alert_states : List AlertState
  pub unique_states : List StoredUnique
  pub summaries : List QuietRow
  pub period_modes : List PeriodMode
  pub cooldowns : List Cooldown
  pub statements : ℕ

pub data Reply (A : Type 0) : Type 0 where
  done : A → Db → Reply A
  failed : Db → Reply A

-- `json.Marshal` and `json.Unmarshal` of a notification.
pub record Codec (V : Values) : Type 0 where
  pub marshal : Notification V → Option String
  pub unmarshal : String → Option (Notification V)

infixl 5 ◌>>=◌
abbrev pub ◌>>=◌ : {A B : Type 0} → Reply A → (A → Db → Reply B) → Reply B
done a db >>= f = f a db
failed db >>= f = failed db

abbrev pub state_of : {A : Type 0} → Reply A → Db
state_of (done _ db) = db
state_of (failed db) = db

-- `t.Unix()` and `time.Unix(n, 0)`: the zero time is a whole number of seconds from the epoch.
unfoldable pub unix : Time → ℤ
unix (pos n) = pos (n / second)
unix (negsuc n) = negsuc (n / second)

unfoldable pub from_unix : ℤ → Time
from_unix n = scale n second

abbrev pub tick : Db → Db
tick db = record db { statements = suc db.statements }

-- `q.db.Exec` with what the statement does, and a query with what it reads.
module _ (fails : ℕ → Bool) where
  unfoldable pub exec : (Db → Db) → Db → Reply (Unit {0})
  exec f db = if fails db.statements then failed (tick db) else done tt (tick (f db))

  unfoldable pub query : {A : Type 0} → (Db → A) → Db → Reply A
  query f db = if fails db.statements then failed (tick db) else done (f db) (tick db)
