-- ===== src/Notification/Queue/States.antt =====
-- The tables `alert_state`, `unique_state` and `cooldown_state`. A cleanup reports nothing: where its
-- statement is refused, it leaves the rows.
use dozzle_gaia_fork.Common.{ℕ, String, Bool, false, not, Option, none, some, List, map}
use dozzle_gaia_fork.Common.Int.{ℤ, pos, ltb_ℤ, ◌-ℤ◌}
use dozzle_gaia_fork.Notification.Queue.{
  Db, AlertState, StoredUnique, Cooldown, Reply, done, failed, state_of, ◌>>=◌, unix, from_unix,
  exec, query,
}
use dozzle_gaia_fork.Notification.Queue.Table.{select, insert_or_ignore, upsert, where_rows}
use dozzle_gaia_fork.Notification.Time.{Time, Duration}

-- What a column of whole seconds gives back.
abbrev pub truncated : Time → Time
truncated t = from_unix (unix t)

-- `row.Scan`, whose error is the one for no row.
abbrev pub scan_row : {A : Type 0} → Option A → Db → Reply A
scan_row none db = failed db
scan_row (some a) db = done a db

abbrev pub new_alert : String → ℤ → String → String → String → Time → AlertState
new_alert fp s host container kind now = record {
  fingerprint = fp;
  subscription_id = s;
  host_name = host;
  container_name = container;
  alert_type = kind;
  count = pos 0;
  window_start = truncated now;
  quiet_first_sent = false;
  stacked_sent = false;
  updated_at = truncated now;
}

abbrev pub stored_alert : AlertState → Time → AlertState
stored_alert s now = record s {
  window_start = truncated s.window_start;
  updated_at = truncated now;
}

abbrev pub merge_alert : AlertState → AlertState → AlertState
merge_alert old new = record old {
  count = new.count;
  window_start = new.window_start;
  quiet_first_sent = new.quiet_first_sent;
  stacked_sent = new.stacked_sent;
  updated_at = new.updated_at;
}

abbrev pub new_unique : String → ℤ → String → Time → StoredUnique
new_unique fp s key now = record {
  fingerprint = fp;
  subscription_id = s;
  unique_key = key;
  count = pos 0;
  window_start = truncated now;
  is_sent = false;
  updated_at = truncated now;
}

abbrev pub stored_unique : StoredUnique → Time → StoredUnique
stored_unique s now = record s {
  window_start = truncated s.window_start;
  updated_at = truncated now;
}

abbrev pub merge_unique : StoredUnique → StoredUnique → StoredUnique
merge_unique old new = record old {
  count = new.count;
  window_start = new.window_start;
  is_sent = new.is_sent;
  updated_at = new.updated_at;
}

abbrev pub alert_key : AlertState → String
alert_key s = s.fingerprint

abbrev pub unique_key_of : StoredUnique → String
unique_key_of s = s.fingerprint

abbrev pub cooldown_key : Cooldown → String
cooldown_key c = c.key

abbrev pub set_alerts : (List AlertState → List AlertState) → Db → Db
set_alerts f db = record db { alert_states = f db.alert_states }

abbrev pub set_uniques : (List StoredUnique → List StoredUnique) → Db → Db
set_uniques f db = record db { unique_states = f db.unique_states }

abbrev pub set_cooldowns : (List Cooldown → List Cooldown) → Db → Db
set_cooldowns f db = record db { cooldowns = f db.cooldowns }

-- `expires_at > now`
abbrev pub is_running : Time → Cooldown → Bool
is_running now c = ltb_ℤ (unix now) c.expires_at

module _ (fails : ℕ → Bool) where
  unfoldable pub get_or_create_alert_state :
      String → ℤ → String → String → String → Time → Db → Reply AlertState
  get_or_create_alert_state fp s host container kind now db =
      exec fails (set_alerts (insert_or_ignore alert_key (new_alert fp s host container kind now)))
        db
      >>= (λ _ d. query fails (λ d1. select alert_key fp d1.alert_states) d)
      >>= scan_row

  -- The caller's struct gets the new time, whatever the statement does.
  unfoldable pub upsert_alert_state : AlertState → Time → Db → AlertState × Reply (Unit {0})
  upsert_alert_state s now db = (
    record s { updated_at = now },
    exec fails (set_alerts (upsert alert_key merge_alert (stored_alert s now))) db,
  )

  unfoldable pub cleanup_alert_state : Duration → Time → Db → Db
  cleanup_alert_state retention now db = state_of (
      exec fails
        (set_alerts (where_rows (λ s. not (ltb_ℤ (unix s.updated_at) (unix (now -ℤ retention))))))
        db)

  unfoldable pub get_or_create_unique_state : String → ℤ → String → Time → Db → Reply StoredUnique
  get_or_create_unique_state fp s key now db =
      exec fails (set_uniques (insert_or_ignore unique_key_of (new_unique fp s key now))) db
      >>= (λ _ d. query fails (λ d1. select unique_key_of fp d1.unique_states) d)
      >>= scan_row

  -- The caller's struct gets the new time here as well.
  unfoldable pub upsert_unique_state : StoredUnique → Time → Db → StoredUnique × Reply (Unit {0})
  upsert_unique_state s now db = (
    record s { updated_at = now },
    exec fails (set_uniques (upsert unique_key_of merge_unique (stored_unique s now))) db,
  )

  unfoldable pub cleanup_unique_state : Duration → Time → Db → Db
  cleanup_unique_state retention now db = state_of (
      exec fails
        (set_uniques (where_rows (λ s. not (ltb_ℤ (unix s.updated_at) (unix (now -ℤ retention))))))
        db)

  unfoldable pub set_cooldown : String → Time → Db → Reply (Unit {0})
  set_cooldown key expires_at db =
      exec fails
        (set_cooldowns (
          upsert cooldown_key (λ old new. record old { expires_at = new.expires_at })
            (record { key = key; expires_at = unix expires_at })))
        db

  -- The keys are the table's primary key, so the map of the result has one entry for each row.
  unfoldable pub load_cooldowns : Time → Db → Reply (List (String × Time))
  load_cooldowns now db =
      query fails
        (λ d. map (λ c. (c.key, from_unix c.expires_at)) (where_rows (is_running now) d.cooldowns))
        db

  unfoldable pub cleanup_cooldowns : Time → Db → Db
  cleanup_cooldowns now db = state_of (exec fails (set_cooldowns (where_rows (is_running now))) db)
