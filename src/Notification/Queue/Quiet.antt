-- ===== src/Notification/Queue/Quiet.antt =====
-- The tables `quiet_summary` and `quiet_period_mode`. `order` is `ORDER BY period_end ASC`.
use dozzle_gaia_fork.Common.{ℕ, ◌*◌, String, Bool, not, Option, none, some, List, [], ◌∷◌}
use dozzle_gaia_fork.Common.Int.{ℤ, pos, ltb_ℤ, ◌-ℤ◌}
use dozzle_gaia_fork.Common.Text.{str_eq}
use dozzle_gaia_fork.Notification.Queue.{
  Db, QuietRow, PeriodMode, Reply, done, failed, state_of, ◌>>=◌, Codec, unix, from_unix, exec,
  query,
}
use dozzle_gaia_fork.Notification.Queue.States.{scan_row}
use dozzle_gaia_fork.Notification.Queue.Table.{select, insert_or_ignore, upsert, where_rows}
use dozzle_gaia_fork.Notification.Time.{Time, second}
use dozzle_gaia_fork.Notification.Types.{Values, Notification}

pub record QuietSummary (V : Values) : Type 0 where
  pub key : String
  pub subscription_id : ℤ
  pub dispatcher_id : ℤ
  pub period_start : Time
  pub period_end : Time
  pub timezone : String
  pub notification : Notification V
  pub groups_json : String
  pub total_count : ℤ
  pub updated_at : Time

abbrev pub quiet_key : QuietRow → String
quiet_key r = r.key

abbrev pub mode_key : PeriodMode → String
mode_key r = r.key

abbrev pub merge_quiet : QuietRow → QuietRow → QuietRow
merge_quiet old new = record old {
  payload = new.payload;
  groups_json = new.groups_json;
  total_count = new.total_count;
  updated_at = new.updated_at;
}

abbrev pub set_summaries : (List QuietRow → List QuietRow) → Db → Db
set_summaries f db = record db { summaries = f db.summaries }

abbrev pub set_modes : (List PeriodMode → List PeriodMode) → Db → Db
set_modes f db = record db { period_modes = f db.period_modes }

module _ {V : Values} where
  abbrev pub row_of : QuietSummary V → String → Time → QuietRow
  row_of s payload now = record {
    key = s.key;
    subscription_id = s.subscription_id;
    dispatcher_id = s.dispatcher_id;
    period_start = unix s.period_start;
    period_end = unix s.period_end;
    timezone = s.timezone;
    payload = payload;
    groups_json = s.groups_json;
    total_count = s.total_count;
    updated_at = unix now;
  }

  abbrev pub summary_of : QuietRow → Notification V → QuietSummary V
  summary_of r n = record {
    key = r.key;
    subscription_id = r.subscription_id;
    dispatcher_id = r.dispatcher_id;
    period_start = from_unix r.period_start;
    period_end = from_unix r.period_end;
    timezone = r.timezone;
    notification = n;
    groups_json = r.groups_json;
    total_count = r.total_count;
    updated_at = from_unix r.updated_at;
  }

module _ {V : Values} (codec : Codec V) (fails : ℕ → Bool) where
  unfoldable pub upsert_quiet_summary : QuietSummary V → Time → Db → Reply (Unit {0})
  upsert_quiet_summary s now db = elim (codec.marshal s.notification) [
    | none ↦ failed db
    | some payload ↦
        exec fails (set_summaries (upsert quiet_key merge_quiet (row_of s payload now))) db
  ]

  unfoldable pub decode_summary : QuietRow → Db → Reply (QuietSummary V)
  decode_summary r db = elim (codec.unmarshal r.payload) [
    | none ↦ failed db
    | some n ↦ done (summary_of r n) db
  ]

  abbrev pub decode_found : Option QuietRow → Db → Reply (Option (QuietSummary V))
  decode_found none db = done none db
  decode_found (some r) db = decode_summary r db >>= λ s d. done (some s) d

  -- The caller tells `sql.ErrNoRows` from the other errors; it is `none` here.
  unfoldable pub get_quiet_summary : String → Db → Reply (Option (QuietSummary V))
  get_quiet_summary key db = query fails (λ d. select quiet_key key d.summaries) db >>= decode_found

  unfoldable pub decode_summaries : List QuietRow → Db → Reply (List (QuietSummary V))
  decode_summaries [] db = done [] db
  decode_summaries (r ∷ rs) db =
      decode_summary r db >>= λ s d. decode_summaries rs db >>= λ rest d1. done (s ∷ rest) d1

module _ {V : Values} (codec : Codec V) (order : List QuietRow → List QuietRow)
    (fails : ℕ → Bool) where
  unfoldable pub due_quiet_summaries : Time → Db → Reply (List (QuietSummary V))
  due_quiet_summaries now db =
      query fails (λ d. order (where_rows (λ r. not (ltb_ℤ (unix now) r.period_end)) d.summaries))
        db
      >>= decode_summaries codec fails

module _ (fails : ℕ → Bool) where
  unfoldable pub delete_quiet_summary : String → Db → Reply (Unit {0})
  delete_quiet_summary key db =
      exec fails (set_summaries (where_rows (λ r. not (str_eq r.key key)))) db

  -- The mode of a period is the one configured when it was first asked for.
  unfoldable pub quiet_period_grouping : String → Time → Bool → Db → Reply Bool
  quiet_period_grouping key period_end configured db =
      exec fails
        (set_modes (
          insert_or_ignore mode_key
            (record { key = key; grouping = configured; period_end = unix period_end })))
        db
      >>= (λ _ d. query fails (λ d1. select mode_key key d1.period_modes) d)
      >>= scan_row
      >>= λ r d. done r.grouping d

  unfoldable pub cleanup_quiet_period_modes : Time → Db → Db
  cleanup_quiet_period_modes now db = state_of (
      exec fails
        (set_modes
          (where_rows (λ r. not (ltb_ℤ r.period_end (unix (now -ℤ pos (86400 * second)))))))
        db)
