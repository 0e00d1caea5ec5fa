-- ===== src/Notification/QuietHours.antt =====
-- internal/notification/manager.go and processing.go: the daily windows of quiet hours, the global
-- one and that of a rule. `now` is `time.Now()`; a time that is formatted later keeps its zone.
pub mod Ends
use dozzle_gaia_fork.Common.{
  ℕ, ◌*◌, String, Bool, true, false, not, ◌&&◌, ◌||◌, Option, none, some, ltb, if◌then◌else◌,
}
use dozzle_gaia_fork.Common.Int.{ℤ, pos, negsuc, ◌+ℤ◌, pos_part, ltb_ℤ}
use dozzle_gaia_fork.Common.Text.{is_empty}
use dozzle_gaia_fork.Notification.Platform.{Platform, resolve_location}
use dozzle_gaia_fork.Notification.Rule.{Expr, Rule}
use dozzle_gaia_fork.Notification.Time.{Time, before, second, zero_time}
use dozzle_gaia_fork.Notification.Types.{Values}

pub record QuietHoursConfig : Type 0 where
  pub enabled : Bool
  pub start : String
  pub finish : String
  pub timezone : String
  pub group_notifications : Option Bool
  pub summary_max_groups : ℤ
  pub stack_threshold : ℤ
  pub stack_window : ℤ
  pub stacked_priority : ℤ
  pub quiet_topic : String
  pub stacked_uses_quiet_topic : Bool

unfoldable pub grouping_enabled : QuietHoursConfig → Bool
grouping_enabled q = elim q.group_notifications [ none ↦ true | some b ↦ b ]

unfoldable pub max_summary_groups : QuietHoursConfig → ℕ
max_summary_groups q =
    let n = q.summary_max_groups in
    if ltb_ℤ n (pos 1) then 10 else if ltb_ℤ (pos 50) n then 50 else pos_part n

-- A window from a start to an end on one day, or over midnight.
unfoldable pub in_window : Time → Time → Time → Bool
in_window start finish now =
    if before start finish
    then not (before now start) && before now finish
    else not (before now start) || before now finish

abbrev pub a_day : ℕ
a_day = 86400 * second

-- The end of the window, today or in 24 hours.
unfoldable pub next_end : Time → Time → Time
next_end candidate now = if before candidate now then candidate +ℤ pos a_day else candidate

pub record ZonedTime (L : Type 0) : Type 0 where
  pub zone : L
  pub time : Time

module _ {V : Values} (P : Platform V) where
  -- `parseHHMM` and `time.Date` on the day of `now`
  abbrev pub time_today : P.Location → String → Time → Time
  time_today loc hhmm now = P.date_on loc now (P.scan_hhmm hhmm).0 (P.scan_hhmm hhmm).1

  unfoldable pub in_daily_window : String → String → String → Time → Bool
  unfolding in_window resolve_location
  in_daily_window start finish timezone now =
      let loc = resolve_location P timezone in
      in_window (time_today loc start now) (time_today loc finish now) now

  unfoldable pub daily_end : String → String → Time → ZonedTime P.Location
  unfolding next_end resolve_location
  daily_end finish timezone now =
      let loc = resolve_location P timezone in
      record { zone = loc; time = next_end (time_today loc finish now) now }

  unfoldable pub is_quiet_hours : QuietHoursConfig → Time → Bool
  unfolding in_daily_window
  is_quiet_hours qh now =
      if not qh.enabled || (is_empty qh.start || is_empty qh.finish)
      then false
      else in_daily_window qh.start qh.finish qh.timezone now

  unfoldable pub next_quiet_end : QuietHoursConfig → Time → ZonedTime P.Location
  unfolding daily_end
  next_quiet_end qh now = daily_end qh.finish qh.timezone now

  module _ {E : Expr V} where
    -- Whether the time is quiet for the rule's own window, and whether it has one.
    unfoldable pub is_alert_quiet_hours : Rule E → Time → Bool × Bool
    unfolding in_daily_window
    is_alert_quiet_hours r now =
        if not r.alert_quiet_enabled || (is_empty r.alert_quiet_start || is_empty r.alert_quiet_end)
        then (false, false)
        else (
          in_daily_window r.alert_quiet_start r.alert_quiet_end r.alert_quiet_timezone now,
          true,
        )

    unfoldable pub next_alert_quiet_end : Rule E → Time → ZonedTime P.Location
    unfolding daily_end
    next_alert_quiet_end r now = daily_end r.alert_quiet_end r.alert_quiet_timezone now

    -- `effectiveQuietHours`: whether quiet hours are on for the rule, and when they end.
    unfoldable pub effective_quiet_hours :
        QuietHoursConfig → Rule E → Time → Bool × ZonedTime P.Location
    unfolding is_alert_quiet_hours next_alert_quiet_end is_quiet_hours next_quiet_end
    effective_quiet_hours qh r now =
        if r.bypass_quiet_hours
        then (false, record { zone = P.utc; time = zero_time })
        else (if (is_alert_quiet_hours r now).1
            then ((is_alert_quiet_hours r now).0, next_alert_quiet_end r now)
            else (is_quiet_hours qh now, next_quiet_end qh now))
