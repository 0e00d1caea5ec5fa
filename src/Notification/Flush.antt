-- ===== src/Notification/Flush.antt =====
-- internal/notification/manager.go: `flushQueue`, one round of the drain loop: summaries whose period
-- is over become notifications, the first due notification is delivered, and old rows are removed.
-- `order_jobs` and `order_rows` are the `ORDER BY` clauses of the two queries.
use dozzle_gaia_fork.Common.{if◌then◌else◌, ℕ, ◌*◌, Option, none, some, List, [], ◌∷◌}
use dozzle_gaia_fork.Common.Int.{pos}
use dozzle_gaia_fork.Notification.Drain.{deliver_queued_notification}
use dozzle_gaia_fork.Notification.Engine.{Engine}
use dozzle_gaia_fork.Notification.Queue.{Db, Job, QuietRow, Reply, done, failed, state_of}
use dozzle_gaia_fork.Notification.Queue.Jobs.{Drained, enqueue, drain_ready, cleanup}
use dozzle_gaia_fork.Notification.Queue.Quiet.{
  QuietSummary, due_quiet_summaries, delete_quiet_summary, cleanup_quiet_period_modes,
}
use dozzle_gaia_fork.Notification.Queue.States.{
  cleanup_alert_state, cleanup_unique_state, cleanup_cooldowns,
}
use dozzle_gaia_fork.Notification.QuietHours.{max_summary_groups}
use dozzle_gaia_fork.Notification.QuietSummary.Render.{render_quiet_summary}
use dozzle_gaia_fork.Notification.Rule.{Expr}
use dozzle_gaia_fork.Notification.Time.{Time, second}
use dozzle_gaia_fork.Notification.Types.{Values}

abbrev hours : ℕ → ℕ
hours n = n * (3600 * second)

module _ {V : Values} {E : Expr V} (e : Engine E) where
  -- The summary is removed only once its notification is queued.
  abbrev pub remove_queued : QuietSummary V → Reply (Unit {0}) → Db
  remove_queued s (done _ db) = state_of (delete_quiet_summary e.fails s.key db)
  remove_queued s (failed db) = db

  -- The body of the loop in `flushQuietSummaries`.
  unfoldable pub flush_summary : QuietSummary V → Time → Db → Db
  unfolding render_quiet_summary
  flush_summary s now db =
      let n = render_quiet_summary e s (pos (max_summary_groups e.quiet_hours)) in
      remove_queued s (enqueue e.codec e.fails n now now db)

  unfoldable pub flush_each : List (QuietSummary V) → Time → Db → Db
  unfolding flush_summary
  flush_each [] now db = db
  flush_each (s ∷ ss) now db = flush_each ss now (flush_summary s now db)

  abbrev flush_found : Time → Reply (List (QuietSummary V)) → Db
  flush_found now (done ss db) = flush_each ss now db
  flush_found now (failed db) = db

  -- The first item is delivered; after an error the rows are not cleaned up either.
  abbrev deliver_first : Time → Reply (Drained V) → Db
  deliver_first now (failed db) = db
  deliver_first now (done drained db) =
      let delivered : Db = elim drained.items [
        | [] ↦ db
        | item ∷ _ ↦ deliver_queued_notification e.fails e.manager item now db
      ] in
      if drained.interrupted
      then db
      else cleanup_quiet_period_modes e.fails now (
          cleanup_cooldowns e.fails now (
            cleanup_unique_state e.fails (pos (hours 49)) now (
              cleanup_alert_state e.fails (pos (hours 25)) now
                (cleanup e.fails (pos (hours 168)) now delivered))))

  module _ (order_jobs : List Job → List Job) (order_rows : List QuietRow → List QuietRow) where
    unfoldable pub flush_quiet_summaries : Time → Db → Db
    unfolding flush_each
    flush_quiet_summaries now db =
        flush_found now (due_quiet_summaries e.codec order_rows e.fails now db)

    unfoldable pub flush_queue : Time → Option Db → Option Db
    unfolding flush_quiet_summaries
    flush_queue now none = none
    flush_queue now (some db) = some (
        deliver_first now
          (drain_ready e.codec order_jobs e.fails now (flush_quiet_summaries now db)))
