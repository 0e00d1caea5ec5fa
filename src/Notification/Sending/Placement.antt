-- ===== src/Notification/Sending/Placement.antt =====
-- Where `sendOrQueue` puts a notification, with a database that works.
use dozzle_gaia_fork.Common.{ℕ, ◌≡◌, String, true, false, Option, none, some, List, [], ◌∷◌, ◌++◌}
use dozzle_gaia_fork.Notification.Engine.{Engine, Send, World}
use dozzle_gaia_fork.Notification.Queue.{Db, Job}
use dozzle_gaia_fork.Notification.Sending.Hits.{IsCounted, summaries_of}
use dozzle_gaia_fork.Notification.QuietSummary.{
  should_aggregate_quiet, summary_key, quiet_summary_period, hit_time,
}
use dozzle_gaia_fork.Notification.Rule.{Expr, Rule}
use dozzle_gaia_fork.Notification.Time.{Time}
use dozzle_gaia_fork.Notification.Types.{Values, Notification, add_modifier_tag}
use dozzle_gaia_fork.Notification.Sending.Holding.{IsHeld}

abbrev pub jobs_of : Option Db → List Job
jobs_of none = []
jobs_of (some db) = db.jobs

-- The summary that a notification of quiet hours belongs to.
abbrev pub tagged_key :
    {V : Values} {E : Expr V} → Engine E → Notification V → Rule E → Time → String
tagged_key e n r now =
    let tagged = add_modifier_tag n "quiet-hours" in
    summary_key e tagged r (quiet_summary_period e r (hit_time e tagged now))

-- What `sendOrQueue` did with a notification: it was sent, it was held, or it was counted in a summary
-- because the quiet hours group their alerts.
pub data Placed {V : Values} {E : Expr V} (e : Engine E) (d : V.Dispatcher) (n : Notification V)
    (r : Rule E) (now : Time) (w w' : World V) : Type 0 where
  sent :
      (m : Send V)
      → w'.sends ≡ w.sends ++ (m ∷ [])
      → m.dispatcher ≡ d
      → m.notification.subscription ≡ n.subscription
      → jobs_of w'.queue ≡ jobs_of w.queue
      → Placed e d n r now w w'
  held_until :
      (at : Time)
      → IsHeld n at (jobs_of w.queue) (jobs_of w'.queue)
      → w'.sends ≡ w.sends
      → Placed e d n r now w w'
  counted :
      (should_aggregate_quiet e r now w.queue).0 ≡ true
      → IsCounted (tagged_key e n r now) (summaries_of w.queue) (summaries_of w'.queue)
      → jobs_of w'.queue ≡ jobs_of w.queue
      → w'.sends ≡ w.sends
      → Placed e d n r now w w'

module _ {V : Values} {E : Expr V} (e : Engine E) (works : (k : ℕ) → e.fails k ≡ false)
    (encodes : (n : Notification V) → (payload : String) × (e.codec.marshal n ≡ some payload)) where
  abbrev world : Option Db → List (Send V) → World V
  world q ss = record { queue = q; sends = ss }
