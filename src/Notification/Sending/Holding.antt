-- ===== src/Notification/Sending/Holding.antt =====
-- What the queue holds after a notification was held for the quiet hours, or for the rule's window.
use dozzle_gaia_fork.Common.{
  ℕ, ◌*◌, ◌≡◌, refl, ap, ◌∙◌, subst, String, Bool, true, false, some, List, [], ◌∷◌, ◌++◌, inl, inr,
  Bool-cases, not, ◌&&◌, if◌then◌else◌,
}
use dozzle_gaia_fork.Common.Int.{ℤ, pos, ◌+ℤ◌, int64}
use dozzle_gaia_fork.Common.Text.{is_empty}
use dozzle_gaia_fork.Notification.Engine.{Engine}
use dozzle_gaia_fork.Notification.Queue.{
  Db, Job, AlertState, Status, Reply, done, failed, state_of, exec,
}
use dozzle_gaia_fork.Notification.Queue.Jobs.{enqueue, pending_count_for_subscription, new_job}
use dozzle_gaia_fork.Notification.Queue.States.{get_or_create_alert_state, upsert_alert_state}
use dozzle_gaia_fork.Notification.QuietHours.{ZonedTime}
use dozzle_gaia_fork.Notification.Rule.{Expr, Rule}
use dozzle_gaia_fork.Notification.Sending.{
  apply_quiet_hours_burst_escalation, hold_quiet, hold_window, escalate_held, held, rfc3339,
  kind_name, with_alert_state, count_or_zero,
}
use dozzle_gaia_fork.Notification.Time.{Time, second, seconds}
use dozzle_gaia_fork.Notification.Types.{Values, Notification, add_context}
use dozzle_gaia_fork.Notification.Sending.KeepsJobs.{
  query-KeepsJobs, get_or_create_alert_state-KeepsJobs, with_alert_state-KeepsJobs,
  count_or_zero-KeepsJobs,
}

-- One more job, of the rule and for the dispatcher of the notification, waits until the time.
pub record IsHeld {V : Values} (n : Notification V) (at : Time) (before_jobs after_jobs : List Job)
    : Type 0 where
  pub job : Job
  pub added : after_jobs ≡ before_jobs ++ (job ∷ [])
  pub is_pending : job.status ≡ Status.pending
  pub due : job.deliver_at ≡ at
  pub subscription_id : job.subscription_id ≡ n.subscription.id
  pub dispatcher_id : job.dispatcher_id ≡ n.subscription.dispatcher_id

module _ {V : Values} where
  pub add_context-subscription :
      (n : Notification V) (label value : String)
      → (add_context n label value).subscription ≡ n.subscription
  unfolding add_context
  add_context-subscription n label value = elim (Bool-cases (is_empty value)) [
    | inl empty ↦ rw empty refl
    | inr full ↦ rw full refl
  ]

module _ {V : Values} {E : Expr V} (e : Engine E) (works : (k : ℕ) → e.fails k ≡ false)
    (encodes : (n : Notification V) → (payload : String) × (e.codec.marshal n ≡ some payload)) where
  enqueue-IsHeld :
      (n m : Notification V) (at now : Time) (db : Db)
      → m.subscription ≡ n.subscription
      → IsHeld n at db.jobs (state_of (enqueue e.codec e.fails m at now db)).jobs
  unfolding enqueue exec
  enqueue-IsHeld n m at now db same =
      let (payload, good) = encodes m in
      rw (good, enqueue, works db.statements, exec)
        (record {
          job = record (new_job m payload now at) { id = db.next_id };
          added = refl;
          is_pending = refl;
          due = refl;
          subscription_id = ap (λ s. s.id) same;
          dispatcher_id = ap (λ s. s.dispatcher_id) same;
        })

  enqueue-held :
      (n m : Notification V) (why : String) (zone : e.platform.Location) (at now : Time) (db : Db)
      → m.subscription ≡ n.subscription
      → IsHeld n at db.jobs
          (state_of (
            enqueue e.codec e.fails
              (held e m why (record { zone = zone; time = at }))
              at
              now
              db)).jobs
  enqueue-held n m why zone at now db same =
      let until = rfc3339 e (record { zone = zone; time = at }) in
      let delivery = add_context m "Delivery" why in
      enqueue-IsHeld n (add_context delivery "Queued until" until) at now db (
        add_context-subscription delivery "Queued until" until
        ∙ add_context-subscription m "Delivery" why
        ∙ same)

  pub hold_window-IsHeld :
      (n m : Notification V) (r : Rule E) (now : Time) (db : Db)
      → m.subscription ≡ n.subscription
      → IsHeld n (now +ℤ seconds r.hold_clear_window) db.jobs (hold_window e m r now db).jobs
  unfolding hold_window
  hold_window-IsHeld n m r now db same =
      enqueue-held n m "legacy hold window" e.platform.local_zone
        (now +ℤ seconds r.hold_clear_window) now db same

  escalate_held-subscription :
      (n : Notification V) (r : Rule E) (count : ℤ)
      → (escalate_held e n r count).subscription ≡ n.subscription
  unfolding escalate_held
  escalate_held-subscription n r count =
      add_context-subscription _ "Quiet-hours stack" _
      ∙ either (e.quiet_hours.stacked_uses_quiet_topic && not (is_empty e.quiet_hours.quiet_topic))
          _ _ refl
    where
      either :
          (b : Bool) (x y : Notification V)
          → x.subscription ≡ y.subscription
          → (if b then x else y).subscription ≡ y.subscription
      either true x y h = h
      either false x y h = refl

  with_alert_state-subscription :
      (n : Notification V) (r : Rule E) (now : Time) (st : Reply AlertState)
      → (with_alert_state e n r now st).0.subscription ≡ n.subscription
  unfolding upsert_alert_state
  with_alert_state-subscription n r now (failed db) = refl
  with_alert_state-subscription n r now (done st db) = escalated _ _
    where
      escalated :
          (b : Bool) (count : ℤ)
          → (if b then escalate_held e n r count else n).subscription ≡ n.subscription
      escalated true count = escalate_held-subscription n r count
      escalated false count = refl

  -- When a notification of quiet hours is due: two seconds for each one that waits before it.
  abbrev pub quiet_slot : ZonedTime e.platform.Location → ℕ → Time
  quiet_slot quiet_end pending = quiet_end.time +ℤ int64 (pos (pending * (2 * second)))

  escalation_subscription :
      (m : Notification V) (r : Rule E) (now : Time) (db : Db)
      → (apply_quiet_hours_burst_escalation e m r now db).0.subscription ≡ m.subscription
  unfolding apply_quiet_hours_burst_escalation
  escalation_subscription m r now db = with_alert_state-subscription m r now _

  escalation_jobs :
      (m : Notification V) (r : Rule E) (now : Time) (db : Db)
      → (apply_quiet_hours_burst_escalation e m r now db).1.jobs ≡ db.jobs
  unfolding apply_quiet_hours_burst_escalation
  escalation_jobs m r now db =
      with_alert_state-KeepsJobs e m r now
        (get_or_create_alert_state e.fails _ r.id m.container.host_name m.container.name
          (kind_name m.kind) now db)
        (get_or_create_alert_state-KeepsJobs e _ m.container.host_name m.container.name
          (kind_name m.kind) r now db refl)

  pending_jobs :
      (r : Rule E) (db : Db)
      → (count_or_zero e (pending_count_for_subscription e.fails r.id db)).1.jobs ≡ db.jobs
  unfolding pending_count_for_subscription
  pending_jobs r db = count_or_zero-KeepsJobs e _ (query-KeepsJobs e.fails _ db refl)

  pub hold_quiet-IsHeld :
      (n m : Notification V) (r : Rule E) (quiet_end : ZonedTime e.platform.Location) (now : Time)
      (db : Db)
      → m.subscription ≡ n.subscription
      → (pending : ℕ) × IsHeld n
          (quiet_slot quiet_end pending)
          db.jobs
          (hold_quiet e m r quiet_end now db).jobs
  unfolding hold_quiet
  hold_quiet-IsHeld n m r quiet_end now db same =
      let first = apply_quiet_hours_burst_escalation e m r now db in
      let counted = count_or_zero e (pending_count_for_subscription e.fails r.id first.1) in
      (
        counted.0,
        subst
            (λ js.
              IsHeld n (quiet_slot quiet_end counted.0) js (hold_quiet e m r quiet_end now db).jobs)
            (pending_jobs r first.1 ∙ escalation_jobs m r now db)
            (enqueue-held n first.0 "held during quiet hours" quiet_end.zone
              (quiet_slot quiet_end counted.0) now counted.1
              (escalation_subscription m r now db ∙ same)),
      )
