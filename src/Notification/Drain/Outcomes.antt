-- ===== src/Notification/Drain/Outcomes.antt =====
-- What the delivery of a queued notification leaves in the table.
use dozzle_gaia_fork.Common.{
  ℕ, ◌+◌, ◌*◌, ◌≤◌, ◌<◌, ◌==◌, leb, Bool, true, false, none, some, List, map, ◌≡◌, ap, ◌∙◌, arith,
  if◌then◌else◌, Bool-cases, Option-cases, inl, inr,
}
use dozzle_gaia_fork.Common.Int.{pos, ◌+ℤ◌, int64}
use dozzle_gaia_fork.Notification.Drain.{
  Manager, get_dispatcher, is_subscription_active, deliver_queued_notification,
}
use dozzle_gaia_fork.Notification.Queue.{Db, Job, Status, pending, state_of, exec, sent, dropped}
use dozzle_gaia_fork.Notification.Queue.Rows.{update_where-map}
use dozzle_gaia_fork.Notification.Queue.Jobs.{
  QueuedNotification, has_id, with_status, failed_job, next_status, retry_at, mark_sent,
  mark_failed,
}
use dozzle_gaia_fork.Notification.Rule.{Expr}
use dozzle_gaia_fork.Notification.Time.{Time}
use dozzle_gaia_fork.Notification.Types.{Values}

-- The rows, with the one of the id changed.
abbrev pub with_row : ℕ → (Job → Job) → List Job → List Job
with_row i f js = map (λ j. if j.id == i then f j else j) js

abbrev pub marked : Status → Job → Job
marked s j = record j { status = s }

-- The row after its n-th failure: half a minute for each attempt, squared.
abbrev pub after_failure : ℕ → Status → Time → Job → Job
after_failure n s now j = record j {
  attempts = n;
  status = s;
  deliver_at = now +ℤ int64 (pos (n * n * 30_000_000_000));
}

-- The branches of the delivery of an item, with the rows after it.
pub data Delivery {V : Values} {E : Expr V} {D : Type 0} (m : Manager E D)
    (item : QueuedNotification V) (now : Time) (before_jobs after_jobs : List Job) : Type 0 where
  no_dispatcher :
      get_dispatcher m item.dispatcher_id ≡ none
      → after_jobs ≡ with_row item.id (after_failure 4 dropped now) before_jobs
      → Delivery m item now before_jobs after_jobs
  inactive :
      (d : D)
      → get_dispatcher m item.dispatcher_id ≡ some d
      → is_subscription_active m item.notification.subscription.id now ≡ false
      → after_jobs ≡ with_row item.id (marked sent) before_jobs
      → Delivery m item now before_jobs after_jobs
  accepted :
      (d : D)
      → get_dispatcher m item.dispatcher_id ≡ some d
      → is_subscription_active m item.notification.subscription.id now ≡ true
      → m.send d item.notification ≡ true
      → after_jobs ≡ with_row item.id (marked sent) before_jobs
      → Delivery m item now before_jobs after_jobs
  given_up :
      (d : D)
      → get_dispatcher m item.dispatcher_id ≡ some d
      → is_subscription_active m item.notification.subscription.id now ≡ true
      → m.send d item.notification ≡ false
      → 2 ≤ item.attempts
      → after_jobs ≡ with_row item.id (after_failure (item.attempts + 1) dropped now) before_jobs
      → Delivery m item now before_jobs after_jobs
  put_off :
      (d : D)
      → get_dispatcher m item.dispatcher_id ≡ some d
      → is_subscription_active m item.notification.subscription.id now ≡ true
      → m.send d item.notification ≡ false
      → item.attempts < 2
      → after_jobs ≡ with_row item.id (after_failure (item.attempts + 1) pending now) before_jobs
      → Delivery m item now before_jobs after_jobs

next_status_last : (attempts : ℕ) → 2 ≤ attempts → next_status (attempts + 1) ≡ dropped
unfolding next_status
next_status_last attempts h = ground arith

next_status_few : (attempts : ℕ) → attempts < 2 → next_status (attempts + 1) ≡ pending
unfolding next_status
next_status_few attempts h = ground arith

module _ (fails : ℕ → Bool) where
  mark_sent_jobs :
      (i : ℕ) (db : Db)
      → fails db.statements ≡ false
      → (state_of (mark_sent fails i db)).jobs ≡ with_row i (marked sent) db.jobs
  unfolding mark_sent exec
  mark_sent_jobs i db runs = rw runs (update_where-map (has_id i) (with_status sent) db.jobs)

  mark_failed_jobs :
      (i attempts : ℕ) (s : Status) (now : Time) (db : Db)
      → fails db.statements ≡ false
      → next_status (attempts + 1) ≡ s
      → (state_of (mark_failed fails i attempts now db)).jobs
        ≡ with_row i (after_failure (attempts + 1) s now) db.jobs
  unfolding mark_failed exec retry_at
  mark_failed_jobs i attempts s now db runs is = rw runs (
      update_where-map (has_id i) (failed_job now (attempts + 1)) db.jobs
      ∙ ap (λ x. with_row i (after_failure (attempts + 1) x now) db.jobs) is)

module _ {V : Values} {E : Expr V} {D : Type 0} (fails : ℕ → Bool) where
  -- Where the statement is not refused, the delivery of an item changes its row alone, in one of five
  -- ways: without a dispatcher the row is dropped; for an inactive rule, or where the dispatcher
  -- accepts the notification, it is sent; where the dispatcher reports an error it is dropped at the
  -- third failure, and before that stays pending with one attempt more, for the time that the backoff
  -- gives.
  pub deliver_queued_notification_outcome :
      (m : Manager E D) (item : QueuedNotification V) (now : Time) (db : Db)
      → fails db.statements ≡ false
      → Delivery m item now db.jobs (deliver_queued_notification fails m item now db).jobs
  unfolding deliver_queued_notification
  deliver_queued_notification_outcome m item now db runs =
      elim (Option-cases (get_dispatcher m item.dispatcher_id)) [
        | inl missing ↦ no_dispatcher missing (
            rw (missing, deliver_queued_notification)
              (mark_failed_jobs fails item.id 3 dropped now db runs
                (next_status_last 3 (omega arith))))
        | inr (d, there) ↦
            elim (Bool-cases (is_subscription_active m item.notification.subscription.id now)) [
              | inr off ↦ inactive d there off (
                  rw (there, deliver_queued_notification, off)
                    (mark_sent_jobs fails item.id db runs))
              | inl active ↦ elim (Bool-cases (m.send d item.notification)) [
                | inl good ↦ accepted d there active good (
                    rw (there, deliver_queued_notification, active, good)
                      (mark_sent_jobs fails item.id db runs))
                | inr refused ↦ elim (Bool-cases (leb 2 item.attempts)) [
                  | inl last ↦ given_up d there active refused (ground arith) (
                      rw (there, deliver_queued_notification, active, refused)
                        (mark_failed_jobs fails item.id item.attempts dropped now db runs
                          (next_status_last item.attempts (ground arith))))
                  | inr few ↦ put_off d there active refused (ground arith) (
                      rw (there, deliver_queued_notification, active, refused)
                        (mark_failed_jobs fails item.id item.attempts pending now db runs
                          (next_status_few item.attempts (ground arith))))
                ]
              ]
            ]
      ]
