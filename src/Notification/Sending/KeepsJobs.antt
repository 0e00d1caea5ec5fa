-- ===== src/Notification/Sending/KeepsJobs.antt =====
-- The calls of the queue that leave the waiting notifications as they are.
use dozzle_gaia_fork.Common.{
  ℕ, ◌≡◌, refl, ◌∙◌, String, Bool, true, false, Option, none, some, List, inl, inr, Bool-cases,
  Option-cases, not, if◌then◌else◌,
}
use dozzle_gaia_fork.Notification.Engine.{Engine}
use dozzle_gaia_fork.Notification.Queue.{
  Db, Job, QuietRow, AlertState, Reply, done, failed, ◌>>=◌, state_of, exec, query,
}
use dozzle_gaia_fork.Notification.Queue.Quiet.{
  QuietSummary, get_quiet_summary, upsert_quiet_summary, quiet_period_grouping, decode_summary,
  decode_found,
}
use dozzle_gaia_fork.Notification.Queue.States.{
  scan_row, get_or_create_alert_state, upsert_alert_state,
}
use dozzle_gaia_fork.Notification.QuietHours.{effective_quiet_hours, grouping_enabled}
use dozzle_gaia_fork.Notification.QuietSummary.{
  should_aggregate_quiet, aggregate_quiet_notification, answer_or,
}
use dozzle_gaia_fork.Notification.Rule.{Expr, Rule}
use dozzle_gaia_fork.Notification.Sending.{with_alert_state, count_or_zero}
use dozzle_gaia_fork.Notification.Time.{Time}
use dozzle_gaia_fork.Notification.Types.{Values, Notification}

-- The reply's tables have these jobs.
pub record KeepsJobs {A : Type 0} (l : List Job) (r : Reply A) : Type 0 where
  pub same : (state_of r).jobs ≡ l

module _ {l : List Job} where
  pub exec-KeepsJobs :
      (fails : ℕ → Bool) (f : Db → Db) (db : Db)
      → ((d : Db) → (f d).jobs ≡ d.jobs)
      → db.jobs ≡ l
      → KeepsJobs l (exec fails f db)
  unfolding exec
  exec-KeepsJobs fails f db keeps h = elim (Bool-cases (fails db.statements)) [
    | inl refused ↦ rw refused (record { same = h })
    | inr runs ↦ rw runs (record { same = keeps db ∙ h })
  ]

  pub query-KeepsJobs :
      {A : Type 0} (fails : ℕ → Bool) (f : Db → A) (db : Db)
      → db.jobs ≡ l
      → KeepsJobs l (query fails f db)
  unfolding query
  query-KeepsJobs fails f db h = elim (Bool-cases (fails db.statements)) [
    | inl refused ↦ rw refused (record { same = h })
    | inr runs ↦ rw runs (record { same = h })
  ]

  pub bind-KeepsJobs :
      {A B : Type 0} {r : Reply A} {k : A → Db → Reply B}
      → KeepsJobs l r
      → ((a : A) (d : Db) → d.jobs ≡ l → KeepsJobs l (k a d))
      → KeepsJobs l (r >>= k)
  bind-KeepsJobs {r = done a db} h keeps = keeps a db (h.same)
  bind-KeepsJobs {r = failed db} h keeps = record { same = h.same }

  pub done-KeepsJobs : {A : Type 0} (a : A) (d : Db) → d.jobs ≡ l → KeepsJobs l (done a d)
  done-KeepsJobs a d h = record { same = h }

  pub scan_row-KeepsJobs :
      {A : Type 0} (o : Option A) (d : Db) → d.jobs ≡ l → KeepsJobs l (scan_row o d)
  scan_row-KeepsJobs none d h = record { same = h }
  scan_row-KeepsJobs (some a) d h = record { same = h }

module _ {V : Values} {E : Expr V} (e : Engine E) {l : List Job} where
  pub quiet_period_grouping-KeepsJobs :
      (key : String) (finish : Time) (b : Bool) (db : Db)
      → db.jobs ≡ l
      → KeepsJobs l (quiet_period_grouping e.fails key finish b db)
  unfolding quiet_period_grouping
  quiet_period_grouping-KeepsJobs key finish b db h =
      bind-KeepsJobs
        (bind-KeepsJobs
          (bind-KeepsJobs (exec-KeepsJobs e.fails _ db (λ d. refl) h)
            (λ a d. query-KeepsJobs e.fails _ d))
          scan_row-KeepsJobs)
        (λ r d. done-KeepsJobs _ d)

  pub get_or_create_alert_state-KeepsJobs :
      (fp host container kind : String) (r : Rule E) (now : Time) (db : Db)
      → db.jobs ≡ l
      → KeepsJobs l (get_or_create_alert_state e.fails fp r.id host container kind now db)
  unfolding get_or_create_alert_state
  get_or_create_alert_state-KeepsJobs fp host container kind r now db h =
      bind-KeepsJobs
        (bind-KeepsJobs (exec-KeepsJobs e.fails _ db (λ d. refl) h)
          (λ a d. query-KeepsJobs e.fails _ d))
        scan_row-KeepsJobs

  pub decode_summary-KeepsJobs :
      (row : QuietRow) (db : Db) → db.jobs ≡ l → KeepsJobs l (decode_summary e.codec e.fails row db)
  unfolding decode_summary
  decode_summary-KeepsJobs row db h = elim (Option-cases (e.codec.unmarshal row.payload)) [
    | inl bad ↦ rw (bad, decode_summary) (record { same = h })
    | inr (n, good) ↦ rw (good, decode_summary) (record { same = h })
  ]

  pub decode_found-KeepsJobs :
      (o : Option QuietRow) (db : Db)
      → db.jobs ≡ l
      → KeepsJobs l (decode_found e.codec e.fails o db)
  decode_found-KeepsJobs none db h = done-KeepsJobs none db h
  decode_found-KeepsJobs (some row) db h =
      bind-KeepsJobs (decode_summary-KeepsJobs row db h) (λ s d. done-KeepsJobs (some s) d)

  pub get_quiet_summary-KeepsJobs :
      (key : String) (db : Db)
      → db.jobs ≡ l
      → KeepsJobs l (get_quiet_summary e.codec e.fails key db)
  unfolding get_quiet_summary
  get_quiet_summary-KeepsJobs key db h =
      bind-KeepsJobs (query-KeepsJobs e.fails _ db h) decode_found-KeepsJobs

  pub upsert_quiet_summary-KeepsJobs :
      (s : QuietSummary V) (now : Time) (db : Db)
      → db.jobs ≡ l
      → KeepsJobs l (upsert_quiet_summary e.codec e.fails s now db)
  unfolding upsert_quiet_summary
  upsert_quiet_summary-KeepsJobs s now db h = elim (Option-cases (e.codec.marshal s.notification)) [
    | inl bad ↦ rw (bad, upsert_quiet_summary) (record { same = h })
    | inr (payload, good) ↦
        rw (good, upsert_quiet_summary) (exec-KeepsJobs e.fails _ db (λ d. refl) h)
  ]

  pub aggregate_quiet_notification-KeepsJobs :
      (n : Notification V) (r : Rule E) (now : Time) (db : Db)
      → db.jobs ≡ l
      → KeepsJobs l (aggregate_quiet_notification e n r now db)
  unfolding aggregate_quiet_notification
  aggregate_quiet_notification-KeepsJobs n r now db h =
      bind-KeepsJobs (get_quiet_summary-KeepsJobs _ db h)
        (λ found d. upsert_quiet_summary-KeepsJobs _ now d)

  pub answer_or-KeepsJobs :
      (b : Bool) (r : Reply Bool)
      → KeepsJobs l r
      → (c : Bool) × (d : Db) × (answer_or e b r ≡ (c, some d)) × (d.jobs ≡ l)
  answer_or-KeepsJobs b (done a d) h = (a, d, refl, h.same)
  answer_or-KeepsJobs b (failed d) h = (b, d, refl, h.same)

  guarded :
      (bypass loud : Bool) (db : Db)
      → db.jobs ≡ l
      → (b : Bool) (r : Reply Bool) → KeepsJobs l r
      → (c : Bool) × (d : Db) × ((if bypass
            then (false, some db)
            else if loud
            then (false, some db)
            else answer_or e b r)
          ≡ (c, some d))
        × (d.jobs ≡ l)
  guarded true loud db same b r h = (false, db, refl, same)
  guarded false true db same b r h = (false, db, refl, same)
  guarded false false db same b r h = answer_or-KeepsJobs b r h

  pub should_aggregate_quiet-KeepsJobs :
      (r : Rule E) (now : Time) (db : Db)
      → db.jobs ≡ l
      → (c : Bool) × (d : Db) × (should_aggregate_quiet e r now (some db) ≡ (c, some d))
        × (d.jobs ≡ l)
  unfolding should_aggregate_quiet
  should_aggregate_quiet-KeepsJobs r now db h =
      guarded r.bypass_quiet_hours (not (effective_quiet_hours e.platform e.quiet_hours r now).0) db
        h (grouping_enabled e.quiet_hours) _ (quiet_period_grouping-KeepsJobs _ _ _ db h)

  pub with_alert_state-KeepsJobs :
      (n : Notification V) (r : Rule E) (now : Time) (st : Reply AlertState)
      → KeepsJobs l st
      → (with_alert_state e n r now st).1.jobs ≡ l
  unfolding upsert_alert_state
  with_alert_state-KeepsJobs n r now (failed db) h = h.same
  with_alert_state-KeepsJobs n r now (done st db) h =
      let w : KeepsJobs l _ = exec-KeepsJobs e.fails _ db (λ d. refl) h.same in w.same

  pub count_or_zero-KeepsJobs : (r : Reply ℕ) → KeepsJobs l r → (count_or_zero e r).1.jobs ≡ l
  count_or_zero-KeepsJobs (done n db) h = h.same
  count_or_zero-KeepsJobs (failed db) h = h.same
