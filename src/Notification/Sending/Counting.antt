-- ===== src/Notification/Sending/Counting.antt =====
-- A hit that quiet hours group is counted in the table of summaries.
use dozzle_gaia_fork.Common.{
  ℕ, All, ◌≡◌, refl, sym, ap, ◌∙◌, subst, String, Bool, true, false, Option, none, some, List, inl,
  inr, Bool-cases, not, if◌then◌else◌,
}
use dozzle_gaia_fork.Common.Int.{pos, ◌+ℤ◌}
use dozzle_gaia_fork.Notification.Engine.{Engine}
use dozzle_gaia_fork.Notification.Queue.{
  Db, QuietRow, Reply, done, failed, ◌>>=◌, state_of, exec, query, tick,
}
use dozzle_gaia_fork.Notification.Queue.Quiet.{
  QuietSummary, get_quiet_summary, upsert_quiet_summary, quiet_period_grouping, decode_summary,
  decode_found, quiet_key, row_of, summary_of,
}
use dozzle_gaia_fork.Notification.Queue.States.{scan_row}
use dozzle_gaia_fork.Notification.Queue.Table.{select}
use dozzle_gaia_fork.Notification.QuietHours.{effective_quiet_hours, grouping_enabled}
use dozzle_gaia_fork.Notification.QuietSummary.{
  should_aggregate_quiet, aggregate_quiet_notification, answer_or, add_hit, summary_or_new,
  summary_key, quiet_summary_period, hit_time,
}
use dozzle_gaia_fork.Notification.Rule.{Expr, Rule}
use dozzle_gaia_fork.Notification.Time.{Time}
use dozzle_gaia_fork.Notification.Types.{Values, Notification}
use dozzle_gaia_fork.Notification.Sending.Hits.{
  summaries_of, total_of, hits_of, select_key, IsCounted, upsert-IsCounted, select-All,
}

-- The reply's tables have these summaries.
record KeepsSummaries {A : Type 0} (l : List QuietRow) (r : Reply A) : Type 0 where
  pub same : (state_of r).summaries ≡ l

module _ (fails : ℕ → Bool) {l : List QuietRow} where
  exec-KeepsSummaries :
      (f : Db → Db) (db : Db)
      → (f db).summaries ≡ db.summaries
      → db.summaries ≡ l
      → KeepsSummaries l (exec fails f db)
  unfolding exec
  exec-KeepsSummaries f db keeps h = elim (Bool-cases (fails db.statements)) [
    | inl refused ↦ rw refused (record { same = h })
    | inr runs ↦ rw runs (record { same = keeps ∙ h })
  ]

  query-KeepsSummaries :
      {A : Type 0} (f : Db → A) (db : Db) → db.summaries ≡ l → KeepsSummaries l (query fails f db)
  unfolding query
  query-KeepsSummaries f db h = elim (Bool-cases (fails db.statements)) [
    | inl refused ↦ rw refused (record { same = h })
    | inr runs ↦ rw runs (record { same = h })
  ]

bind-KeepsSummaries :
    {A B : Type 0} {l : List QuietRow} {r : Reply A} {k : A → Db → Reply B}
    → KeepsSummaries l r
    → ((a : A) (d : Db) → d.summaries ≡ l → KeepsSummaries l (k a d))
    → KeepsSummaries l (r >>= k)
bind-KeepsSummaries {r = done a db} h keeps = keeps a db (h.same)
bind-KeepsSummaries {r = failed db} h keeps = record { same = h.same }

scan_row-KeepsSummaries :
    {A : Type 0} {l : List QuietRow} (o : Option A) (d : Db)
    → d.summaries ≡ l
    → KeepsSummaries l (scan_row o d)
scan_row-KeepsSummaries none d h = record { same = h }
scan_row-KeepsSummaries (some a) d h = record { same = h }

module _ {V : Values} {E : Expr V} (e : Engine E) where
  quiet_period_grouping-KeepsSummaries :
      (key : String) (finish : Time) (b : Bool) (db : Db)
      → KeepsSummaries db.summaries (quiet_period_grouping e.fails key finish b db)
  unfolding quiet_period_grouping
  quiet_period_grouping-KeepsSummaries key finish b db =
      bind-KeepsSummaries
        (bind-KeepsSummaries
          (bind-KeepsSummaries (exec-KeepsSummaries e.fails _ db refl refl)
            (λ a d. query-KeepsSummaries e.fails _ d))
          scan_row-KeepsSummaries)
        (λ r d h. record { same = h })

  guarded_summaries :
      (bypass loud b : Bool) (db : Db) (r : Reply Bool)
      → KeepsSummaries db.summaries r
      → summaries_of
          (if bypass
            then (false, some db)
            else if loud
            then (false, some db)
            else answer_or e b r).1
        ≡ db.summaries
  guarded_summaries true loud b db r h = refl
  guarded_summaries false true b db r h = refl
  guarded_summaries false false b db (done a d) h = h.same
  guarded_summaries false false b db (failed d) h = h.same

  pub should_aggregate_quiet_summaries :
      (r : Rule E) (now : Time) (db : Db)
      → summaries_of (should_aggregate_quiet e r now (some db)).1 ≡ db.summaries
  unfolding should_aggregate_quiet
  should_aggregate_quiet_summaries r now db =
      guarded_summaries r.bypass_quiet_hours
        (not (effective_quiet_hours e.platform e.quiet_hours r now).0)
        (grouping_enabled e.quiet_hours) db _ (quiet_period_grouping-KeepsSummaries _ _ _ db)

-- The stored notification of the summary can be decoded.
abbrev pub IsReadable : {V : Values} {E : Expr V} → Engine E → QuietRow → Type 0
IsReadable {V} e row = (n : Notification V) × (e.codec.unmarshal row.payload ≡ some n)

module _ {V : Values} {E : Expr V} (e : Engine E) (works : (k : ℕ) → e.fails k ≡ false)
    (encodes : (n : Notification V) → (payload : String) × (e.codec.marshal n ≡ some payload)) where
  upsert_quiet_summary-IsCounted :
      (key : String) (s : QuietSummary V) (now : Time) (db : Db)
      → s.key ≡ key
      → s.total_count ≡ hits_of key db.summaries +ℤ pos 1
      → IsCounted key db.summaries
          (state_of (upsert_quiet_summary e.codec e.fails s now db)).summaries
  unfolding upsert_quiet_summary exec
  upsert_quiet_summary-IsCounted key s now db same next =
      let (payload, good) = encodes s.notification in
      rw (good, upsert_quiet_summary, works db.statements)
        (upsert-IsCounted key (row_of s payload now) db.summaries same next)

  -- What follows the query of the summary.
  abbrev counted_after :
      Notification V → Rule E → Time → Time → Reply (Option (QuietSummary V)) → List QuietRow
  counted_after n r now at reply =
      (state_of (
        reply >>= λ found d.
        upsert_quiet_summary e.codec e.fails
          (add_hit e (summary_or_new e n r (quiet_summary_period e r at) found) n r at) now
          d)).summaries

  abbrev hit_key : Notification V → Rule E → Time → String
  hit_key n r at = summary_key e n r (quiet_summary_period e r at)

  decode_found-IsCounted :
      (n : Notification V) (r : Rule E) (now at : Time) (db : Db) (o : Option QuietRow)
      → All (IsReadable e) db.summaries
      → select quiet_key (hit_key n r at) db.summaries ≡ o
      → IsCounted
          (hit_key n r at)
          db.summaries
          (counted_after n r now at (decode_found e.codec e.fails o db))
  unfolding hits_of add_hit decode_summary
  decode_found-IsCounted n r now at db none readable found =
      upsert_quiet_summary-IsCounted (hit_key n r at)
        (add_hit e (summary_or_new e n r (quiet_summary_period e r at) none) n r at) now db refl
        (ap (λ o. total_of o +ℤ pos 1) (sym found))
  decode_found-IsCounted n r now at db (some row) readable found =
      let (m, good) = select-All (IsReadable e) (hit_key n r at) db.summaries row readable found in
      subst
        (λ (u : Option (Notification V)). IsCounted (hit_key n r at) db.summaries (
          counted_after n r now at (
            elim u as (λ _. Reply (QuietSummary V)) [
              | none ↦ failed db
              | some x ↦ done (summary_of row x) db
            ]
            >>= λ s d. done (some s) d)))
        (sym good)
        (upsert_quiet_summary-IsCounted (hit_key n r at) (add_hit e (summary_of row m) n r at) now
          db (select_key (hit_key n r at) db.summaries row found)
          (ap (λ o. total_of o +ℤ pos 1) (sym found)))

  pub aggregate_quiet_notification-IsCounted :
      (n : Notification V) (r : Rule E) (now : Time) (db : Db)
      → All (IsReadable e) db.summaries
      → IsCounted
          (summary_key e n r (quiet_summary_period e r (hit_time e n now)))
          db.summaries
          (state_of (aggregate_quiet_notification e n r now db)).summaries
  unfolding aggregate_quiet_notification get_quiet_summary query
  aggregate_quiet_notification-IsCounted n r now db readable =
      rw (works db.statements)
        (decode_found-IsCounted n r now (hit_time e n now) (tick db) _ readable refl)
