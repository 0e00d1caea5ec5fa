-- ===== src/Notification/Modifiers.antt =====
-- internal/notification/modifiers.go: what a burst and a unique key add to a notification, and
-- `evaluateUnique`, which keeps its counters in the queue or, without one, in memory.
use dozzle_gaia_fork.Common.{
  ℕ, ◌/◌, ◌%◌, ◌==◌, String, Bool, not, Option, none, some, [], ◌∷◌, leb, if◌then◌else◌,
}
use dozzle_gaia_fork.Common.Int.{ℤ, pos, negsuc, pos_part}
use dozzle_gaia_fork.Common.MapOps.{MapOps}
use dozzle_gaia_fork.Common.Outcome.{Outcome, ok, ◌>>=◌}
use dozzle_gaia_fork.Common.Text.{is_empty, concat}
use dozzle_gaia_fork.Notification.Engine.{Engine}
use dozzle_gaia_fork.Notification.Fingerprint.{alert_fingerprint}
use dozzle_gaia_fork.Notification.Platform.{Platform}
use dozzle_gaia_fork.Notification.Queue.{Db, StoredUnique, Reply, done, failed, state_of}
use dozzle_gaia_fork.Notification.Queue.States.{get_or_create_unique_state, upsert_unique_state}
use dozzle_gaia_fork.Notification.Rule.{Expr, Rule}
use dozzle_gaia_fork.Notification.Subscription.{Subscription}
use dozzle_gaia_fork.Notification.Time.{Time, seconds}
use dozzle_gaia_fork.Notification.Types.{Values, Notification, add_context, add_modifier_tag}
use dozzle_gaia_fork.Notification.Unique.{
  UniqueDecision, allow, extract_unique_key, threshold_of, advance_unique_state,
  evaluate_unique_in_memory,
}

module _ {V : Values} (P : Platform V) where
  unfoldable pub format_duration_seconds : ℤ → String
  format_duration_seconds (negsuc n) = "0s"
  format_duration_seconds (pos n) =
      if leb n 0
      then "0s"
      else if n % 86400 == 0
      then concat (P.decimal (pos (n / 86400)) ∷ "d" ∷ [])
      else if n % 3600 == 0
      then concat (P.decimal (pos (n / 3600)) ∷ "h" ∷ [])
      else if n % 60 == 0
      then concat (P.decimal (pos (n / 60)) ∷ "m" ∷ [])
      else P.duration_string (seconds (pos n))

  abbrev per_window : ℤ → String → ℤ → String
  per_window count unit window =
      concat (P.decimal count ∷ unit ∷ format_duration_seconds window ∷ [])

  unfoldable pub apply_burst_modifier :
      {E : Expr V} → Notification V → Rule E → Bool → ℕ → Notification V
  unfolding add_modifier_tag add_context
  apply_burst_modifier n r escalated count =
      if not escalated
      then n
      else let tagged = add_modifier_tag n "burst" in
        let routed =
          if is_empty r.burst_ntfy_topic
          then tagged
          else record tagged { ntfy_topic = r.burst_ntfy_topic } in
        add_context (add_context routed "Burst" (per_window (pos count) " hits / " r.burst_window))
          "Delivery" "burst escalated"

  unfoldable pub apply_unique_modifier : Notification V → UniqueDecision → Notification V
  unfolding add_modifier_tag add_context
  apply_unique_modifier n d =
      if is_empty d.key
      then n
      else let unique = add_modifier_tag n "unique" in
        let tagged = if d.threshold_reached then add_modifier_tag unique "threshold" else unique in
        let counted =
          add_context (add_context tagged "Unique key" d.key) "Hits"
            (per_window (pos d.count) " / " d.window) in
        add_context counted "Delivery" (
          if d.threshold_reached
          then concat ("threshold reached (" ∷ P.decimal (pos d.threshold) ∷ " hits)" ∷ [])
          else "first unique value in window")

abbrev after_decision : StoredUnique → UniqueDecision → StoredUnique
after_decision st d = record st {
  count = pos d.count;
  window_start = d.window_start;
  is_sent = d.sent;
}

module _ {V : Values} {E : Expr V} {X : MapOps} (e : Engine E) where
  abbrev stored_decision : StoredUnique → Subscription E X → String → Time → UniqueDecision
  stored_decision st s key now =
      advance_unique_state (pos_part st.count) st.window_start st.is_sent key
        (threshold_of s.rule.unique_threshold) s.rule.unique_window now
        (seconds s.rule.unique_window)

  abbrev in_memory :
      Subscription E X
      → String
      → String
      → Time
      → Option Db
      → Outcome ((Subscription E X × Option Db) × UniqueDecision)
  in_memory s fp key now q = do
    (s', d) ←
        evaluate_unique_in_memory s fp key (threshold_of s.rule.unique_threshold) now
          (seconds s.rule.unique_window)
    ok ((s', q), d)

  -- What follows the call of `GetOrCreateUniqueState`. A count in the table is never negative; an
  -- error of the update is dropped.
  abbrev with_stored :
      Subscription E X
      → String
      → String
      → Time
      → Reply StoredUnique
      → Outcome ((Subscription E X × Option Db) × UniqueDecision)
  with_stored s fp key now (done st db) =
      let d = stored_decision st s key now in
      let (_, written) = upsert_unique_state e.fails (after_decision st d) now db in
      ok ((s, some (state_of written)), d)
  with_stored s fp key now (failed db) = in_memory s fp key now (some db)

  abbrev evaluate_key :
      Subscription E X
      → String
      → String
      → Time
      → Option Db
      → Outcome ((Subscription E X × Option Db) × UniqueDecision)
  evaluate_key s fp key now none = in_memory s fp key now none
  evaluate_key s fp key now (some db) =
      with_stored s fp key now (get_or_create_unique_state e.fails fp s.rule.id key now db)

  unfoldable pub evaluate_unique :
      Subscription E X
      → String
      → String
      → Time
      → Option Db
      → Outcome ((Subscription E X × Option Db) × UniqueDecision)
  unfolding alert_fingerprint
  evaluate_unique s id message now q =
      let (key, found) = extract_unique_key s.rule message in
      if not found
      then ok ((s, q), allow)
      else evaluate_key s (alert_fingerprint e.platform s.rule.name "" id "unique" key) key now q
