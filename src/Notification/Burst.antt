-- ===== src/Notification/Burst.antt =====
-- internal/notification/types.go: `DetectBurst`, which raises the priority once a container has
-- triggered a rule often enough within a sliding window.
pub mod History
use dozzle_gaia_fork.Common.{
  ℕ, String, Bool, true, false, ◌&&◌, ◌||◌, not, Option, none, some, List, [], ◌∷◌, ◌++◌, length,
  ltb, leb, if◌then◌else◌,
}
use dozzle_gaia_fork.Common.Int.{ℤ, pos, pos_part, ◌-ℤ◌, is_pos}
use dozzle_gaia_fork.Common.MapOps.{MapOps}
use dozzle_gaia_fork.Common.Outcome.{Outcome, ok, panic, ◌>>=◌, deref}
use dozzle_gaia_fork.Notification.Rule.{Expr}
use dozzle_gaia_fork.Notification.Subscription.{Subscription}
use dozzle_gaia_fork.Notification.Time.{Time, after, seconds}
use dozzle_gaia_fork.Notification.Types.{Values}

-- The loop that keeps the times after the cutoff.
unfoldable pub prune : Time → List Time → List Time
prune cutoff [] = []
prune cutoff (t ∷ ts) = if after t cutoff then t ∷ prune cutoff ts else prune cutoff ts

abbrev pub stamps_of : (X : MapOps) → X.Map (List Time) → String → List Time
stamps_of X m id = elim (X.load m id) [ none ↦ [] | some ts ↦ ts ]

module _ {V : Values} {E : Expr V} {X : MapOps} where
  -- The priority, whether the burst threshold is reached, and the count. A positive `BurstCount`
  -- is compared as a natural number.
  unfoldable pub detect_burst :
      Subscription E X → String → ℤ → Time → Subscription E X × (ℤ × Bool × ℕ)
  detect_burst s id base_priority now =
      if not (is_pos s.rule.burst_count) || not (is_pos s.rule.burst_window)
      then (s, (base_priority, false, 0))
      else elim s.burst_trackers [
        | none ↦ (s, (base_priority, false, 0))
        | some m ↦
            let cutoff = now -ℤ seconds s.rule.burst_window in
            let pruned = prune cutoff (stamps_of X m id) ++ (now ∷ []) in
            let s' = record s { burst_trackers = some (X.store m id pruned) } in
            if leb (pos_part s.rule.burst_count) (length pruned) && is_pos s.rule.burst_priority
            then (s', (s.rule.burst_priority, true, length pruned))
            else (s', (base_priority, false, length pruned))
      ]
