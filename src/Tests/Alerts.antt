-- ===== src/Tests/Alerts.antt =====
-- The alert engine's counters at small inputs.
use dozzle_gaia_fork.Common.{ℕ, ◌*◌, ◌≡◌, refl, true, false, [], ◌∷◌, arith}
use dozzle_gaia_fork.Common.Int.{◌-ℤ◌, pos, ◌+ℤ◌, int64}
use dozzle_gaia_fork.Common.MapOps.{assoc_map}
use dozzle_gaia_fork.Common.Outcome.{ok}
use dozzle_gaia_fork.Notification.Burst.{detect_burst}
use dozzle_gaia_fork.Notification.Burst.History.{replay, detect_burst-replay, verdict}
use dozzle_gaia_fork.Notification.Cooldowns.{is_log_cooldown_active, set_log_cooldown}
use dozzle_gaia_fork.Notification.Cooldowns.Laws.{cooling, is_log_cooldown_active-set_log_cooldown}
use dozzle_gaia_fork.Notification.Samples.{get_sample_window_seconds, record_metric_sample}
use dozzle_gaia_fork.Notification.Samples.Window.{
  enough, record_samples, record_metric_sample-record_samples,
}
use dozzle_gaia_fork.Notification.Subscription.{Subscription}
use dozzle_gaia_fork.Notification.Time.{
  Time, seconds, second, clamp_cooldown_seconds, clamp_cooldown_seconds_bounds,
}
use dozzle_gaia_fork.Notification.Unique.OncePerWindow.{evaluate_hits, evaluate_hits-only_at}
use dozzle_gaia_fork.Tests.Samples.{expr, rule, subscription}

-- A time, in seconds.
abbrev at : ℕ → Time
at n = pos (n * second)

is_log_cooldown_active-set_log_cooldown_example :
    is_log_cooldown_active (set_log_cooldown subscription "c1" (at 100)) "c1" (at 159)
    ≡ cooling (pos 60) (at 100) (at 159)
is_log_cooldown_active-set_log_cooldown_example =
    is_log_cooldown_active-set_log_cooldown subscription "c1" (at 100) [] "c1" (at 159) refl

held_back :
    is_log_cooldown_active (set_log_cooldown subscription "c1" (at 100)) "c1" (at 159) ≡ true
unfolding is_log_cooldown_active set_log_cooldown seconds int64 clamp_cooldown_seconds ◌+ℤ◌
held_back = refl

clamp_cooldown_seconds_bounds_example :
    (clamp_cooldown_seconds (pos 999999) ≡ pos 172800)
    × (seconds (clamp_cooldown_seconds (pos 999999)) ≡ pos 172_800_000_000_000)
clamp_cooldown_seconds_bounds_example = clamp_cooldown_seconds_bounds (pos 999999)

detect_burst-replay_example :
    (detect_burst (replay subscription "c1" (pos 3) (at 100 ∷ at 108 ∷ [])) "c1" (pos 3) (at 112)).1
    ≡ verdict rule (pos 3) 2
unfolding ◌-ℤ◌ seconds int64
detect_burst-replay_example =
    detect_burst-replay subscription "c1" (pos 3) [] (at 100) (at 100 ∷ at 108 ∷ []) (at 112)
      (refl, refl) refl refl (omega arith)

record_metric_sample-record_samples_example :
    (s1 s2 : Subscription expr assoc_map) × (record_samples subscription "c1"
        (true ∷ true ∷ false ∷ true ∷ [])
      ≡ ok s1)
    × (record_metric_sample s1 "c1" true
        ≡ ok (
          s2,
          enough (get_sample_window_seconds (pos 5)) (true ∷ true ∷ false ∷ true ∷ true ∷ []),
        ))
unfolding get_sample_window_seconds
record_metric_sample-record_samples_example =
    record_metric_sample-record_samples subscription "c1" [] (true ∷ true ∷ false ∷ true ∷ []) true
      (omega arith) refl refl

fires_at_four_fifths : enough 5 (true ∷ true ∷ false ∷ true ∷ true ∷ []) ≡ true
fires_at_four_fifths = refl

evaluate_hits-only_at_example :
    (s : Subscription expr assoc_map) × (evaluate_hits subscription "fp" "key" 2
        (pos (60 * second))
        (at 100 ∷ at 110 ∷ at 120 ∷ [])
      ≡ ok (s, false ∷ true ∷ false ∷ []))
unfolding ◌+ℤ◌
evaluate_hits-only_at_example =
    evaluate_hits-only_at subscription "fp" "key" 2 (pos (60 * second)) [] (at 100)
      (at 110 ∷ at 120 ∷ []) (omega arith) refl tt refl (refl, (refl, tt))
