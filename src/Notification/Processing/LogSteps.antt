-- ===== src/Notification/Processing/LogSteps.antt =====
-- One call of `processLogEvent` for a rule, where the manager has no queue.
use dozzle_gaia_fork.Common.{
  ◌+◌, ◌≡◌, ◌⊎◌, refl, sym, ap, ap₂, ◌∙◌, subst, String, Bool, true, false, not, ◌&&◌, Option, none,
  some, List, inl, inr, if◌then◌else◌,
}
use dozzle_gaia_fork.Common.Int.{is_pos, is_zero}
use dozzle_gaia_fork.Common.MapOps.{MapOps}
use dozzle_gaia_fork.Common.Outcome.{ok, ◌>>=◌}
use dozzle_gaia_fork.Notification.Burst.{detect_burst}
use dozzle_gaia_fork.Notification.Cooldowns.{
  is_log_cooldown_active, set_log_cooldown, still_cooling,
}
use dozzle_gaia_fork.Notification.Engine.{Engine, Send}
use dozzle_gaia_fork.Notification.Processing.{
  Hit, Handled, process_hit, alert, dispatch, persist_cooldown, notification_of, unless_cooling,
  after_unique,
}
use dozzle_gaia_fork.Notification.Processing.Logs.{log_hit, on_log, watch_log}
use dozzle_gaia_fork.Notification.QuietSummary.{should_aggregate_quiet}
use dozzle_gaia_fork.Notification.Rule.{Expr, Rule, matches_log}
use dozzle_gaia_fork.Notification.Subscription.{Subscription, record_trigger, UniqueState}
use dozzle_gaia_fork.Notification.Time.{Time}
use dozzle_gaia_fork.Notification.Types.{Values, NotificationContainer, NotificationLog}
use dozzle_gaia_fork.Notification.Unique.{UniqueDecision}
use dozzle_gaia_fork.Notification.Processing.Keeps.{
  Keeps, HasTrackers, no_queue, unchanged, detect_burst-Keeps, evaluate_unique-Decides,
  dispatch-queue, same_if,
}

-- One call of the function for a log line: the rule does not fire, or it fires, which its cooldown
-- allowed, and the cooldown starts.
pub record LogStep {V : Values} {E : Expr V} {X : MapOps} (s : Subscription E X) (m : X.Map Time)
    (ss : List (Send V)) (id : String) (now : Time) (o : Handled E X) : Type 0 where
  pub after : Subscription E X
  pub sends : List (Send V)
  pub returns : o ≡ ok (after, record { queue = none; sends = sends })
  pub rule : after.rule ≡ s.rule
  pub trackers : (t : X.Map UniqueState) × (after.unique_trackers ≡ some t)
  pub fires :
      ((after.trigger_count ≡ s.trigger_count) × (after.log_cooldowns ≡ some m) × (sends ≡ ss))
      ⊎ ((is_log_cooldown_active s id now ≡ false)
          × (after.trigger_count ≡ s.trigger_count + 1)
          × (after.log_cooldowns ≡ some (X.store m id now)))

module _ {V : Values} {E : Expr V} {X : MapOps} (e : Engine E) where
  active_again :
      (s s' : Subscription E X) (id : String) (now : Time)
      → Keeps s s'
      → is_log_cooldown_active s' id now ≡ is_log_cooldown_active s id now
  unfolding is_log_cooldown_active
  active_again s s' id now k =
      ap₂
        (λ (r : Rule E) (o : Option (X.Map Time)).
          if is_zero r.cooldown then false else elim o as (λ _. Bool) [
            | none ↦ false
            | some m ↦ still_cooling r.cooldown (X.load m id) now
          ])
        k.rule k.cooldowns

  set_log_cooldown_ok :
      (s : Subscription E X) (m : X.Map Time) (id : String) (now : Time)
      → s.log_cooldowns ≡ some m
      → set_log_cooldown s id now ≡ record s { log_cooldowns = some (X.store m id now) }
  unfolding set_log_cooldown
  set_log_cooldown_ok s m id now is =
      ap
        (λ o. elim o as (λ _. Subscription E X) [
          | none ↦ s
          | some m' ↦ record s { log_cooldowns = some (X.store m' id now) }
        ])
        is

  module _ (s : Subscription E X) (m : X.Map Time) (ss : List (Send V)) (id : String)
      (c : NotificationContainer) (l : NotificationLog V) (now : Time)
      (is : s.log_cooldowns ≡ some m) (cools : is_pos s.rule.cooldown ≡ true) where
    abbrev hit : Hit E X
    hit = log_hit e s.rule id c l now

    silent : (s1 : Subscription E X) → Keeps s s1 → LogStep s m ss id now (ok (s1, no_queue e ss))
    silent s1 k = record {
      after = s1;
      sends = ss;
      returns = refl;
      rule = k.rule;
      trackers = k.trackers;
      fires = inl (k.count, k.cooldowns ∙ is, refl);
    }

    either_LogStep :
        (b : Bool) (x y : Handled E X)
        → LogStep s m ss id now x
        → LogStep s m ss id now y
        → LogStep s m ss id now (if b then x else y)
    either_LogStep true x y p q = p
    either_LogStep false x y p q = q

    persist_none :
        (s2 : Subscription E X) → persist_cooldown e hit s2 (no_queue e ss) now ≡ no_queue e ss
    unfolding persist_cooldown
    persist_none s2 = same_if e (not (is_pos s2.rule.cooldown)) (no_queue e ss)

    -- The alert, with the rule whose cooldown was started.
    alert-LogStep :
        (s1 : Subscription E X) (unique : UniqueDecision)
        → Keeps s s1
        → is_log_cooldown_active s id now ≡ false
        → let s2 = record s1 { log_cooldowns = some (X.store m id now) } in
          LogStep s m ss id now
            (ok (alert e hit s2 (persist_cooldown e hit s2 (no_queue e ss) now) unique now))
    unfolding alert record_trigger
    alert-LogStep s1 unique k idle =
        let s2 : Subscription E X = record s1 { log_cooldowns = some (X.store m id now) } in
        let marked = record_trigger s2 c.id now in
        let burst = detect_burst marked id s2.rule.ntfy_priority now in
        let kept : Keeps marked burst.0 =
          detect_burst-Keeps marked id s2.rule.ntfy_priority now k.trackers in
        let n = notification_of e hit burst.0.rule unique burst.1 now in
        let sent = dispatch e burst.0 (persist_cooldown e hit s2 (no_queue e ss) now) n now in
        let left : sent.queue ≡ none =
          subst (λ w. (dispatch e burst.0 w n now).queue ≡ none) (sym (persist_none s2))
            (dispatch-queue e burst.0 n now ss) in
        record {
          after = burst.0;
          sends = sent.sends;
          returns = ap (λ q. ok (burst.0, record { queue = q; sends = sent.sends })) left;
          rule = kept.rule ∙ k.rule;
          trackers = kept.trackers;
          fires = inr (idle, kept.count ∙ ap (λ x. x + 1) k.count, kept.cooldowns);
        }

    unless_cooling-LogStep :
        (s1 : Subscription E X) (unique : UniqueDecision) (b : Bool)
        → Keeps s s1
        → b ≡ is_log_cooldown_active s id now
        → LogStep s m ss id now (unless_cooling e hit s1 (no_queue e ss) unique now (ok b))
    unless_cooling-LogStep s1 unique true k same = silent s1 k
    unless_cooling-LogStep s1 unique false k same =
        subst
          (λ s2.
            LogStep s m ss id now
              (ok (alert e hit s2 (persist_cooldown e hit s2 (no_queue e ss) now) unique now)))
          (sym (
            ap (λ b. if b then set_log_cooldown s1 id now else s1)
              (ap (λ r. is_pos r.cooldown) k.rule ∙ cools)
            ∙ set_log_cooldown_ok s1 m id now (k.cooldowns ∙ is)))
          (alert-LogStep s1 unique k (sym same))

    process_hit-LogStep :
        HasTrackers s → LogStep s m ss id now (process_hit e hit s (no_queue e ss) now)
    unfolding process_hit should_aggregate_quiet
    process_hit-LogStep h =
        let d = evaluate_unique-Decides e s id hit.detail now h in
        subst (λ o. LogStep s m ss id now (o >>= after_unique e hit (no_queue e ss) now))
          (sym d.returns)
          (either_LogStep _ _ _ (silent d.after d.keeps) (
            unless_cooling-LogStep d.after d.decision _ d.keeps (
              ap₂ (λ x y. x && y) (ap (λ r. is_pos r.cooldown) d.keeps.rule ∙ cools)
                (active_again s d.after id now d.keeps))))

    -- The rule is no watchdog.
    pub on_log-LogStep :
        HasTrackers s
        → is_pos s.rule.watchdog_window ≡ false
        → LogStep s m ss id now (on_log e s (no_queue e ss) id c l now)
    unfolding on_log
    on_log-LogStep h plain =
        let still = silent s (unchanged s h) in
        either_LogStep _ _ _ still (
          either_LogStep _ _ _ still (
            subst
              (λ b. LogStep s m ss id now (
                if b
                then watch_log e s (no_queue e ss) id c l now
                else if not (matches_log s.rule l)
                then ok (s, no_queue e ss)
                else process_hit e hit s (no_queue e ss) now))
              (sym plain) (either_LogStep _ _ _ still (process_hit-LogStep h))))
