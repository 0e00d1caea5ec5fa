-- ===== src/Notification/Processing/Apart.antt =====
-- The log alerts of a container keep their cooldown, over any lines.
use dozzle_gaia_fork.Common.{
  ◌≡◌, ◌⊎◌, refl, sym, ap, ap₂, ◌∙◌, subst, String, Bool, true, false, none, some, List, [], ◌∷◌,
  inl, inr, All, arith, if◌then◌else◌,
}
use dozzle_gaia_fork.Common.Int.{ℤ, pos, negsuc, is_pos, is_zero}
use dozzle_gaia_fork.Common.MapOps.{MapOps, load-store_self}
use dozzle_gaia_fork.Common.Outcome.{ok, ◌>>=◌}
use dozzle_gaia_fork.Notification.Cooldowns.{is_log_cooldown_active, still_cooling}
use dozzle_gaia_fork.Notification.Engine.{Engine, Send, World}
use dozzle_gaia_fork.Notification.Processing.{Handled}
use dozzle_gaia_fork.Notification.Processing.Logs.{on_log}
use dozzle_gaia_fork.Notification.Rule.{Expr}
use dozzle_gaia_fork.Notification.Subscription.{Subscription}
use dozzle_gaia_fork.Notification.Time.{Time}
use dozzle_gaia_fork.Notification.Types.{Values, NotificationContainer, NotificationLog}
use dozzle_gaia_fork.Notification.Processing.Keeps.{HasTrackers, no_queue}
use dozzle_gaia_fork.Notification.Processing.LogSteps.{on_log-LogStep}

pub record Line (V : Values) : Type 0 where
  pub container : NotificationContainer
  pub log : NotificationLog V
  pub time : Time

not_zero : (n : ℤ) → is_pos n ≡ true → is_zero n ≡ false
not_zero (pos n) h = ground arith
not_zero (negsuc n) h = refl

module _ {V : Values} {E : Expr V} {X : MapOps} (e : Engine E) (id : String) where
  -- The calls for one rule and lines of one container.
  unfoldable pub on_lines : List (Line V) → Subscription E X → World V → Handled E X
  unfolding on_log
  on_lines [] s w = ok (s, w)
  on_lines (x ∷ xs) s w = on_log e s w id x.container x.log x.time >>= λ (s', w'). on_lines xs s' w'

  active_while :
      (s : Subscription E X) (m : X.Map Time) (t now : Time)
      → s.log_cooldowns ≡ some m
      → X.load m id ≡ some t
      → is_pos s.rule.cooldown ≡ true
      → is_log_cooldown_active s id now ≡ still_cooling s.rule.cooldown (some t) now
  unfolding is_log_cooldown_active
  active_while s m t now is last cools =
      ap₂
        (λ z o. if z then false else elim o as (λ _. Bool) [
          | none ↦ false
          | some m' ↦ still_cooling s.rule.cooldown (X.load m' id) now
        ])
        (not_zero s.rule.cooldown cools) is
      ∙ ap (λ o. still_cooling s.rule.cooldown o now) last

  -- Lines within the cooldown of an alert.
  on_lines_cooling :
      (xs : List (Line V)) (s : Subscription E X) (m : X.Map Time) (t : Time) (ss : List (Send V))
      → HasTrackers s
      → is_pos s.rule.watchdog_window ≡ false
      → is_pos s.rule.cooldown ≡ true
      → s.log_cooldowns ≡ some m
      → X.load m id ≡ some t
      → All (λ x. still_cooling s.rule.cooldown (some t) x.time ≡ true) xs
      → (s' : Subscription E X) × (on_lines xs s (no_queue e ss) ≡ ok (s', no_queue e ss))
        × (s'.trigger_count ≡ s.trigger_count)
  unfolding on_lines
  on_lines_cooling [] s m t ss h plain cools is last within = (s, refl, refl)
  on_lines_cooling (x ∷ xs) s m t ss h plain cools is last (now, within) =
      let step = on_log-LogStep e s m ss id x.container x.log x.time is cools h plain in
      elim step.fires [
        | inr (idle, _, _) ↦ absurd (let on = active_while s m t x.time is last cools ∙ now in cc)
        | inl (count, kept, sends) ↦
            let (s', runs, same) =
              on_lines_cooling xs step.after m t ss step.trackers
                (ap (λ r. is_pos r.watchdog_window) step.rule ∙ plain)
                (ap (λ r. is_pos r.cooldown) step.rule ∙ cools) kept last
                (subst (λ r. All (λ y. still_cooling r.cooldown (some t) y.time ≡ true) xs)
                  (sym step.rule) within) in
            (
              s',
              subst (λ o. (o >>= λ (a, w). on_lines xs a w) ≡ ok (s', no_queue e ss))
                  (sym step.returns) (ap (λ l. on_lines xs step.after (no_queue e l)) sends ∙ runs),
              same ∙ count,
            )
      ]

  -- For a manager without a queue, and a log rule that is no watchdog and has a cooldown and its maps:
  -- the call for a line of a container returns, and either it triggers no alert, or the calls for the
  -- lines of the container within the cooldown after it all return and trigger none and send nothing.
  pub on_log-on_lines :
      (s : Subscription E X) (m : X.Map Time) (ss : List (Send V)) (x : Line V) (xs : List (Line V))
      → HasTrackers s
      → is_pos s.rule.watchdog_window ≡ false
      → is_pos s.rule.cooldown ≡ true
      → s.log_cooldowns ≡ some m
      → All (λ y. still_cooling s.rule.cooldown (some x.time) y.time ≡ true) xs
      → (s1 : Subscription E X) × (ss1 : List (Send V)) × (on_log e s
            (no_queue e ss)
            id
            x.container
            x.log
            x.time
          ≡ ok (s1, no_queue e ss1))
        × (((s1.trigger_count ≡ s.trigger_count) × (ss1 ≡ ss))
            ⊎ ((s2 : Subscription E X) × (on_lines xs s1 (no_queue e ss1) ≡ ok (s2, no_queue e ss1))
                × (s2.trigger_count ≡ s1.trigger_count)))
  on_log-on_lines s m ss x xs h plain cools is within =
      let step = on_log-LogStep e s m ss id x.container x.log x.time is cools h plain in
      (
        step.after,
        step.sends,
        step.returns,
        elim step.fires [
          | inl (count, _, sends) ↦ inl (count, sends)
          | inr (_, _, stored) ↦ inr (
              on_lines_cooling xs step.after (X.store m id x.time) x.time step.sends step.trackers
                (ap (λ r. is_pos r.watchdog_window) step.rule ∙ plain)
                (ap (λ r. is_pos r.cooldown) step.rule ∙ cools) stored
                (load-store_self X m id x.time)
                (subst (λ r. All (λ y. still_cooling r.cooldown (some x.time) y.time ≡ true) xs)
                  (sym step.rule) within))
        ],
      )
