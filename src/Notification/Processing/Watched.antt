-- ===== src/Notification/Processing/Watched.antt =====
-- The watchdog mode of `processLogEvent`: what a line that clears it and a line that triggers it leave
-- of the timers.
use dozzle_gaia_fork.Common.{
  ◌≡◌, ◌≢◌, refl, ap, ap₂, ◌∙◌, String, Bool, true, false, not, ◌&&◌, ◌||◌, none, some, is_some,
  if◌then◌else◌,
}
use dozzle_gaia_fork.Common.Int.{ℤ, is_pos, ◌+ℤ◌}
use dozzle_gaia_fork.Common.MapOps.{MapOps, load-store_self}
use dozzle_gaia_fork.Common.Outcome.{ok, ◌>>=◌, deref}
use dozzle_gaia_fork.Common.Text.{eq_refl, str_ne}
use dozzle_gaia_fork.Notification.Burst.{detect_burst}
use dozzle_gaia_fork.Notification.Drain.{get_dispatcher}
use dozzle_gaia_fork.Notification.Engine.{Engine, World}
use dozzle_gaia_fork.Notification.Processing.{Handled}
use dozzle_gaia_fork.Notification.Processing.Keeps.{detect_burst_any, same_if}
use dozzle_gaia_fork.Notification.Processing.Logs.{
  on_log, watch_log, watch_clear, watch_trigger, watched_log,
}
use dozzle_gaia_fork.Notification.Processing.Watchdogs.{arm_watchdog, armed_by, send_clear}
use dozzle_gaia_fork.Notification.Rule.{
  Expr, is_log_alert, matches_container, matches_log, matches_watchdog,
}
use dozzle_gaia_fork.Notification.Schedule.{is_subscription_processable}
use dozzle_gaia_fork.Notification.Subscription.{Subscription, Timer, Armed}
use dozzle_gaia_fork.Notification.Time.{Time, seconds}
use dozzle_gaia_fork.Notification.Types.{Values, NotificationContainer, NotificationLog}
use dozzle_gaia_fork.Notification.Watchdog.{set_timers, cancel_watchdog_timer, reset_watchdog_timer}

take_then : {A : Type 0} (b : Bool) (x y : A) → b ≡ true → (if b then x else y) ≡ x
take_then b x y h = ap (λ c. if c then x else y) h

take_else : {A : Type 0} (b : Bool) (x y : A) → b ≡ false → (if b then x else y) ≡ y
take_else b x y h = ap (λ c. if c then x else y) h

-- The rule watches the container: it is processed now, it is a log alert with a watchdog window.
pub record IsWatching {V : Values} {E : Expr V} {X : MapOps} (e : Engine E) (s : Subscription E X)
    (c : NotificationContainer) (now : Time) : Type 0 where
  pub processable : is_subscription_processable e.manager.weekday s.rule now ≡ true
  pub log_alert : is_log_alert s.rule ≡ true
  pub matching : matches_container s.rule c ≡ true
  pub window : is_pos s.rule.watchdog_window ≡ true

module _ {V : Values} {E : Expr V} {X : MapOps} (e : Engine E) where
  on_log-watch_log :
      (s : Subscription E X) (w : World V) (id : String) (c : NotificationContainer)
      (l : NotificationLog V) (now : Time)
      → IsWatching e s c now
      → on_log e s w id c l now ≡ watch_log e s w id c l now
  unfolding on_log
  on_log-watch_log s w id c l now is =
      take_else _ _ _ (ap₂ (λ x y. not x || not y) is.processable is.log_alert)
      ∙ take_else _ _ _ (ap not is.matching)
      ∙ take_then _ _ _ is.window

  cancel_ok :
      (s : Subscription E X) (m : X.Map (Timer (Armed V))) (id : String)
      → s.watchdog_timers ≡ some m
      → cancel_watchdog_timer s id ≡ ok (set_timers s (X.delete m id), is_some (X.load m id))
  unfolding cancel_watchdog_timer
  cancel_ok s m id is =
      ap (λ o. deref o >>= λ m'. ok (set_timers s (X.delete m' id), is_some (X.load m' id))) is

  -- For a rule that watches the container, with its map of timers: a line that matches the clear
  -- pattern and not the trigger is processed, and then the container has no timer, and every other
  -- container has the timer that it had.
  pub on_log_cleared :
      (s : Subscription E X) (w : World V) (m : X.Map (Timer (Armed V))) (id : String)
      (c : NotificationContainer) (l : NotificationLog V) (now : Time)
      → IsWatching e s c now
      → s.watchdog_timers ≡ some m
      → is_some s.rule.watchdog_program ≡ true
      → matches_watchdog s.rule l ≡ true
      → matches_log s.rule l ≡ false
      → (s' : Subscription E X) × (w' : World V) × (m' : X.Map (Timer (Armed V))) × (on_log e s w id
            c l now
          ≡ ok (s', w'))
        × (s'.watchdog_timers ≡ some m')
        × (X.load m' id ≡ none)
        × ((k : String) → id ≢ k → X.load m' k ≡ X.load m k)
  unfolding watch_clear watch_trigger
  on_log_cleared s w m id c l now is timers program clears quiet =
      let cleared = set_timers s (X.delete m id) in
      let sent = send_clear e (watched_log e s.rule id c l) cleared w (is_some (X.load m id)) now in
      let clear : watch_clear e s w id c l now ≡ ok ((cleared, sent.0), sent.1) =
        take_else _ _ _ (ap₂ (λ x y. not (x && y)) program clears)
        ∙ ap
            (λ o. o >>= λ (s', was_active).
              let (w', stop) = send_clear e (watched_log e s.rule id c l) s' w was_active now in
              ok ((s', w'), stop))
            (cancel_ok s m id timers) in
      let trigger : watch_trigger e cleared sent.0 id c l now ≡ ok (cleared, sent.0) =
        take_then _ _ _ (ap not quiet) in
      (
        cleared,
        sent.0,
        X.delete m id,
        on_log-watch_log s w id c l now is
            ∙ ap
                (λ o. o >>= λ ((s', w'), stop).
                  if stop then ok (s', w') else watch_trigger e s' w' id c l now)
                clear
            ∙ ap (λ o. if sent.1 then ok (cleared, sent.0) else o) trigger
            ∙ same_if e sent.1 (ok (cleared, sent.0)),
        refl,
        X.load-delete m id id ∙ ap (λ b. if b then none else X.load m id) (eq_refl id),
        λ k other.
            X.load-delete m id k ∙ ap (λ b. if b then none else X.load m k) (str_ne id k other),
      )

  reset_ok :
      (s : Subscription E X) (m : X.Map (Timer (Armed V))) (id : String) (fire : Armed V) (n : ℤ)
      (now : Time)
      → s.watchdog_timers ≡ some m
      → reset_watchdog_timer s id fire n now
        ≡ ok (set_timers s (X.store m id (record { deadline = now +ℤ seconds n; action = fire })))
  unfolding reset_watchdog_timer
  reset_ok s m id fire n now is =
      ap
        (λ o. deref o >>= λ m'.
          ok (set_timers s (X.store m' id (record { deadline = now +ℤ seconds n; action = fire }))))
        is

  -- For a rule that watches the container, with its map of timers and a dispatcher: a line that matches
  -- the trigger and is not taken for the clear pattern is processed, sends nothing, and leaves the
  -- container with a timer that fires one watchdog window later, whatever timer it had before; every
  -- other container has the timer that it had.
  pub on_log_triggered :
      (s : Subscription E X) (w : World V) (m : X.Map (Timer (Armed V))) (id : String)
      (c : NotificationContainer) (l : NotificationLog V) (d : V.Dispatcher) (now : Time)
      → IsWatching e s c now
      → s.watchdog_timers ≡ some m
      → (is_some s.rule.watchdog_program && matches_watchdog s.rule l) ≡ false
      → matches_log s.rule l ≡ true
      → get_dispatcher e.manager s.rule.dispatcher_id ≡ some d
      → (s' : Subscription E X) × (m' : X.Map (Timer (Armed V))) × (t : Timer (Armed V)) × (on_log e
            s w id c l now
          ≡ ok (s', w))
        × (s'.watchdog_timers ≡ some m')
        × (X.load m' id ≡ some t)
        × (t.deadline ≡ now +ℤ seconds s.rule.watchdog_window)
        × ((k : String) → id ≢ k → X.load m' k ≡ X.load m k)
  unfolding watch_clear watch_trigger arm_watchdog
  on_log_triggered s w m id c l d now is timers unclear matching found =
      let burst = detect_burst s id s.rule.ntfy_priority now in
      let kept : burst.0.watchdog_timers ≡ some m =
        detect_burst_any (λ x. x.watchdog_timers ≡ some m) s id s.rule.ntfy_priority now timers
          (λ _. timers) in
      let t : Timer (Armed V) = record {
        deadline = now +ℤ seconds s.rule.watchdog_window;
        action = armed_by e (watched_log e s.rule id c l) d s burst.1 now;
      } in
      let m' = X.store m id t in
      (
        set_timers burst.0 m',
        m',
        t,
        on_log-watch_log s w id c l now is
            ∙ ap
                (λ o. o >>= λ ((s', w'), stop).
                  if stop then ok (s', w') else watch_trigger e s' w' id c l now)
                (take_then _ _ _ (ap not unclear))
            ∙ take_else _ _ _ (ap not matching)
            ∙ ap
                (λ o. elim o as (λ _. Handled E X) [
                  | none ↦ ok (s, w)
                  | some d' ↦
                      arm_watchdog e (watched_log e s.rule id c l) d' s now >>= λ s'. ok (s', w)
                ])
                found
            ∙ ap (λ o. o >>= λ s'. ok (s', w))
                (reset_ok burst.0 m id t.action s.rule.watchdog_window now kept),
        refl,
        load-store_self X m id t,
        refl,
        λ k other.
            X.load-store m id k t ∙ ap (λ b. if b then some t else X.load m k) (str_ne id k other),
      )
