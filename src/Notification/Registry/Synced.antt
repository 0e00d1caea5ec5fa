-- ===== src/Notification/Registry/Synced.antt =====
-- The listeners of samples and events run exactly where an enabled rule needs them.
use dozzle_gaia_fork.Common.{
  ℕ, suc, ◌==◌, count_where, arith, String, Bool, true, false, ◌&&◌, ◌||◌, not, Option, none, some,
  List, [], ◌∷◌, ◌≡◌, refl, sym, ap, ◌∙◌, subst, is_some, if◌then◌else◌,
}
use dozzle_gaia_fork.Common.Int.{ℤ}
use dozzle_gaia_fork.Common.MapOps.{MapOps}
use dozzle_gaia_fork.Common.Outcome.{Outcome, ok, ◌>>=◌}
use dozzle_gaia_fork.Notification.Compile.{compile_expressions, Checked, good, bad}
use dozzle_gaia_fork.Notification.Queue.Jobs.{eqb_ℤ}
use dozzle_gaia_fork.Notification.Registry.{
  Registry, lookup, put, remove, needs_stats, needs_events, update_listeners, add_subscription,
  replace_subscription, remove_subscription, store_compiled, replace_compiled, with_watchdog_maps,
  with_new_maps, normalized, next_counter,
}
use dozzle_gaia_fork.Notification.Registry.Updates.{
  Update, UpdateError, apply_updates, finish_update, update_found, update_subscription,
}
use dozzle_gaia_fork.Notification.Rule.{Expr, Rule, is_metric_alert, is_event_alert}
use dozzle_gaia_fork.Notification.Subscription.{Subscription}
use dozzle_gaia_fork.Notification.Types.{Values}
use dozzle_gaia_fork.Notification.Watchdog.{stop_runtime}
use dozzle_gaia_fork.Notification.Watchdog.Laws.{stop_runtime_rule}

-- A call that changes the rules.
pub data Request {V : Values} (E : Expr V) (X : MapOps) : Type 0 where
  adds : Subscription E X → Request E X
  replaces : Subscription E X → Request E X
  removes : ℤ → Request E X
  updates : ℤ → List Update → Request E X

-- How many enabled rules are metric alerts, and how many are event alerts.
abbrev pub metric_alerts : {V : Values} {E : Expr V} {X : MapOps} → List (ℤ × Subscription E X) → ℕ
metric_alerts l = count_where (λ p. p.1.rule.enabled && is_metric_alert p.1.rule) l

abbrev pub event_alerts : {V : Values} {E : Expr V} {X : MapOps} → List (ℤ × Subscription E X) → ℕ
event_alerts l = count_where (λ p. p.1.rule.enabled && is_event_alert p.1.rule) l

-- The listeners run exactly where there is such a rule.
pub record IsSynced {V : Values} {E : Expr V} {X : MapOps} (m : Registry E X) : Type 0 where
  pub stats : m.is_listening_to_stats ≡ not (metric_alerts m.subscriptions == 0)
  pub events : m.is_listening_to_events ≡ not (event_alerts m.subscriptions == 0)

record FollowsLoops {V : Values} {E : Expr V} {X : MapOps} (m : Registry E X) : Type 0 where
  pub stats : m.is_listening_to_stats ≡ needs_stats m.subscriptions
  pub events : m.is_listening_to_events ≡ needs_events m.subscriptions

or_count : (b c : Bool) (n : ℕ) → c ≡ not (n == 0) → (b || c) ≡ not ((if b then suc n else n) == 0)
or_count true c n h = ground arith
or_count false c n h = h

module _ {V : Values} {E : Expr V} {X : MapOps} (fold : String → String) where
  abbrev registry_of : {A : Type 0} → Outcome (Registry E X × A) → Outcome (Registry E X)
  registry_of o = o >>= λ (m, _). ok m

  unfoldable pub serve : Request E X → Registry E X → Outcome (Registry E X)
  serve (adds s) m = ok (add_subscription fold m s).0
  serve (replaces s) m = ok (replace_subscription fold m s).0
  serve (removes id) m = ok (remove_subscription m id)
  serve (updates id us) m = registry_of (update_subscription fold m id us)

  unfoldable pub serve_all : List (Request E X) → Registry E X → Outcome (Registry E X)
  unfolding serve
  serve_all [] m = ok m
  serve_all (q ∷ qs) m = serve q m >>= serve_all qs

  update_listeners-FollowsLoops : (m : Registry E X) → FollowsLoops (update_listeners m)
  unfolding update_listeners
  update_listeners-FollowsLoops m = record { stats = refl; events = refl }

  SameNeeds : (l l' : List (ℤ × Subscription E X)) → Type 0
  SameNeeds l l' = (needs_stats l ≡ needs_stats l') × (needs_events l ≡ needs_events l')

  rule_or : Rule E → Option (Subscription E X) → Rule E
  rule_or r none = r
  rule_or r (some s) = s.rule

  put_step :
      (b : Bool) (id j : ℤ) (t s s' : Subscription E X) (l rest : List (ℤ × Subscription E X))
      → (if b then some t else lookup id l) ≡ some s
      → s'.rule ≡ s.rule
      → (lookup id l ≡ some s → SameNeeds rest l)
      → SameNeeds (if b then (j, s') ∷ l else (j, t) ∷ rest) ((j, t) ∷ l)
  unfolding SameNeeds rule_or
  put_step true id j t s s' l rest found same below =
      let e = same ∙ sym (ap (rule_or t.rule) found) in
      (
        ap (λ (r : Rule E). r.enabled && is_metric_alert r || needs_stats l) e,
        ap (λ (r : Rule E). r.enabled && is_event_alert r || needs_events l) e,
      )
  put_step false id j t s s' l rest found same below =
      let (stats, events) = below found in
      (
        ap (λ b. t.rule.enabled && is_metric_alert t.rule || b) stats,
        ap (λ b. t.rule.enabled && is_event_alert t.rule || b) events,
      )

  -- A rule that is stored again needs what it needed.
  put-SameNeeds :
      (id : ℤ) (s s' : Subscription E X) (l : List (ℤ × Subscription E X))
      → lookup id l ≡ some s
      → s'.rule ≡ s.rule
      → SameNeeds (put id s' l) l
  put-SameNeeds id s s' [] found same = absurd cc
  put-SameNeeds id s s' ((j, t) ∷ l) found same =
      put_step (eqb_ℤ j id) id j t s s' l (put id s' l) found same
        (λ h. put-SameNeeds id s s' l h same)

  -- A request is served, and the listeners are right after it.
  record Serves (o : Outcome (Registry E X)) : Type 0 where
    registry : Registry E X
    returns : o ≡ ok registry
    synced : FollowsLoops registry

  served : (m : Registry E X) → FollowsLoops m → Serves (ok m)
  served m h = record { registry = m; returns = refl; synced = h }

  store_compiled-FollowsLoops :
      (m : Registry E X) (s : Subscription E X) (r : Checked (Rule E))
      → FollowsLoops m
      → FollowsLoops (store_compiled fold m s r).0
  store_compiled-FollowsLoops m s (bad err) h = h
  store_compiled-FollowsLoops m s (good r) h = update_listeners-FollowsLoops _

  replace_compiled-FollowsLoops :
      (m : Registry E X) (s : Subscription E X) (r : Checked (Rule E))
      → FollowsLoops m
      → FollowsLoops (replace_compiled fold m s r).0
  replace_compiled-FollowsLoops m s (bad err) h = h
  replace_compiled-FollowsLoops m s (good r) h = update_listeners-FollowsLoops _

  either_FollowsLoops :
      (b : Bool) (x y : Registry E X)
      → FollowsLoops x
      → FollowsLoops y
      → FollowsLoops (if b then x else y)
  either_FollowsLoops true x y p q = p
  either_FollowsLoops false x y p q = q

  finish_update-FollowsLoops :
      (m : Registry E X) (id : ℤ) (s stopped : Subscription E X) (r : Checked (Subscription E X))
      → lookup id m.subscriptions ≡ some s
      → stopped.rule ≡ s.rule
      → FollowsLoops m
      → FollowsLoops (finish_update fold m id stopped r).0
  unfolding SameNeeds
  finish_update-FollowsLoops m id s stopped (good updated) found same h =
      update_listeners-FollowsLoops _
  finish_update-FollowsLoops m id s stopped (bad err) found same h =
      let (stats, events) = put-SameNeeds id s stopped m.subscriptions found same in
      record { stats = h.stats ∙ sym stats; events = h.events ∙ sym events }

  update_subscription-Serves :
      (m : Registry E X) (id : ℤ) (us : List Update) (o : Option (Subscription E X))
      → lookup id m.subscriptions ≡ o
      → FollowsLoops m
      → Serves (
          registry_of (elim o as (λ _. Outcome (Registry E X × Option UpdateError)) [
            | none ↦ ok (m, some UpdateError.not_found)
            | some s ↦ update_found fold m id us (stop_runtime s)
          ]))
  update_subscription-Serves m id us none found h = served m h
  update_subscription-Serves m id us (some s) found h =
      let (stopped, returns, same) = stop_runtime_rule s in
      subst (λ o. Serves (registry_of (update_found fold m id us o))) (sym returns)
        (served _
          (finish_update-FollowsLoops m id s stopped (apply_updates fold us stopped) found same h))

  add_subscription-FollowsLoops :
      (m : Registry E X) (s : Subscription E X)
      → FollowsLoops m
      → FollowsLoops (add_subscription fold m s).0
  unfolding add_subscription
  add_subscription-FollowsLoops m s h =
      let id = next_counter m.subscription_counter in
      store_compiled-FollowsLoops (record m { subscription_counter = id }) (with_watchdog_maps s)
        (compile_expressions (normalized fold (record s.rule { id = id; enabled = true })))
        (record { stats = h.stats; events = h.events })

  replace_subscription-FollowsLoops :
      (m : Registry E X) (s : Subscription E X)
      → FollowsLoops m
      → FollowsLoops (replace_subscription fold m s).0
  unfolding replace_subscription
  replace_subscription-FollowsLoops m s h =
      replace_compiled-FollowsLoops m (with_new_maps s)
        (compile_expressions (normalized fold s.rule)) h

  remove_subscription-FollowsLoops :
      (m : Registry E X) (id : ℤ) → FollowsLoops m → FollowsLoops (remove_subscription m id)
  unfolding remove_subscription
  remove_subscription-FollowsLoops m id h =
      either_FollowsLoops (not (is_some (lookup id m.subscriptions))) m
        (update_listeners (record m { subscriptions = remove id m.subscriptions })) h
        (update_listeners-FollowsLoops (record m { subscriptions = remove id m.subscriptions }))

  serve-Serves : (q : Request E X) (m : Registry E X) → FollowsLoops m → Serves (serve q m)
  unfolding serve update_subscription
  serve-Serves (adds s) m h =
      served (add_subscription fold m s).0 (add_subscription-FollowsLoops m s h)
  serve-Serves (replaces s) m h =
      served (replace_subscription fold m s).0 (replace_subscription-FollowsLoops m s h)
  serve-Serves (removes id) m h =
      served (remove_subscription m id) (remove_subscription-FollowsLoops m id h)
  serve-Serves (updates id us) m h =
      update_subscription-Serves m id us (lookup id m.subscriptions) refl h

  serve_all-Serves :
      (qs : List (Request E X)) (m : Registry E X) → FollowsLoops m → Serves (serve_all qs m)
  unfolding serve_all
  serve_all-Serves [] m h = served m h
  serve_all-Serves (q ∷ qs) m h =
      let first = serve-Serves q m h in
      subst (λ o. Serves (o >>= serve_all qs)) (sym first.returns)
        (serve_all-Serves qs first.registry first.synced)

  needs_stats-metric_alerts :
      (l : List (ℤ × Subscription E X)) → needs_stats l ≡ not (metric_alerts l == 0)
  needs_stats-metric_alerts [] = refl
  needs_stats-metric_alerts ((_, s) ∷ l) =
      or_count (s.rule.enabled && is_metric_alert s.rule) _ _ (needs_stats-metric_alerts l)

  needs_events-event_alerts :
      (l : List (ℤ × Subscription E X)) → needs_events l ≡ not (event_alerts l == 0)
  needs_events-event_alerts [] = refl
  needs_events-event_alerts ((_, s) ∷ l) =
      or_count (s.rule.enabled && is_event_alert s.rule) _ _ (needs_events-event_alerts l)

  -- From rules with their listeners right, any additions, replacements, removals and updates of rules,
  -- those that fail included, are served, and then the listener of samples runs exactly if some
  -- enabled rule is a metric alert, and the listener of events exactly if some enabled rule is an
  -- event alert.
  pub serve_all-IsSynced :
      (qs : List (Request E X)) (m : Registry E X)
      → IsSynced m
      → (m' : Registry E X) × (serve_all qs m ≡ ok m') × IsSynced m'
  serve_all-IsSynced qs m h =
      let loops : FollowsLoops m = record {
        stats = h.stats ∙ sym (needs_stats-metric_alerts m.subscriptions);
        events = h.events ∙ sym (needs_events-event_alerts m.subscriptions);
      } in
      let s = serve_all-Serves qs m loops in
      (
        s.registry,
        s.returns,
        record {
          stats = s.synced.stats ∙ needs_stats-metric_alerts s.registry.subscriptions;
          events = s.synced.events ∙ needs_events-event_alerts s.registry.subscriptions;
        },
      )
