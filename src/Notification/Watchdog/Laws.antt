-- ===== src/Notification/Watchdog/Laws.antt =====
-- What stopping and cancelling the watchdog timers leaves.
use dozzle_gaia_fork.Common.{
  String, Bool, true, false, none, some, List, [], ◌∷◌, ◌≡◌, refl, sym, ap, ◌∙◌, ◌||◌,
  if◌then◌else◌, Bool-cases, Option-cases, inl, inr,
}
use dozzle_gaia_fork.Common.MapOps.{MapOps}
use dozzle_gaia_fork.Common.Outcome.{Outcome, ok}
use dozzle_gaia_fork.Common.Text.{str_eq, elem}
use dozzle_gaia_fork.Notification.Rule.{Expr}
use dozzle_gaia_fork.Notification.Subscription.{Subscription, Timer, Armed}
use dozzle_gaia_fork.Notification.Types.{Values}
use dozzle_gaia_fork.Notification.Watchdog.{
  set_timers, cancel_watchdog_timer, cancel_all, stop_runtime,
}

module _ (X : MapOps) {V : Values} where
  -- The loop's map: without the keys.
  abbrev deleted : List String → X.Map (Timer (Armed V)) → X.Map (Timer (Armed V))
  deleted [] m = m
  deleted (k ∷ ks) m = deleted ks (X.delete m k)

  deleted_absent :
      (ks : List String) (m : X.Map (Timer (Armed V))) (k : String)
      → X.load m k ≡ none
      → X.load (deleted ks m) k ≡ none
  deleted_absent [] m k h = h
  deleted_absent (j ∷ ks) m k h =
      deleted_absent ks (X.delete m j) k (X.load-delete m j k ∙ either (str_eq j k) h)
    where
      either : (b : Bool) → X.load m k ≡ none → (if b then none else X.load m k) ≡ none
      either true h = refl
      either false h = h

  deleted-elem :
      (ks : List String) (m : X.Map (Timer (Armed V))) (k : String)
      → elem k ks ≡ true
      → X.load (deleted ks m) k ≡ none
  deleted-elem [] m k h = absurd cc
  deleted-elem (j ∷ ks) m k h = elim (Bool-cases (str_eq j k)) [
    | inl same ↦
        deleted_absent ks (X.delete m j) k
          (X.load-delete m j k ∙ ap (λ b. if b then none else X.load m k) same)
    | inr other ↦ deleted-elem ks (X.delete m j) k (ap (λ b. b || elem k ks) (sym other) ∙ h)
  ]

module _ {V : Values} {E : Expr V} {X : MapOps} where
  cancel_all_lem :
      (ks : List String) (s : Subscription E X) (m : X.Map (Timer (Armed V)))
      → s.watchdog_timers ≡ some m
      → cancel_all ks s ≡ ok (set_timers s (deleted X ks m))
  unfolding cancel_all cancel_watchdog_timer
  cancel_all_lem [] s m is = rw (← is) refl
  cancel_all_lem (k ∷ ks) s m is =
      rw is (cancel_all_lem ks (set_timers s (X.delete m k)) (X.delete m k) refl)

  pub stop_runtime_full :
      (s : Subscription E X) (m : X.Map (Timer (Armed V)))
      → s.watchdog_timers ≡ some m
      → (s' : Subscription E X) × (m' : X.Map (Timer (Armed V))) × (stop_runtime s ≡ ok s')
        × (s'.watchdog_timers ≡ some m')
        × ((k : String) → X.load m' k ≡ none)
        × (s'.rule ≡ s.rule)
  unfolding stop_runtime
  stop_runtime_full s m is = (
    set_timers s (deleted X (X.keys m) m),
    deleted X (X.keys m) m,
    rw (is, stop_runtime) (cancel_all_lem (X.keys m) s m is),
    refl,
    λ k. elim (Option-cases (X.load m k)) [
      | inl absent ↦ deleted_absent X (X.keys m) m k absent
      | inr (t, found) ↦ deleted-elem X (X.keys m) m k (X.mem-keys m k t found)
    ],
    refl,
  )

  -- Where the subscription has its map of timers: `StopRuntime` returns, and no container has a timer
  -- then.
  pub stop_runtime_all :
      (s : Subscription E X) (m : X.Map (Timer (Armed V)))
      → s.watchdog_timers ≡ some m
      → (s' : Subscription E X) × (m' : X.Map (Timer (Armed V))) × (stop_runtime s ≡ ok s')
        × (s'.watchdog_timers ≡ some m')
        × ((k : String) → X.load m' k ≡ none)
  stop_runtime_all s m is =
      let (s', m', returns, timers, gone, _) = stop_runtime_full s m is in
      (s', m', returns, timers, gone)

  -- `StopRuntime` returns, and keeps the rule.
  pub stop_runtime_rule :
      (s : Subscription E X)
      → (s' : Subscription E X) × (stop_runtime s ≡ ok s') × (s'.rule ≡ s.rule)
  unfolding stop_runtime
  stop_runtime_rule s = elim (Option-cases s.watchdog_timers) [
    | inl nil ↦ (
      s,
      ap
          (λ o. elim o as (λ _. Outcome (Subscription E X)) [
            | none ↦ ok s
            | some m ↦ cancel_all (X.keys m) s
          ])
          nil,
      refl,
    )
    | inr (m, is) ↦ (
      set_timers s (deleted X (X.keys m) m),
      ap
            (λ o. elim o as (λ _. Outcome (Subscription E X)) [
              | none ↦ ok s
              | some m' ↦ cancel_all (X.keys m') s
            ])
            is
          ∙ cancel_all_lem (X.keys m) s m is,
      refl,
    )
  ]
