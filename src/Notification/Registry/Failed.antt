-- ===== src/Notification/Registry/Failed.antt =====
-- What an update that fails leaves.
use dozzle_gaia_fork.Common.{
  String, Bool, true, false, Option, none, some, List, [], ◌∷◌, ◌≡◌, refl, ap, ◌∙◌, if◌then◌else◌,
}
use dozzle_gaia_fork.Common.Int.{ℤ}
use dozzle_gaia_fork.Common.MapOps.{MapOps}
use dozzle_gaia_fork.Common.Outcome.{Outcome, ok}
use dozzle_gaia_fork.Notification.Compile.{CompileError, bad}
use dozzle_gaia_fork.Notification.Queue.Jobs.{eqb_ℤ}
use dozzle_gaia_fork.Notification.Registry.{Registry, lookup, put}
use dozzle_gaia_fork.Notification.Registry.Updates.{
  Update, UpdateError, apply_updates, finish_update, update_found, update_subscription,
}
use dozzle_gaia_fork.Notification.Rule.{Expr}
use dozzle_gaia_fork.Notification.Subscription.{Subscription, Timer, Armed}
use dozzle_gaia_fork.Notification.Types.{Values}
use dozzle_gaia_fork.Notification.Watchdog.{stop_runtime}
use dozzle_gaia_fork.Notification.Watchdog.Laws.{stop_runtime_full}

module _ {A : Type 0} where
  lookup_step :
      (b : Bool) (id j : ℤ) (t s s' : A) (l rest : List (ℤ × A))
      → eqb_ℤ j id ≡ b
      → (if b then some t else lookup id l) ≡ some s
      → (lookup id l ≡ some s → lookup id rest ≡ some s')
      → lookup id (if b then (j, s') ∷ l else (j, t) ∷ rest) ≡ some s'
  lookup_step true id j t s s' l rest e found below = ap (λ b. if b then some s' else lookup id l) e
  lookup_step false id j t s s' l rest e found below =
      ap (λ b. if b then some t else lookup id rest) e ∙ below found

  lookup-put :
      (id : ℤ) (s s' : A) (l : List (ℤ × A))
      → lookup id l ≡ some s
      → lookup id (put id s' l) ≡ some s'
  lookup-put id s s' [] found = absurd cc
  lookup-put id s s' ((j, t) ∷ l) found =
      lookup_step (eqb_ℤ j id) id j t s s' l (put id s' l) refl found (λ h. lookup-put id s s' l h)

module _ {V : Values} {E : Expr V} {X : MapOps} (fold : String → String) where
  -- For a rule of the registry with its map of timers, where the updates do not compile on any state
  -- of the rule: the update returns the error, the rule keeps its settings, and yet none of its
  -- containers has a watchdog timer any more.
  pub update_subscription_failed :
      (m : Registry E X) (id : ℤ) (us : List Update) (err : CompileError) (s : Subscription E X)
      (timers : X.Map (Timer (Armed V)))
      → lookup id m.subscriptions ≡ some s
      → s.watchdog_timers ≡ some timers
      → ((t : Subscription E X) → apply_updates fold us t ≡ bad err)
      → (m' : Registry E X) × (s' : Subscription E X) × (left : X.Map (Timer (Armed V)))
        × (update_subscription fold m id us ≡ ok (m', some (UpdateError.not_compiled err)))
        × (lookup id m'.subscriptions ≡ some s')
        × (s'.rule ≡ s.rule)
        × (s'.watchdog_timers ≡ some left)
        × ((k : String) → X.load left k ≡ none)
  unfolding update_subscription
  update_subscription_failed m id us err s timers found is fails =
      let (stopped, left, returns, holds, gone, same) = stop_runtime_full s timers is in
      (
        record m { subscriptions = put id stopped m.subscriptions },
        stopped,
        left,
        ap
              (λ o. elim o as (λ _. Outcome (Registry E X × Option UpdateError)) [
                | none ↦ ok (m, some UpdateError.not_found)
                | some s ↦ update_found fold m id us (stop_runtime s)
              ])
              found
            ∙ ap (update_found fold m id us) returns
            ∙ ap (λ r. ok (finish_update fold m id stopped r)) (fails stopped),
        lookup-put id s stopped m.subscriptions found,
        same,
        holds,
        gone,
      )
