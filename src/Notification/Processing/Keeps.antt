-- ===== src/Notification/Processing/Keeps.antt =====
-- What the parts of a hit leave of a rule, and of the manager where it has no queue.
use dozzle_gaia_fork.Common.{
  ℕ, ◌≡◌, refl, sym, ap, subst, String, Bool, true, false, Option, none, some, List, if◌then◌else◌,
}
use dozzle_gaia_fork.Common.Int.{ℤ}
use dozzle_gaia_fork.Common.MapOps.{MapOps}
use dozzle_gaia_fork.Common.Outcome.{Outcome, ok, ◌>>=◌, deref}
use dozzle_gaia_fork.Notification.Burst.{detect_burst}
use dozzle_gaia_fork.Notification.Drain.{get_dispatcher}
use dozzle_gaia_fork.Notification.Engine.{Engine, Send, World}
use dozzle_gaia_fork.Notification.Modifiers.{evaluate_unique}
use dozzle_gaia_fork.Notification.Queue.{Db}
use dozzle_gaia_fork.Notification.Processing.{dispatch}
use dozzle_gaia_fork.Notification.Rule.{Expr, Rule}
use dozzle_gaia_fork.Notification.Sending.{send_or_queue, send_now, send_without_queue}
use dozzle_gaia_fork.Notification.Subscription.{Subscription, UniqueState}
use dozzle_gaia_fork.Notification.Time.{Time, Duration}
use dozzle_gaia_fork.Notification.Types.{Values, Notification}
use dozzle_gaia_fork.Notification.Unique.{
  UniqueDecision, evaluate_unique_in_memory, advance_tracker, allow,
}

-- What a call keeps of a rule: its settings, its log cooldowns, its count, and that it has a map for
-- the unique keys.
pub record Keeps {V : Values} {E : Expr V} {X : MapOps} (s s' : Subscription E X) : Type 0 where
  pub rule : s'.rule ≡ s.rule
  pub cooldowns : s'.log_cooldowns ≡ s.log_cooldowns
  pub count : s'.trigger_count ≡ s.trigger_count
  pub trackers : (m : X.Map UniqueState) × (s'.unique_trackers ≡ some m)

module _ {V : Values} {E : Expr V} {X : MapOps} where
  abbrev pub HasTrackers : Subscription E X → Type 0
  HasTrackers s = (m : X.Map UniqueState) × (s.unique_trackers ≡ some m)

  pub unchanged : (s : Subscription E X) → HasTrackers s → Keeps s s
  unchanged s h = record { rule = refl; cooldowns = refl; count = refl; trackers = h }

  module _ {ℓ} (P : Subscription E X → Type ℓ) {B : Type 0} where
    either_of : (b : Bool) (x y : Subscription E X × B) → P x.0 → P y.0 → P (if b then x else y).0
    either_of true x y p q = p
    either_of false x y p q = q

    option_of :
        {A : Type 0} (o : Option A) (x : Subscription E X × B) (f : A → Subscription E X × B)
        → P x.0
        → ((a : A) → P (f a).0)
        → P (elim o as (λ _. Subscription E X × B) [ none ↦ x | some a ↦ f a ]).0
    option_of none x f p q = p
    option_of (some a) x f p q = q a

  -- `DetectBurst` changes the burst trackers alone.
  pub detect_burst_any {ℓ} :
      (P : Subscription E X → Type ℓ) (s : Subscription E X) (id : String) (p : ℤ) (now : Time)
      → P s
      → ((m : X.Map (List Time)) → P (record s { burst_trackers = some m }))
      → P (detect_burst s id p now).0
  unfolding detect_burst
  detect_burst_any P s id p now same stored =
      either_of P _ _ _ same
        (option_of P s.burst_trackers _ _ same (λ m. either_of P _ _ _ (stored _) (stored _)))

  pub detect_burst-Keeps :
      (s : Subscription E X) (id : String) (p : ℤ) (now : Time)
      → HasTrackers s
      → Keeps s (detect_burst s id p now).0
  detect_burst-Keeps s id p now h =
      detect_burst_any (Keeps s) s id p now (unchanged s h)
        (λ m. record { rule = refl; cooldowns = refl; count = refl; trackers = h })

  evaluate_unique_in_memory_ok :
      (s : Subscription E X) (fp key : String) (threshold : ℕ) (now : Time) (window : Duration)
      (m : X.Map UniqueState)
      → s.unique_trackers ≡ some m
      → evaluate_unique_in_memory s fp key threshold now window
        ≡ ok (advance_tracker s m fp key threshold now window (X.load m fp))
  unfolding evaluate_unique_in_memory
  evaluate_unique_in_memory_ok s fp key threshold now window m is =
      ap
        (λ o.
          deref o >>= λ m'. ok (advance_tracker s m' fp key threshold now window (X.load m' fp)))
        is

  -- A decision without a queue.
  pub record Decides (s : Subscription E X)
      (o : Outcome ((Subscription E X × Option Db) × UniqueDecision)) : Type 0 where
    pub after : Subscription E X
    pub decision : UniqueDecision
    pub returns : o ≡ ok ((after, none), decision)
    pub keeps : Keeps s after

  either_Decides :
      (s : Subscription E X) (b : Bool)
      (x y : Outcome ((Subscription E X × Option Db) × UniqueDecision))
      → Decides s x
      → Decides s y
      → Decides s (if b then x else y)
  either_Decides s true x y p q = p
  either_Decides s false x y p q = q

  pub evaluate_unique-Decides :
      (e : Engine E) (s : Subscription E X) (id message : String) (now : Time)
      → HasTrackers s
      → Decides s (evaluate_unique e s id message now none)
  unfolding evaluate_unique
  evaluate_unique-Decides e s id message now (m, is) =
      let start : Keeps s s = unchanged s (m, is) in
      either_Decides s _ _ _ (record { after = s; decision = allow; returns = refl; keeps = start })
        (subst (λ o. Decides s (o >>= λ (s', d). ok ((s', none), d)))
          (sym (evaluate_unique_in_memory_ok s _ _ _ now _ m is))
          (record {
            after = _;
            decision = _;
            returns = refl;
            keeps = record { rule = refl; cooldowns = refl; count = refl; trackers = (_, refl) };
          }))

module _ {V : Values} {E : Expr V} (e : Engine E) where
  abbrev pub no_queue : List (Send V) → World V
  no_queue ss = record { queue = none; sends = ss }

  either_queue :
      (b : Bool) (x y : World V)
      → x.queue ≡ none
      → y.queue ≡ none
      → (if b then x else y).queue ≡ none
  either_queue true x y p q = p
  either_queue false x y p q = q

  send_or_queue-queue :
      (d : V.Dispatcher) (n : Notification V) (r : Rule E) (now : Time) (ss : List (Send V))
      → (send_or_queue e d n r now (no_queue ss)).queue ≡ none
  unfolding send_or_queue send_without_queue send_now
  send_or_queue-queue d n r now ss = either_queue _ _ _ refl refl

  pub dispatch-queue :
      {X : MapOps} (s : Subscription E X) (n : Notification V) (now : Time) (ss : List (Send V))
      → (dispatch e s (no_queue ss) n now).queue ≡ none
  unfolding dispatch
  dispatch-queue s n now ss = found (get_dispatcher e.manager s.rule.dispatcher_id)
    where
      found :
          (o : Option V.Dispatcher)
          → (elim o as (λ _. World V) [
            | none ↦ no_queue ss
            | some d ↦ send_or_queue e d n s.rule now (no_queue ss)
          ]).queue
            ≡ none
      found none = refl
      found (some d) = send_or_queue-queue d n s.rule now ss

  pub same_if : {A : Type 0} (b : Bool) (x : A) → (if b then x else x) ≡ x
  same_if true x = refl
  same_if false x = refl
