-- ===== src/Notification/Unique.antt =====
-- internal/notification/modifiers.go and types.go: unique suppression. A key is taken from the
-- matched message, and the rule fires once for each key and window, at its threshold.
pub mod OncePerWindow
use dozzle_gaia_fork.Common.{
  ℕ, suc, ◌+◌, String, Bool, true, false, not, ◌&&◌, ◌||◌, Option, none, some, List, [], ◌∷◌, ltb,
  leb, ◌==◌, if◌then◌else◌,
}
use dozzle_gaia_fork.Common.Int.{ℤ, pos, negsuc, ◌+ℤ◌, ltb_ℤ, is_pos, is_zero}
use dozzle_gaia_fork.Common.MapOps.{MapOps}
use dozzle_gaia_fork.Common.Outcome.{Outcome, ok, panic, ◌>>=◌, deref}
use dozzle_gaia_fork.Common.Text.{is_empty}
use dozzle_gaia_fork.Notification.Rule.{Expr, Rule}
use dozzle_gaia_fork.Notification.Subscription.{Subscription, UniqueState}
use dozzle_gaia_fork.Notification.Time.{Time, Duration, zero_time, after, seconds}
use dozzle_gaia_fork.Notification.Types.{Values}

pub record UniqueDecision : Type 0 where
  pub allowed : Bool
  pub key : String
  pub count : ℕ
  pub threshold : ℕ
  pub window : ℤ
  pub threshold_reached : Bool
  pub sent : Bool
  pub window_start : Time

-- `uniqueDecision{Allowed: true}`
abbrev pub allow : UniqueDecision
allow = record {
  allowed = true;
  key = "";
  count = 0;
  threshold = 0;
  window = pos 0;
  threshold_reached = false;
  sent = false;
  window_start = zero_time;
}

-- `ExtractUniqueKey`: the key and whether there is one.
unfoldable pub extract_unique_key : {V : Values} {E : Expr V} → Rule E → String → String × Bool
extract_unique_key {E = E} r message =
    if not (is_pos r.unique_window) then ("", false) else elim r.unique_regex [
      | none ↦ ("", false)
      | some re ↦ elim (E.find_string_submatch re message) [
        | [] ↦ ("", false)
        | whole ∷ [] ↦ (E.trim_space whole, not (is_empty (E.trim_space whole)))
        | whole ∷ group ∷ _ ↦ (E.trim_space group, not (is_empty (E.trim_space group)))
      ]
    ]

-- The threshold that `evaluateUnique` works with.
unfoldable pub threshold_of : ℤ → ℕ
threshold_of (negsuc n) = 1
threshold_of (pos n) = if leb n 1 then 1 else n

unfoldable pub advance_unique_state :
    ℕ → Time → Bool → String → ℕ → ℤ → Time → Duration → UniqueDecision
advance_unique_state count window_start sent key threshold window_seconds now window =
    let expired = is_zero window_start || after now (window_start +ℤ window) in
    let count' = (if expired then 0 else count) + 1 in
    let sent' = if expired then false else sent in
    let allowed = not sent' && leb threshold count' in
    record {
      allowed = allowed;
      key = key;
      count = count';
      threshold = threshold;
      window = window_seconds;
      threshold_reached = allowed && ltb 1 threshold;
      sent = sent' || allowed;
      window_start = if expired then now else window_start;
    }

-- The tracker's new state, as `evaluateUnique` takes it from a decision.
abbrev pub state_after : UniqueDecision → UniqueState
state_after d = record { count = d.count; window_start = d.window_start; sent = d.sent }

-- What `LoadOrCompute` returns: the first hit creates the state that it then advances.
abbrev pub state_or_new : Option UniqueState → Time → UniqueState
state_or_new none now = record { count = 0; window_start = now; sent = false }
state_or_new (some st) now = st

module _ {V : Values} {E : Expr V} {X : MapOps} where
  -- The rest of `evaluateUniqueInMemory`, with the state that was loaded.
  abbrev pub advance_tracker :
      Subscription E X
      → X.Map UniqueState
      → String
      → String
      → ℕ
      → Time
      → Duration
      → Option UniqueState
      → Subscription E X × UniqueDecision
  advance_tracker s m fp key threshold now window loaded =
      let st = state_or_new loaded now in
      let d =
        advance_unique_state st.count st.window_start st.sent key threshold s.rule.unique_window now
          window in
      (record s { unique_trackers = some (X.store m fp (state_after d)) }, d)

  unfoldable pub evaluate_unique_in_memory :
      Subscription E X
      → String
      → String
      → ℕ
      → Time
      → Duration
      → Outcome (Subscription E X × UniqueDecision)
  evaluate_unique_in_memory s fp key threshold now window = do
    m ← deref s.unique_trackers
    ok (advance_tracker s m fp key threshold now window (X.load m fp))
