-- ===== src/Notification/Samples.antt =====
-- internal/notification/types.go: `RecordMetricSample`, which lets a metric rule fire once four
-- fifths of a container's last samples matched. The source compares the quotient of two counts of
-- at most 300 with the float 0.8; for such counts that is the comparison of products made here.
pub mod Window
use dozzle_gaia_fork.Common.{
  ℕ, suc, ◌+◌, ◌*◌, String, Bool, true, false, ◌&&◌, Option, none, some, List, [], ◌∷◌, ltb, leb,
  if◌then◌else◌,
}
use dozzle_gaia_fork.Common.Int.{ℤ, pos, negsuc}
use dozzle_gaia_fork.Common.MapOps.{MapOps}
use dozzle_gaia_fork.Common.Outcome.{Outcome, ok, panic, ◌>>=◌, deref, of_option}
use dozzle_gaia_fork.Notification.Rule.{Expr, Rule}
use dozzle_gaia_fork.Notification.Subscription.{Subscription}
use dozzle_gaia_fork.Notification.Types.{Values}
use dozzle_gaia_fork.Utils.RingBuffer.{RingBuffer, new_ring_buffer, push, len, contents}

-- `GetSampleWindowSeconds`; a window below 1 was already replaced by the default.
unfoldable pub get_sample_window_seconds : ℤ → ℕ
get_sample_window_seconds (negsuc n) = 15
get_sample_window_seconds (pos n) = if leb n 0 then 15 else if ltb 300 n then 300 else n

-- The loop that counts the samples that matched.
abbrev pub count_true : List Bool → ℕ
count_true [] = 0
count_true (true ∷ bs) = suc (count_true bs)
count_true (false ∷ bs) = count_true bs

-- What `LoadOrCompute` returns.
abbrev pub buffer_of : (X : MapOps) → ℕ → X.Map (RingBuffer Bool) → String → RingBuffer Bool
buffer_of X w m id = elim (X.load m id) [ none ↦ new_ring_buffer w | some b ↦ b ]

module _ {V : Values} {E : Expr V} {X : MapOps} where
  -- `LoadOrCompute` leaves the new buffer in the map; `Push` then changes it in place.
  unfoldable pub record_metric_sample :
      Subscription E X → String → Bool → Outcome (Subscription E X × Bool)
  record_metric_sample s id matched =
      let window = get_sample_window_seconds s.rule.sample_window in
      if leb window 1 then ok (s, matched) else do
        m ← deref s.metric_sample_buffers
        buf ← of_option (push (buffer_of X window m id) matched)
        let s' = record s { metric_sample_buffers = some (X.store m id buf) }
        ok (
          s',
          if ltb (len buf) window then false else leb (4 * len buf) (5 * count_true (contents buf)),
        )
