-- ===== src/Notification/Retry.antt =====
-- internal/notification/processing.go: `sendWithRetry`. What it meets is given by the number of the
-- attempt: whether the rule is active before it, whether the dispatcher accepts the notification,
-- and whether the manager stops during the wait after it.
use dozzle_gaia_fork.Common.{
  ℕ, zero, suc, ◌+◌, ◌*◌, ◌≤◌, ◌<◌, ◌≡◌, refl, Bool, true, false, not, ltb, if◌then◌else◌, arith,
}
use dozzle_gaia_fork.Notification.Time.{second}

pub data SendResult : Type 0 where
  -- delivered by this attempt
  delivered : ℕ → SendResult
  inactive too_many_pending stopped failed_all : SendResult

-- The wait after an attempt.
unfoldable pub backoff : ℕ → ℕ
backoff attempt = attempt * attempt * (30 * second)

-- `is_active n` is the check before attempt n, number 0 the one before the semaphore.
module _ (is_active : ℕ → Bool) (acquired : Bool) (accepts stops : ℕ → Bool) where
  -- The loop, with the number of attempts that are left and the time that it has waited.
  unfoldable pub retry_loop : ℕ → ℕ → ℕ → SendResult × ℕ
  unfolding backoff
  retry_loop zero attempt waited = (failed_all, waited)
  retry_loop (suc left) attempt waited =
      let rest = retry_loop left (attempt + 1) (waited + backoff attempt) in
      if not (is_active attempt)
      then (inactive, waited)
      else if accepts attempt
      then (delivered attempt, waited)
      else if not (ltb attempt 3)
      then (failed_all, waited)
      else if stops attempt
      then (stopped, waited + backoff attempt)
      else rest

  unfoldable pub send_with_retry : SendResult × ℕ
  unfolding retry_loop
  send_with_retry =
      if not (is_active 0)
      then (inactive, 0)
      else if not acquired
      then (too_many_pending, 0)
      else retry_loop 3 1 0

  module _ (active : (n : ℕ) → is_active n ≡ true) (free : acquired ≡ true)
      (runs : (n : ℕ) → stops n ≡ false) where
    delivered_by :
        (k : ℕ)
        → 1 ≤ k
        → k ≤ 3
        → accepts k ≡ true
        → ((j : ℕ) → 1 ≤ j → j < k → accepts j ≡ false)
        → (send_with_retry.0 ≡ delivered k) × (send_with_retry.1 ≤ 150 * second)
    unfolding send_with_retry retry_loop backoff
    delivered_by zero lo hi takes refused = absurd (omega arith)
    delivered_by (suc zero) lo hi takes refused =
        rw (active 0, free, active 1, takes) (refl, omega arith)
    delivered_by (suc (suc zero)) lo hi takes refused =
        rw
          (active 0, free, active 1, refused 1 (omega arith) (omega arith), runs 1, active 2, takes)
          (refl, omega arith)
    delivered_by (suc (suc (suc zero))) lo hi takes refused =
        rw
          (
            active 0,
            free,
            active 1,
            refused 1 (omega arith) (omega arith),
            runs 1,
            active 2,
            refused 2 (omega arith) (omega arith),
            runs 2,
            active 3,
            takes,
          )
          (refl, omega arith)
    delivered_by (suc (suc (suc (suc k)))) lo hi takes refused = absurd (omega arith)

    -- While the rule is active, a slot is free and the manager runs: a notification that the
    -- dispatcher takes at one of the first three attempts is delivered by the first attempt that it
    -- takes, after no more than 150 seconds of waiting; one that it refuses three times is given up.
    pub send_with_retry-delivered :
        ((k : ℕ)
          → 1 ≤ k
          → k ≤ 3
          → accepts k ≡ true
          → ((j : ℕ) → 1 ≤ j → j < k → accepts j ≡ false)
          → (send_with_retry.0 ≡ delivered k) × (send_with_retry.1 ≤ 150 * second))
        × (((j : ℕ) → 1 ≤ j → j ≤ 3 → accepts j ≡ false) → send_with_retry.0 ≡ failed_all)
    unfolding send_with_retry retry_loop backoff
    send_with_retry-delivered = (
      delivered_by,
      λ refused.
          rw
            (
              active 0,
              free,
              active 1,
              refused 1 (omega arith) (omega arith),
              runs 1,
              active 2,
              refused 2 (omega arith) (omega arith),
              runs 2,
              active 3,
              refused 3 (omega arith) (omega arith),
            )
            refl,
    )
