-- ===== src/Notification/Time.antt =====
-- Go's `time.Time` and `time.Duration`, as far as the alert engine uses them: nanoseconds, a time
-- counted from the zero time. A duration is an `int64` and wraps; the range of a time does not
-- come into play.
use dozzle_gaia_fork.Common.{
  ℕ, suc, ◌-◌, ◌*◌, min, true, false, ◌≡◌, refl, Bool, arith, ltb, if◌then◌else◌, Bool-cases, inl,
  inr,
}
use dozzle_gaia_fork.Common.Int.{ℤ, pos, negsuc, pos_part, ltb_ℤ, int64, int64_of_small}

abbrev pub Time : Type 0
Time = ℤ

abbrev pub Duration : Type 0
Duration = ℤ

-- The zero `time.Time`.
abbrev pub zero_time : Time
zero_time = pos 0

-- `a.After(b)`
abbrev pub after : Time → Time → Bool
after a b = ltb_ℤ b a

-- `a.Before(b)`
abbrev pub before : Time → Time → Bool
before a b = ltb_ℤ a b

abbrev pub scale : ℤ → ℕ → ℤ
scale (pos n) k = pos (n * k)
scale (negsuc n) k = negsuc (suc n * k - 1)

abbrev pub second : ℕ
second = 1_000_000_000

-- `time.Duration(n) * time.Second`
unfoldable pub seconds : ℤ → Duration
seconds n = int64 (scale n second)

-- internal/notification/types.go, `maxCooldownSeconds`
abbrev pub max_cooldown_seconds : ℕ
max_cooldown_seconds = 172800

unfoldable pub clamp_cooldown_seconds : ℤ → ℤ
clamp_cooldown_seconds (negsuc n) = pos 0
clamp_cooldown_seconds (pos n) =
    if ltb max_cooldown_seconds n then pos max_cooldown_seconds else pos n

min_over : (n : ℕ) → ltb max_cooldown_seconds n ≡ true → min n 172800 ≡ 172800
min_over n h = ground arith

min_fits : (n : ℕ) → ltb max_cooldown_seconds n ≡ false → min n 172800 ≡ n
min_fits n h = ground arith

-- A clamped cooldown is the configured number of seconds, or 0 where that is negative and 48 hours
-- where it is more; and its duration in nanoseconds does not overflow.
pub clamp_cooldown_seconds_bounds :
    (n : ℤ)
    → (clamp_cooldown_seconds n ≡ pos (min (pos_part n) 172800))
      × (seconds (clamp_cooldown_seconds n) ≡ pos (min (pos_part n) 172800 * 1_000_000_000))
unfolding clamp_cooldown_seconds seconds
clamp_cooldown_seconds_bounds (negsuc n) = (refl, int64_of_small 0 (omega arith))
clamp_cooldown_seconds_bounds (pos n) = elim (Bool-cases (ltb max_cooldown_seconds n)) [
  | inl over ↦ rw (over, min_over n over) (refl, int64_of_small _ (omega arith))
  | inr fits ↦ rw (fits, min_fits n fits) (refl, int64_of_small _ (ground arith))
]
