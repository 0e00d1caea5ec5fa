-- ===== src/Notification/QuietHours/Ends.antt =====
-- Quiet hours last until the end that is computed for them. The clock is a plain one, with days of 24
-- hours: where a zone changes its offset, the code's `Add(24 * time.Hour)` misses the configured end.
use dozzle_gaia_fork.Common.{
  ℕ, ◌+◌, ◌-◌, ◌%◌, ◌<◌, ◌≤◌, ◌≡◌, ◌≢◌, refl, sym, ◌∙◌, ap, String, Bool, true, false, not, ◌&&◌,
  ◌||◌, ltb, if◌then◌else◌, arith, Bool-cases, inl, inr,
}
use dozzle_gaia_fork.Common.Int.{pos, negsuc, ◌+ℤ◌, ◌-ℤ◌, int_laws}
use dozzle_gaia_fork.Notification.Platform.{Platform, resolve_location}
use dozzle_gaia_fork.Notification.QuietHours.{
  in_window, next_end, a_day, time_today, in_daily_window, daily_end,
}
use dozzle_gaia_fork.Notification.Time.{Time, before}
use dozzle_gaia_fork.Notification.Types.{Values}

-- The window on a clock that shows `x` of a day's nanoseconds.
abbrev in_clock : ℕ → ℕ → ℕ → Bool
in_clock s e x = if ltb s e then not (ltb x s) && ltb x e else not (ltb x s) || ltb x e

before_offsets :
    (t : Time) (x s e : ℕ) → before ((t -ℤ pos x) +ℤ pos s) ((t -ℤ pos x) +ℤ pos e) ≡ ltb s e
before_offsets t x s e = grind int_laws

before_offset : (t : Time) (x s : ℕ) → before t ((t -ℤ pos x) +ℤ pos s) ≡ ltb x s
before_offset t x s = grind int_laws

offset_before : (t : Time) (x s : ℕ) → before ((t -ℤ pos x) +ℤ pos s) t ≡ ltb s x
offset_before t x s = grind int_laws

in_window-in_clock :
    (t : Time) (x s e : ℕ)
    → in_window ((t -ℤ pos x) +ℤ pos s) ((t -ℤ pos x) +ℤ pos e) t ≡ in_clock s e x
unfolding in_window
in_window-in_clock t x s e =
    rw (before_offsets t x s e, before_offset t x s, before_offset t x e) refl

shift : (t : Time) (x e : ℕ) → x ≤ e → (t -ℤ pos x) +ℤ pos e ≡ t +ℤ pos (e - x)
unfolding ◌+ℤ◌ ◌-ℤ◌
shift (pos n) x e h = ground arith
shift (negsuc n) x e h = ground arith

shift_day :
    (t : Time) (x e : ℕ)
    → x ≤ e + a_day
    → ((t -ℤ pos x) +ℤ pos e) +ℤ pos a_day ≡ t +ℤ pos (e + a_day - x)
unfolding ◌+ℤ◌ ◌-ℤ◌
shift_day (pos n) x e h = ground arith
shift_day (negsuc n) x e h = ground arith

-- From a clock in the window: how long it stays there.
until : ℕ → ℕ → ℕ
until x e = if ltb e x then e + a_day - x else e - x

stays :
    (s e x k : ℕ)
    → s < a_day
    → e < a_day
    → x < a_day
    → in_clock s e x ≡ true
    → k < until x e
    → in_clock s e ((x + k) % a_day) ≡ true
unfolding until
stays s e x k hs he hx quiet before_end = ground arith

ends :
    (s e x : ℕ)
    → s < a_day
    → e < a_day
    → x < a_day
    → s ≢ e
    → in_clock s e ((x + until x e) % a_day) ≡ false
unfolding until
ends s e x hs he hx differ = ground arith

-- A zone whose days all have 24 hours: what a clock shows there, in nanoseconds of the day.
pub record PlainClock {V : Values} (P : Platform V) (loc : P.Location) : Type 0 where
  pub clock : Time → ℕ
  pub clock_lt : (t : Time) → clock t < a_day
  pub clock_later : (t : Time) (k : ℕ) → clock (t +ℤ pos k) ≡ (clock t + k) % a_day

-- The text stands for this time of the day.
abbrev pub IsClockTime :
    {V : Values} (P : Platform V) (loc : P.Location) → PlainClock P loc → String → ℕ → Type 0
IsClockTime P loc c hhmm off =
    (off < a_day) × ((t : Time) → time_today P loc hhmm t ≡ (t -ℤ pos (c.clock t)) +ℤ pos off)

module _ {V : Values} (P : Platform V) (start finish timezone : String)
    (c : PlainClock P (resolve_location P timezone)) (s e : ℕ)
    (starts : IsClockTime P (resolve_location P timezone) c start s)
    (finishes : IsClockTime P (resolve_location P timezone) c finish e) where
  in_daily_window-in_clock :
      (t : Time) → in_daily_window P start finish timezone t ≡ in_clock s e (c.clock t)
  unfolding in_daily_window
  in_daily_window-in_clock t = rw (starts.1 t, finishes.1 t) (in_window-in_clock t (c.clock t) s e)

  daily_end-until :
      (now : Time) → (daily_end P finish timezone now).time ≡ now +ℤ pos (until (c.clock now) e)
  unfolding daily_end next_end until
  daily_end-until now = elim (Bool-cases (ltb e (c.clock now))) [
    | inl over ↦
        rw (finishes.1 now, offset_before now (c.clock now) e, over)
          (shift_day now (c.clock now) e (let lt = c.clock_lt now in omega arith))
    | inr ahead ↦
        rw (finishes.1 now, offset_before now (c.clock now) e, ahead)
          (shift now (c.clock now) e (ground arith))
  ]

  -- In a zone whose days all have 24 hours, with a window whose start and end differ: where quiet
  -- hours are on, they stay on at every time before the end that the code computes, and are off at
  -- that end.
  pub in_daily_window-daily_end :
      (s ≢ e)
      → (now : Time) → in_daily_window P start finish timezone now ≡ true
      → (j : ℕ) × ((daily_end P finish timezone now).time ≡ now +ℤ pos j)
        × ((k : ℕ) → k < j → in_daily_window P start finish timezone (now +ℤ pos k) ≡ true)
        × (in_daily_window P start finish timezone (now +ℤ pos j) ≡ false)
  in_daily_window-daily_end differ now quiet = (
    until (c.clock now) e,
    daily_end-until now,
    (λ k h.
        in_daily_window-in_clock (now +ℤ pos k)
        ∙ ap (in_clock s e) (c.clock_later now k)
        ∙ stays s e (c.clock now) k (starts.0) (finishes.0) (c.clock_lt now)
            (sym (in_daily_window-in_clock now) ∙ quiet) h),
    in_daily_window-in_clock (now +ℤ pos (until (c.clock now) e))
        ∙ ap (in_clock s e) (c.clock_later now (until (c.clock now) e))
        ∙ ends s e (c.clock now) (starts.0) (finishes.0) (c.clock_lt now) differ,
  )
