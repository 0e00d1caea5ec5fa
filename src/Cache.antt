-- ===== src/Cache.antt =====
-- internal/cache/expire.go: the result of a function, kept for a time. `fetch n` is what the n-th call of the
-- function returns, with whether it reports an error; `now` and `later` are the clock before and
-- after that call. The lock makes each `GetWithHit` one step.
use dozzle_gaia_fork.Common.{
  ℕ, ◌+◌, Bool, true, false, not, ◌||◌, List, [], ◌∷◌, ◌≡◌, refl, ap, ◌∙◌, if◌then◌else◌, All,
}
use dozzle_gaia_fork.Common.Int.{◌-ℤ◌, ltb_ℤ, is_zero}
use dozzle_gaia_fork.Notification.Time.{Time, Duration, zero_time}

pub record Cache (T : Type 0) : Type 0 where
  pub timestamp : Time
  pub duration : Duration
  pub content : T
  pub calls : ℕ

-- `New`; the content is the type's zero value.
unfoldable pub new_cache : {T : Type 0} → T → Duration → Cache T
new_cache zero_value duration = record {
  timestamp = zero_time;
  duration = duration;
  content = zero_value;
  calls = 0;
}

-- What `GetWithHit` returns: the data, whether there is an error, and whether it was a hit.
pub record Got (T : Type 0) : Type 0 where
  pub content : T
  pub has_error : Bool
  pub hit : Bool

-- The data is to be fetched.
abbrev pub is_stale : {T : Type 0} → Cache T → Time → Bool
is_stale c now = is_zero c.timestamp || ltb_ℤ c.duration (now -ℤ c.timestamp)

-- Every answer is this value, without an error and without a call.
abbrev pub AllHits : {T : Type 0} → T → List (Got T) → Type 0
AllHits v = All (λ g. (g.content ≡ v) × (g.has_error ≡ false) × (g.hit ≡ true))

-- The rest of `GetWithHit`, with what the function returned.
abbrev pub after_fetch : {T : Type 0} → Cache T → Time → T × Bool → Cache T × Got T
after_fetch c later (value, true) = (
  record c { content = value; calls = c.calls + 1 },
  record { content = value; has_error = true; hit = false },
)
after_fetch c later (value, false) = (
  record c { content = value; calls = c.calls + 1; timestamp = later },
  record { content = value; has_error = false; hit = false },
)

module _ {T : Type 0} (fetch : ℕ → T × Bool) where
  unfoldable pub get_with_hit : Cache T → Time → Time → Cache T × Got T
  get_with_hit c now later =
      if not (is_stale c now)
      then (c, record { content = c.content; has_error = false; hit = true })
      else after_fetch c later (fetch c.calls)

  -- Calls one after the other, each with its two times.
  unfoldable pub get_all : Cache T → List (Time × Time) → Cache T × List (Got T)
  unfolding get_with_hit
  get_all c [] = (c, [])
  get_all c ((now, later) ∷ ts) =
      let (c1, got) = get_with_hit c now later in let (c2, rest) = get_all c1 ts in (c2, got ∷ rest)

  fresh_hits :
      (c : Cache T) (ts : List (Time × Time))
      → All (λ t. is_stale c t.0 ≡ false) ts
      → ((get_all c ts).0 ≡ c) × AllHits c.content (get_all c ts).1
  unfolding get_all get_with_hit
  fresh_hits c [] h = (refl, tt)
  fresh_hits c ((now, later) ∷ ts) (fresh, h) =
      let (same, hits) = fresh_hits c ts h in
      rw (get_with_hit, fresh) (same, ((refl, refl, refl), hits))

  not_stale :
      (c : Cache T) (ts : List (Time × Time))
      → is_zero c.timestamp ≡ false
      → All (λ t. ltb_ℤ c.duration (t.0 -ℤ c.timestamp) ≡ false) ts
      → All (λ t. is_stale c t.0 ≡ false) ts
  not_stale c [] started h = tt
  not_stale c ((now, later) ∷ ts) started (fresh, h) = (
    ap (λ b. b || ltb_ℤ c.duration (now -ℤ c.timestamp)) started ∙ fresh,
    not_stale c ts started h,
  )

  get_with_hit_fetched :
      (c : Cache T) (now later : Time) (value : T)
      → is_stale c now ≡ true
      → fetch c.calls ≡ (value, false)
      → (get_with_hit c now later).0
        ≡ record c { content = value; calls = c.calls + 1; timestamp = later }
  unfolding get_with_hit
  get_with_hit_fetched c now later value stale fetched = rw (stale, fetched) refl

  -- After a fetch without an error, every `GetWithHit` within the duration returns its value and
  -- fetches nothing.
  pub get_all-get_with_hit :
      (c : Cache T) (now later : Time) (value : T) (ts : List (Time × Time))
      → is_stale c now ≡ true
      → fetch c.calls ≡ (value, false)
      → is_zero later ≡ false
      → All (λ t. ltb_ℤ c.duration (t.0 -ℤ later) ≡ false) ts
      → ((get_all (get_with_hit c now later).0 ts).0.calls ≡ c.calls + 1)
        × AllHits value (get_all (get_with_hit c now later).0 ts).1
  unfolding get_with_hit
  get_all-get_with_hit c now later value ts stale fetched started within =
      let c1 = record c { content = value; calls = c.calls + 1; timestamp = later } in
      let (same, hits) = fresh_hits c1 ts (not_stale c1 ts started within) in
      rw (get_with_hit_fetched c now later value stale fetched) (ap (λ c2. c2.calls) same, hits)
