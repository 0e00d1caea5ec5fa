-- ===== src/Notification/Unique/OncePerWindow.antt =====
-- Unique suppression over a run of hits: within a window a key fires exactly once.
use dozzle_gaia_fork.Common.{
  ℕ, suc, ◌≤◌, String, Bool, true, false, ◌||◌, Option, none, some, List, [], ◌∷◌, leb, ◌==◌, ◌≡◌,
  refl, ap, ◌∙◌, arith, All, inl, inr, Bool-cases,
}
use dozzle_gaia_fork.Common.Int.{ℤ, ◌+ℤ◌, is_zero}
use dozzle_gaia_fork.Common.MapOps.{MapOps, load-store_self}
use dozzle_gaia_fork.Common.Outcome.{Outcome, ok, ◌>>=◌}
use dozzle_gaia_fork.Notification.Rule.{Expr}
use dozzle_gaia_fork.Notification.Subscription.{Subscription, UniqueState}
use dozzle_gaia_fork.Notification.Time.{Time, Duration, after}
use dozzle_gaia_fork.Notification.Types.{Values}
use dozzle_gaia_fork.Notification.Unique.{
  UniqueDecision, advance_unique_state, state_after, evaluate_unique_in_memory, state_or_new,
  advance_tracker,
}

-- Among the hits of a window, counted from `k` on, the one that is number `threshold`.
abbrev pub only_at : ℕ → ℕ → List Time → List Bool
only_at threshold k [] = []
only_at threshold k (t ∷ ts) = (suc k == threshold) ∷ only_at threshold (suc k) ts

-- A key that was not seen, or whose window is over.
abbrev pub IsFresh : Duration → Option UniqueState → Time → Type 0
IsFresh window none now = Unit
IsFresh window (some st) now =
    (is_zero st.window_start || after now (st.window_start +ℤ window)) ≡ true

-- The state of a key after `k` hits in the window that began at `start`.
record InWindow (threshold : ℕ) (start : Time) (k : ℕ) (st : UniqueState) : Type 0 where
  pub counted : st.count ≡ k
  pub started : st.window_start ≡ start
  pub sent_from_threshold : st.sent ≡ leb threshold k

module _ (key : String) (threshold : ℕ) (window_seconds : ℤ) (window : Duration) where
  abbrev decide : UniqueState → Time → UniqueDecision
  decide st now =
      advance_unique_state st.count st.window_start st.sent key threshold window_seconds now window

  InWindow-step :
      (start : Time) (k : ℕ) (st : UniqueState) (now : Time)
      → is_zero start ≡ false
      → after now (start +ℤ window) ≡ false
      → InWindow threshold start k st
      → ((decide st now).allowed ≡ (suc k == threshold))
        × InWindow threshold start (suc k) (state_after (decide st now))
  unfolding advance_unique_state
  InWindow-step start k st now dated inside t =
      let e = t.started in
      let c = t.counted in
      let f = t.sent_from_threshold in rw (e, dated, inside, c, f) (ground arith)

  -- The first hit of a key, or its first after a window is over, begins a window.
  InWindow-first :
      (o : Option UniqueState) (now : Time)
      → 1 ≤ threshold
      → IsFresh window o now
      → ((decide (state_or_new o now) now).allowed ≡ (1 == threshold))
        × InWindow threshold now 1 (state_after (decide (state_or_new o now) now))
  unfolding advance_unique_state
  InWindow-first none now pos f = elim (Bool-cases (is_zero now || after now (now +ℤ window))) [
    | inl over ↦ rw over (ground arith)
    | inr inside ↦ rw inside (ground arith)
  ]
  InWindow-first (some st) now pos f = rw f (ground arith)

module _ {V : Values} {E : Expr V} {X : MapOps} where
  -- Hits of one key at the times given, in order, and which of them are let through.
  pub evaluate_hits :
      Subscription E X
      → String
      → String
      → ℕ
      → Duration
      → List Time
      → Outcome (Subscription E X × List Bool)
  evaluate_hits s fp key threshold window [] = ok (s, [])
  evaluate_hits s fp key threshold window (t ∷ ts) = do
    (s', d) ← evaluate_unique_in_memory s fp key threshold t window
    (s'', rest) ← evaluate_hits s' fp key threshold window ts
    ok (s'', d.allowed ∷ rest)

  -- What the tracker holds of the key.
  record Holds (fp : String) (o : Option UniqueState) (s : Subscription E X) : Type 0 where
    pub trackers : X.Map UniqueState
    pub present : s.unique_trackers ≡ some trackers
    pub state : X.load trackers fp ≡ o

  evaluate_unique_in_memory_lem :
      (s : Subscription E X) (fp key : String) (threshold : ℕ) (now : Time) (window : Duration)
      (o : Option UniqueState)
      → (h : Holds fp o s)
      → let d = decide key threshold s.rule.unique_window window (state_or_new o now) now in
        (s' : Subscription E X) × (evaluate_unique_in_memory s fp key threshold now window
          ≡ ok (s', d))
        × Holds fp (some (state_after d)) s'
  unfolding evaluate_unique_in_memory
  evaluate_unique_in_memory_lem s fp key threshold now window o h =
      let d = decide key threshold s.rule.unique_window window (state_or_new o now) now in
      let m = X.store h.trackers fp (state_after d) in
      (
        record s { unique_trackers = some m },
        rw h.present
            (ap (λ l. ok (advance_tracker s h.trackers fp key threshold now window l)) h.state),
        record {
          trackers = m;
          present = refl;
          state = load-store_self X h.trackers fp (state_after d);
        },
      )

  evaluate_hits_cons :
      (s s' s'' : Subscription E X) (fp key : String) (threshold : ℕ) (window : Duration) (t : Time)
      (ts : List Time) (d : UniqueDecision) (a : Bool) (rest : List Bool)
      → evaluate_unique_in_memory s fp key threshold t window ≡ ok (s', d)
      → d.allowed ≡ a
      → evaluate_hits s' fp key threshold window ts ≡ ok (s'', rest)
      → evaluate_hits s fp key threshold window (t ∷ ts) ≡ ok (s'', a ∷ rest)
  unfolding evaluate_hits
  evaluate_hits_cons s s' s'' fp key threshold window t ts d a rest one e all =
      rw one (ap (λ r. r >>= λ q. ok (q.0, d.allowed ∷ q.1)) all ∙ ap (λ b. ok (s'', b ∷ rest)) e)

  evaluate_hits-InWindow :
      (fp key : String) (threshold : ℕ) (window : Duration) (start : Time) (ts : List Time) (k : ℕ)
      (st : UniqueState) (s : Subscription E X)
      → is_zero start ≡ false
      → All (λ t. after t (start +ℤ window) ≡ false) ts
      → InWindow threshold start k st
      → Holds fp (some st) s
      → (s' : Subscription E X) × (evaluate_hits s fp key threshold window ts
          ≡ ok (s', only_at threshold k ts))
  unfolding evaluate_hits
  evaluate_hits-InWindow fp key threshold window start [] k st s dated inside t h = (s, refl)
  evaluate_hits-InWindow fp key threshold window start (u ∷ us) k st s dated inside t h =
      let (s1, one, h1) = evaluate_unique_in_memory_lem s fp key threshold u window (some st) h in
      let (a, t1) =
        InWindow-step key threshold s.rule.unique_window window start k st u dated inside.0 t in
      let (s2, all) =
        evaluate_hits-InWindow fp key threshold window start us (suc k)
          (state_after (decide key threshold s.rule.unique_window window st u)) s1 dated inside.1 t1
          h1 in
      (s2, evaluate_hits_cons s s1 s2 fp key threshold window u us _ _ _ one a all)

  -- With the in-memory tracker and a key whose window is over or that was not seen before: of the
  -- hits at `start` and at the times `ts`, all within the window that begins at `start`, exactly
  -- the one whose number is the threshold is let through, and no call panics.
  pub evaluate_hits-only_at :
      (s : Subscription E X) (fp key : String) (threshold : ℕ) (window : Duration)
      (m : X.Map UniqueState) (start : Time) (ts : List Time)
      → 1 ≤ threshold
      → s.unique_trackers ≡ some m
      → IsFresh window (X.load m fp) start
      → is_zero start ≡ false
      → All (λ t. after t (start +ℤ window) ≡ false) ts
      → (s' : Subscription E X) × (evaluate_hits s fp key threshold window (start ∷ ts)
          ≡ ok (s', only_at threshold 0 (start ∷ ts)))
  evaluate_hits-only_at s fp key threshold window m start ts pos e fresh dated inside =
      let o = X.load m fp in
      let h : Holds fp o s = record { trackers = m; present = e; state = refl } in
      let (s1, one, h1) = evaluate_unique_in_memory_lem s fp key threshold start window o h in
      let d = decide key threshold s.rule.unique_window window (state_or_new o start) start in
      let (a, t1) = InWindow-first key threshold s.rule.unique_window window o start pos fresh in
      let (s2, all) =
        evaluate_hits-InWindow fp key threshold window start ts 1 (state_after d) s1 dated inside t1
          h1 in
      (s2, evaluate_hits_cons s s1 s2 fp key threshold window start ts d _ _ one a all)
