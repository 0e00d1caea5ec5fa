-- ===== src/Notification/Burst/History.antt =====
-- `DetectBurst` over a whole history of triggers: pruning the stored times loses nothing that a
-- later call would count.
use dozzle_gaia_fork.Common.{
  ℕ, suc, ◌+◌, count_where, String, Bool, true, false, ◌&&◌, none, some, List, [], ◌∷◌, ◌++◌,
  length, leb, ◌≡◌, refl, sym, ap, ◌∙◌, arith, if◌then◌else◌, append_assoc, append-nil,
  length-append, Bool-cases, inl, inr,
}
use dozzle_gaia_fork.Common.Int.{ℤ, ltb_ℤ, pos_part, ◌-ℤ◌, ◌≤ℤ◌, is_pos, int_laws}
use dozzle_gaia_fork.Common.MapOps.{MapOps, load-store_self}
use dozzle_gaia_fork.Notification.Burst.{prune, stamps_of, detect_burst}
use dozzle_gaia_fork.Notification.Rule.{Expr, Rule}
use dozzle_gaia_fork.Notification.Subscription.{Subscription}
use dozzle_gaia_fork.Notification.Time.{Time, after, seconds}
use dozzle_gaia_fork.Notification.Types.{Values}

pub prune-append : (c : Time) (xs ys : List Time) → prune c (xs ++ ys) ≡ prune c xs ++ prune c ys
unfolding prune
prune-append c [] ys = refl
prune-append c (x ∷ xs) ys = elim (Bool-cases (after x c)) [
  | inl keep ↦ rw keep (ap (◌∷◌ x) (prune-append c xs ys))
  | inr skip ↦ rw skip (prune-append c xs ys)
]

-- What is kept is as many times as there are after the cutoff.
length-prune : (c : Time) (xs : List Time) → length (prune c xs) ≡ count_where (λ t. ltb_ℤ c t) xs
unfolding prune
length-prune c [] = refl
length-prune c (x ∷ xs) = elim (Bool-cases (after x c)) [
  | inl keep ↦ rw keep (ap suc (length-prune c xs))
  | inr skip ↦ rw skip (length-prune c xs)
]

-- A later cutoff keeps nothing that an earlier one drops.
pub prune-prune : (c d : Time) (xs : List Time) → c ≤ℤ d → prune d (prune c xs) ≡ prune d xs
unfolding prune
prune-prune c d [] h = refl
prune-prune c d (x ∷ xs) h = ground (arith, prune-prune c d xs)

-- From the cutoff `c` on, the stored times count as the whole history does.
abbrev Faithful : Time → List Time → List Time → Type 0
Faithful c stamps h = (d : Time) → c ≤ℤ d → prune d stamps ≡ prune d h

Faithful-step :
    (b c : Time) (stamps h : List Time) (now : Time)
    → b ≤ℤ c
    → Faithful b stamps h
    → Faithful c (prune c stamps ++ (now ∷ [])) (h ++ (now ∷ []))
Faithful-step b c stamps h now le f d cd =
    prune-append d (prune c stamps) (now ∷ [])
    ∙ ap (λ l. l ++ prune d (now ∷ [])) (prune-prune c d stamps cd ∙ f d (omega arith))
    ∙ sym (prune-append d h (now ∷ []))

-- The times of a run of triggers, each no earlier than the one before.
abbrev pub Rising : Time → List Time → Time → Type 0
Rising t [] now = t ≤ℤ now
Rising t (u ∷ us) now = (t ≤ℤ u) × Rising u us now

-ℤ_mono : (a b w : ℤ) → a ≤ℤ b → a -ℤ w ≤ℤ b -ℤ w
-ℤ_mono a b w h = omega int_laws

stamps_of-store :
    (X : MapOps) (m : X.Map (List Time)) (id : String) (ts : List Time)
    → stamps_of X (X.store m id ts) id ≡ ts
stamps_of-store X m id ts = rw (load-store_self X m id ts, stamps_of)

module _ {V : Values} {E : Expr V} where
  abbrev pub IsEnabled : Rule E → Type 0
  IsEnabled r = (is_pos r.burst_count ≡ true) × (is_pos r.burst_window ≡ true)

  abbrev pub is_escalated : Rule E → ℕ → Bool
  is_escalated r n = leb (pos_part r.burst_count) n && is_pos r.burst_priority

  -- The outcome that a count of triggers calls for.
  abbrev pub verdict : Rule E → ℤ → ℕ → ℤ × Bool × ℕ
  verdict r base n = if is_escalated r n then (r.burst_priority, true, n) else (base, false, n)

  abbrev pub cutoff : Rule E → Time → Time
  cutoff r now = now -ℤ seconds r.burst_window

module _ {V : Values} {E : Expr V} {X : MapOps} where
  -- A container triggers the rule at each of the times, in order.
  pub replay : Subscription E X → String → ℤ → List Time → Subscription E X
  replay s id base [] = s
  replay s id base (t ∷ ts) = replay (detect_burst s id base t).0 id base ts

  detect_burst_lem :
      (s : Subscription E X) (id : String) (base : ℤ) (now : Time) (m : X.Map (List Time))
      → IsEnabled s.rule
      → s.burst_trackers ≡ some m
      → let pruned = prune (cutoff s.rule now) (stamps_of X m id) ++ (now ∷ []) in
        detect_burst s id base now ≡ (
          record s { burst_trackers = some (X.store m id pruned) },
          verdict s.rule base (length pruned),
        )
  unfolding detect_burst
  detect_burst_lem s id base now m h e =
      let n = length (prune (cutoff s.rule now) (stamps_of X m id) ++ (now ∷ [])) in
      rw (h.0, h.1, e) (elim (Bool-cases (is_escalated s.rule n)) [ inl p ↦ rw p | inr q ↦ rw q ])

  -- The state of the tracker after some triggers of a container.
  record Tracked (r : Rule E) (c : Time) (id : String) (h : List Time) (s : Subscription E X)
      : Type 0 where
    pub same_rule : s.rule ≡ r
    pub trackers : X.Map (List Time)
    pub present : s.burst_trackers ≡ some trackers
    pub faithful : Faithful c (stamps_of X trackers id) h

  Tracked-step :
      (r : Rule E) (b : Time) (id : String) (h : List Time) (s : Subscription E X) (base : ℤ)
      (now : Time)
      → IsEnabled r
      → b ≤ℤ cutoff r now
      → Tracked r b id h s
      → Tracked r (cutoff r now) id (h ++ (now ∷ [])) (detect_burst s id base now).0
  Tracked-step r b id h s base now on le t =
      let m = t.trackers in
      let pruned = prune (cutoff s.rule now) (stamps_of X m id) ++ (now ∷ []) in
      let e = detect_burst_lem s id base now m (rw t.same_rule on) t.present in
      rw e (record {
        same_rule = t.same_rule;
        trackers = X.store m id pruned;
        present = refl;
        faithful =
            rw (stamps_of-store X m id pruned, t.same_rule)
              (Faithful-step b (cutoff r now) (stamps_of X m id) h now le t.faithful);
      })

  replay-Tracked :
      (r : Rule E) (id : String) (base : ℤ) (ts : List Time) (b now : Time) (h : List Time)
      (s : Subscription E X)
      → IsEnabled r
      → Rising b ts now
      → Tracked r (cutoff r b) id h s
      → (c : Time) × (c ≤ℤ cutoff r now) × Tracked r c id (h ++ ts) (replay s id base ts)
  unfolding replay
  replay-Tracked r id base [] b now h s on up t = (cutoff r b, -ℤ_mono b now _ up, rw append-nil t)
  replay-Tracked r id base (u ∷ us) b now h s on up t =
      let step = Tracked-step r (cutoff r b) id h s base u on (-ℤ_mono b u _ up.0) t in
      let (c, le, done) =
        replay-Tracked r id base us u now (h ++ (u ∷ [])) (detect_burst s id base u).0 on up.1
          step in
      (c, le, rw append_assoc at done)

  -- For a rule with a burst count and window and a container with no trigger stored: after
  -- triggers at the times `ts`, each no earlier than the last, a trigger at `now` counts itself
  -- and exactly those of all of `ts` that come after `now` less the window, and it is escalated
  -- to the burst priority exactly if that count reaches the burst count and the priority is set.
  pub detect_burst-replay :
      (s : Subscription E X) (id : String) (base : ℤ) (m : X.Map (List Time)) (b : Time)
      (ts : List Time) (now : Time)
      → IsEnabled s.rule
      → s.burst_trackers ≡ some m
      → X.load m id ≡ none
      → Rising b ts now
      → (detect_burst (replay s id base ts) id base now).1
        ≡ verdict s.rule base (count_where (λ t. ltb_ℤ (cutoff s.rule now) t) ts + 1)
  detect_burst-replay s id base m b ts now on e fresh up =
      let start : Tracked s.rule (cutoff s.rule b) id [] s = record {
        same_rule = refl;
        trackers = m;
        present = e;
        faithful = λ d _. rw (fresh, stamps_of);
      } in
      let (c, le, t) = replay-Tracked s.rule id base ts b now [] s on up start in
      let s' = replay s id base ts in
      let lem = detect_burst_lem s' id base now t.trackers (rw t.same_rule on) t.present in
      let count : length (prune (cutoff s.rule now) (stamps_of X t.trackers id) ++ (now ∷ []))
          ≡ count_where (λ t. ltb_ℤ (cutoff s.rule now) t) ts + 1 =
        length-append (prune (cutoff s.rule now) (stamps_of X t.trackers id)) (now ∷ [])
        ∙ ap (λ l. length l + 1) (t.faithful (cutoff s.rule now) le)
        ∙ ap (λ k. k + 1) (length-prune (cutoff s.rule now) ts) in
      rw (lem, t.same_rule) (ap (verdict s.rule base) count)
