-- ===== src/Notification/Schedule.antt =====
-- internal/notification/types.go and manager.go: the days on which a rule is processed. `fold` is
-- `strings.ToLower(strings.TrimSpace(…))`; `weekday` is the day in a time zone, Sunday first.
pub mod Days
use dozzle_gaia_fork.Common.{
  ℕ, ◌==◌, String, Bool, true, false, not, ◌||◌, Option, none, some, List, [], ◌∷◌, ◌≡◌, refl, sym,
  ap, ◌∙◌, is_some, if◌then◌else◌, Bool-cases, Option-cases, ◌⊎◌, ◌↔◌, inl, inr, subst,
}
use dozzle_gaia_fork.Common.Text.{str_eq, elem, eq_iff}
use dozzle_gaia_fork.Notification.Rule.{Expr, Rule, is_paused}
use dozzle_gaia_fork.Notification.Time.{Time}
use dozzle_gaia_fork.Notification.Types.{Values}

abbrev pub day_names : List (String × ℕ)
day_names =
    ("sun", 0) ∷ ("mon", 1) ∷ ("tue", 2) ∷ ("wed", 3) ∷ ("thu", 4) ∷ ("fri", 5) ∷ ("sat", 6) ∷ []

abbrev pub lookup_day : List (String × ℕ) → String → Option ℕ
lookup_day [] d = none
lookup_day ((name, n) ∷ rest) d = if str_eq name d then some n else lookup_day rest d

-- `validDeliveryDays[day]`
unfoldable pub valid_day : String → Option ℕ
valid_day d = lookup_day day_names d

-- A key that is not there reads as the zero value, Sunday.
unfoldable pub day_number : String → ℕ
day_number d = elim (valid_day d) [ none ↦ 0 | some n ↦ n ]

unfoldable pub any : {A : Type 0} → (A → Bool) → List A → Bool
any p [] = false
any p (x ∷ xs) = p x || any p xs

module _ (fold : String → String) where
  -- The loop, with the keys that were seen.
  unfoldable pub normalize_loop : List String → List String → List String
  normalize_loop seen [] = []
  normalize_loop seen (d ∷ ds) =
      let key = fold d in
      let skipped = normalize_loop seen ds in
      let kept = key ∷ normalize_loop (key ∷ seen) ds in
      if not (is_some (valid_day key)) || elem key seen then skipped else kept

  unfoldable pub normalize_delivery_days : List String → List String
  normalize_delivery_days days = normalize_loop [] days

unfoldable pub is_delivery_day : List String → ℕ → Bool
unfolding any
is_delivery_day [] today = true
is_delivery_day (d ∷ ds) today = any (λ day. day_number day == today) (d ∷ ds)

-- `isSubscriptionProcessable`
unfoldable pub is_subscription_processable :
    {V : Values} {E : Expr V} → (String → Time → ℕ) → Rule E → Time → Bool
is_subscription_processable weekday r now =
    if is_paused r now
    then false
    else is_delivery_day r.delivery_days (weekday r.alert_quiet_timezone now)

pub or_true : (b : Bool) → (b || true) ≡ true
or_true true = refl
or_true false = refl

pub or_false : (b : Bool) → (b || false) ≡ b
or_false true = refl
or_false false = refl

-- The day is a valid name, and the one of today.
abbrev pub names_today : ℕ → String → Bool
names_today today d = elim (valid_day d) [ none ↦ false | some n ↦ n == today ]

module _ (fold : String → String) (today : ℕ) where
  abbrev is_today : String → Bool
  is_today d = day_number d == today

  elem-any :
      (key : String) (seen : List String)
      → elem key seen ≡ true
      → is_today key ≡ true
      → any is_today seen ≡ true
  unfolding any
  elem-any key [] h now = h
  elem-any key (x ∷ xs) h now = elim (Bool-cases (str_eq x key)) [
    | inl same ↦ rw ((eq_iff x key).0 same, now) refl
    | inr other ↦
        let rest = elem-any key xs (ap (λ b. b || elem key xs) (sym other) ∙ h) now in
        rw rest (or_true (is_today x))
  ]

  number_of_valid : (d : String) (n : ℕ) → valid_day d ≡ some n → is_today d ≡ names_today today d
  unfolding day_number
  number_of_valid d n e = rw (e, day_number, names_today) refl

  unnamed : (d : String) → valid_day d ≡ none → names_today today d ≡ false
  unnamed d e = rw (e, names_today) refl

  -- One day of the list: it is kept, or it is dropped as one that was seen before.
  step_any :
      (seen ds : List String) (key : String)
      → any is_today (normalize_loop fold seen ds) || any is_today seen
        ≡ any (λ d. names_today today (fold d)) ds || any is_today seen
      → any is_today (normalize_loop fold (key ∷ seen) ds) || (is_today key || any is_today seen)
        ≡ any (λ d. names_today today (fold d)) ds || (is_today key || any is_today seen)
      → any is_today (
            if elem key seen
            then normalize_loop fold seen ds
            else key ∷ normalize_loop fold (key ∷ seen) ds)
          || any is_today seen
        ≡ (is_today key || any (λ d. names_today today (fold d)) ds) || any is_today seen
  unfolding any
  step_any seen ds key skipped kept = elim (Bool-cases (elem key seen)) [
    | inl old ↦ elim (Bool-cases (is_today key)) [
      | inl now ↦ rw (old, now, elem-any key seen old now) (or_true _)
      | inr later ↦ rw (old, later) skipped
    ]
    | inr new ↦ elim (Bool-cases (is_today key)) [
      | inl now ↦ rw (new, now) refl
      | inr later ↦
          rw (new, later)
            (subst
              (λ b.
                any is_today (normalize_loop fold (key ∷ seen) ds) || (b || any is_today seen)
                ≡ any (λ d. names_today today (fold d)) ds || (b || any is_today seen))
              later kept)
    ]
  ]

  -- What the loop keeps names today if and only if some day of the list does, but for the days
  -- seen before.
  pub any-normalize_loop :
      (seen ds : List String)
      → any is_today (normalize_loop fold seen ds) || any is_today seen
        ≡ any (λ d. names_today today (fold d)) ds || any is_today seen
  unfolding normalize_loop any
  any-normalize_loop seen [] = refl
  any-normalize_loop seen (d ∷ ds) = elim (Option-cases (valid_day (fold d))) [
    | inl unknown ↦ rw (ap is_some unknown, unnamed (fold d) unknown) (any-normalize_loop seen ds)
    | inr (n, e) ↦
        let step =
          step_any seen ds (fold d) (any-normalize_loop seen ds)
            (any-normalize_loop (fold d ∷ seen) ds) in
        rw (ap is_some e, ← (number_of_valid (fold d) n e)) step
  ]
