-- ===== src/Notification/Schedule/Days.antt =====
-- The days on which a rule is processed, by their names.
use dozzle_gaia_fork.Common.{
  ℕ, Option, some, none, ◌==◌, String, Bool, true, false, not, ◌||◌, List, [], ◌∷◌, ◌≡◌, refl, sym,
  ap, ◌∙◌, subst, is_some, if◌then◌else◌, Bool-cases, inl, inr,
}
use dozzle_gaia_fork.Common.Text.{str_eq, elem}
use dozzle_gaia_fork.Notification.Schedule.{
  valid_day, any, normalize_loop, normalize_delivery_days, is_delivery_day, day_number, names_today,
  any-normalize_loop, or_true, or_false,
}

-- The name is the one of the day of the week, where Sunday is 0.
abbrev pub is_name_of : ℕ → String → Bool
is_name_of today d =
    if str_eq "sun" d
    then 0 == today
    else if str_eq "mon" d
    then 1 == today
    else if str_eq "tue" d
    then 2 == today
    else if str_eq "wed" d
    then 3 == today
    else if str_eq "thu" d
    then 4 == today
    else if str_eq "fri" d
    then 5 == today
    else if str_eq "sat" d
    then 6 == today
    else false

abbrev pub is_day_name : String → Bool
is_day_name d = elem d ("sun" ∷ "mon" ∷ "tue" ∷ "wed" ∷ "thu" ∷ "fri" ∷ "sat" ∷ [])

abbrev is_number : ℕ → Option ℕ → Bool
is_number today o = elim o [ none ↦ false | some n ↦ n == today ]

day_test :
    (today : ℕ) (a b c d e f g : Bool)
    → is_number today (
        if a
        then some 0
        else if b
        then some 1
        else if c
        then some 2
        else if d
        then some 3
        else if e
        then some 4
        else if f
        then some 5
        else if g
        then some 6
        else none)
      ≡ (if a
          then 0 == today
          else if b
          then 1 == today
          else if c
          then 2 == today
          else if d
          then 3 == today
          else if e
          then 4 == today
          else if f
          then 5 == today
          else if g
          then 6 == today
          else false)
day_test today true b c d e f g = refl
day_test today false true c d e f g = refl
day_test today false false true d e f g = refl
day_test today false false false true e f g = refl
day_test today false false false false true f g = refl
day_test today false false false false false true g = refl
day_test today false false false false false false true = refl
day_test today false false false false false false false = refl

day_found :
    (a b c d e f g : Bool)
    → is_some {A = ℕ} (
        if a
        then some 0
        else if b
        then some 1
        else if c
        then some 2
        else if d
        then some 3
        else if e
        then some 4
        else if f
        then some 5
        else if g
        then some 6
        else none)
      ≡ (a || (b || (c || (d || (e || (f || (g || false)))))))
day_found true b c d e f g = refl
day_found false true c d e f g = refl
day_found false false true d e f g = refl
day_found false false false true e f g = refl
day_found false false false false true f g = refl
day_found false false false false false true g = refl
day_found false false false false false false true = refl
day_found false false false false false false false = refl

names_today-is_name_of : (today : ℕ) (d : String) → names_today today d ≡ is_name_of today d
unfolding valid_day
names_today-is_name_of today d =
    day_test today (str_eq "sun" d) (str_eq "mon" d) (str_eq "tue" d) (str_eq "wed" d)
      (str_eq "thu" d) (str_eq "fri" d) (str_eq "sat" d)

valid_day-is_day_name : (d : String) → is_some (valid_day d) ≡ is_day_name d
unfolding valid_day
valid_day-is_day_name d =
    day_found (str_eq "sun" d) (str_eq "mon" d) (str_eq "tue" d) (str_eq "wed" d) (str_eq "thu" d)
      (str_eq "fri" d) (str_eq "sat" d)

any_same :
    (p q : String → Bool) (ds : List String) → ((d : String) → p d ≡ q d) → any p ds ≡ any q ds
unfolding any
any_same p q [] same = refl
any_same p q (d ∷ ds) same =
    ap (λ b. b || any p ds) (same d) ∙ ap (λ b. q d || b) (any_same p q ds same)

module _ (fold : String → String) where
  abbrev is_valid : String → Bool
  is_valid d = is_some (valid_day (fold d))

  -- Without a valid name nothing is kept; with one, something is.
  normalize_loop_none :
      (seen ds : List String) → any is_valid ds ≡ false → normalize_loop fold seen ds ≡ []
  unfolding any normalize_loop
  normalize_loop_none seen [] h = refl
  normalize_loop_none seen (d ∷ ds) h = elim (Bool-cases (is_valid d)) [
    | inl valid ↦ absurd (let e = subst (λ b. (b || any is_valid ds) ≡ false) valid h in cc)
    | inr unknown ↦
        rw unknown
          (normalize_loop_none seen ds (subst (λ b. (b || any is_valid ds) ≡ false) unknown h))
  ]

  kept_on :
      (d : String) (ds : List String)
      → is_valid d ≡ false
      → normalize_loop fold [] (d ∷ ds) ≡ normalize_loop fold [] ds
  unfolding normalize_loop
  kept_on d ds unknown = rw unknown refl

  normalize_loop_some :
      (ds : List String)
      → any is_valid ds ≡ true
      → (k : String) × (ks : List String) × (normalize_loop fold [] ds ≡ k ∷ ks)
  unfolding any normalize_loop
  normalize_loop_some [] h = absurd cc
  normalize_loop_some (d ∷ ds) h = elim (Bool-cases (is_valid d)) [
    | inl valid ↦ (fold d, normalize_loop fold (fold d ∷ []) ds, rw valid refl)
    | inr unknown ↦
        let (k, ks, e) =
          normalize_loop_some ds (subst (λ b. (b || any is_valid ds) ≡ true) unknown h) in
        (k, ks, kept_on d ds unknown ∙ e)
  ]

  is_delivery_day-cons :
      (today : ℕ) (l : List String) (k : String) (ks : List String)
      → l ≡ k ∷ ks
      → is_delivery_day l today ≡ any (λ d. day_number d == today) l
  unfolding is_delivery_day any
  is_delivery_day-cons today [] k ks h = absurd cc
  is_delivery_day-cons today (x ∷ xs) k ks h = refl

  all_days : (today : ℕ) (l : List String) → l ≡ [] → is_delivery_day l today ≡ true
  unfolding is_delivery_day
  all_days today [] h = refl
  all_days today (x ∷ xs) h = absurd cc

  -- After `NormalizeDeliverySchedule`, a day of the week is a delivery day if and only if some day of
  -- the configured list is its name, up to case and spaces, or no day of the list is the name of a
  -- day of the week.
  pub normalize_delivery_days-is_delivery_day :
      (today : ℕ) (days : List String)
      → is_delivery_day (normalize_delivery_days fold days) today
        ≡ (any (λ d. is_name_of today (fold d)) days || not (any (λ d. is_day_name (fold d)) days))
  unfolding normalize_delivery_days any
  normalize_delivery_days-is_delivery_day today days =
      let valid =
        any_same is_valid (λ d. is_day_name (fold d)) days (λ d. valid_day-is_day_name (fold d)) in
      let named =
        any_same (λ d. names_today today (fold d)) (λ d. is_name_of today (fold d)) days
          (λ d. names_today-is_name_of today (fold d)) in
      elim (Bool-cases (any is_valid days)) [
        | inl some_valid ↦
            let (k, ks, e) = normalize_loop_some days some_valid in
            is_delivery_day-cons today (normalize_loop fold [] days) k ks e
            ∙ sym (or_false _)
            ∙ any-normalize_loop fold today [] days
            ∙ ap (λ b. b || false) named
            ∙ ap (λ b. any (λ d. is_name_of today (fold d)) days || not b) (sym some_valid ∙ valid)
        | inr none_valid ↦
            all_days today (normalize_loop fold [] days) (normalize_loop_none [] days none_valid)
            ∙ sym (or_true (any (λ d. is_name_of today (fold d)) days))
            ∙ ap (λ b. any (λ d. is_name_of today (fold d)) days || not b) (sym none_valid ∙ valid)
      ]
