-- ===== src/Notification/TtlCache.antt =====
-- internal/notification/ttl_cache.go: a map whose entries expire. `now` is the clock at the call;
-- the sweep of the background goroutine is `evict`.
use dozzle_gaia_fork.Common.{
  String, Bool, true, false, Option, none, some, List, [], ◌∷◌, ◌≡◌, refl, sym, ap, ◌∙◌, arith,
  if◌then◌else◌, Bool-cases, Option-cases, inl, inr,
}
use dozzle_gaia_fork.Common.Int.{◌+ℤ◌, ◌≤ℤ◌}
use dozzle_gaia_fork.Common.MapOps.{MapOps}
use dozzle_gaia_fork.Common.Text.{str_eq, eq_iff}
use dozzle_gaia_fork.Notification.Time.{Time, Duration, after}

pub record TtlEntry (A : Type 0) : Type 0 where
  pub value : A
  pub expires_at : Time

pub record TtlCache (X : MapOps) (A : Type 0) : Type 0 where
  pub entries : X.Map (TtlEntry A)
  pub ttl : Duration

-- What `Load` makes of the entry it found.
abbrev pub unexpired : {A : Type 0} → Time → Option (TtlEntry A) → Option A
unexpired now none = none
unexpired now (some e) = if after now e.expires_at then none else some e.value

module _ {X : MapOps} {A : Type 0} where
  unfoldable pub load_entry : TtlCache X A → String → Time → Option A
  load_entry c key now = unexpired now (X.load c.entries key)

  unfoldable pub store_entry : TtlCache X A → String → A → Time → TtlCache X A
  store_entry c key value now = record c {
    entries = X.store c.entries key (record { value = value; expires_at = now +ℤ c.ttl });
  }

module _ (X : MapOps) {A : Type 0} where
  -- The callback of `Range`, at one key.
  unfoldable pub evict_key : Time → X.Map (TtlEntry A) → String → X.Map (TtlEntry A)
  evict_key now m key = elim (X.load m key) [
    | none ↦ m
    | some e ↦ if after now e.expires_at then X.delete m key else m
  ]

  unfoldable pub evict_keys : Time → List String → X.Map (TtlEntry A) → X.Map (TtlEntry A)
  evict_keys now [] m = m
  evict_keys now (k ∷ ks) m = evict_keys now ks (evict_key now m k)

module _ {X : MapOps} {A : Type 0} where
  unfoldable pub evict : TtlCache X A → Time → TtlCache X A
  unfolding evict_keys
  evict c now = record c { entries = evict_keys X now (X.keys c.entries) c.entries }

unexpired_later :
    {A : Type 0} (now later : Time) (e : TtlEntry A)
    → now ≤ℤ later
    → after now e.expires_at ≡ true
    → unexpired later (some e) ≡ none
unexpired_later now later e le h =
    let h' : after later e.expires_at ≡ true = ground arith in rw h' refl

module _ (X : MapOps) {A : Type 0} where
  evict_key_unseen :
      (now later : Time) (m : X.Map (TtlEntry A)) (k j : String)
      → now ≤ℤ later
      → unexpired later (X.load (evict_key X now m k) j) ≡ unexpired later (X.load m j)
  unfolding evict_key
  evict_key_unseen now later m k j le = elim (Option-cases (X.load m k)) [
    | inl absent ↦ rw (absent, evict_key) refl
    | inr (e, found) ↦ elim (Bool-cases (after now e.expires_at)) [
      | inl old ↦ elim (Bool-cases (str_eq k j)) [
        | inl same ↦
            rw (found, evict_key, old)
              (rw (X.load-delete m k j, same, ← ((eq_iff k j).0 same), found)
                (sym (unexpired_later now later e le old)))
        | inr other ↦ rw (found, evict_key, old) (rw (X.load-delete m k j, other) refl)
      ]
      | inr young ↦ rw (found, evict_key, young) refl
    ]
  ]

  evict_keys_unseen :
      (now later : Time) (ks : List String) (m : X.Map (TtlEntry A)) (j : String)
      → now ≤ℤ later
      → unexpired later (X.load (evict_keys X now ks m) j) ≡ unexpired later (X.load m j)
  unfolding evict_keys
  evict_keys_unseen now later [] m j le = refl
  evict_keys_unseen now later (k ∷ ks) m j le =
      evict_keys_unseen now later ks (evict_key X now m k) j le
      ∙ evict_key_unseen now later m k j le

module _ {X : MapOps} {A : Type 0} where
  -- A sweep is not seen: every load at that time or later returns what it would have returned.
  pub load_entry-evict :
      (c : TtlCache X A) (key : String) (now later : Time)
      → now ≤ℤ later
      → load_entry (evict c now) key later ≡ load_entry c key later
  unfolding load_entry evict
  load_entry-evict c key now later le =
      evict_keys_unseen X now later (X.keys c.entries) c.entries key le

  -- A stored value is what loads of its key return until its time to live is over, and nothing
  -- then; loads of the other keys are as before.
  pub load_entry-store_entry :
      (c : TtlCache X A) (key j : String) (value : A) (now later : Time)
      → load_entry (store_entry c key value now) j later ≡ (
          if str_eq key j
          then (if after later (now +ℤ c.ttl) then none else some value)
          else load_entry c j later)
  unfolding load_entry store_entry
  load_entry-store_entry c key j value now later =
      ap (unexpired later)
        (X.load-store c.entries key j (record { value = value; expires_at = now +ℤ c.ttl }))
      ∙ by_key (str_eq key j)
    where
      by_key :
          (b : Bool)
          → unexpired later (
              if b
              then some (record { value = value; expires_at = now +ℤ c.ttl })
              else X.load c.entries j)
            ≡ (if b
                then (if after later (now +ℤ c.ttl) then none else some value)
                else unexpired later (X.load c.entries j))
      by_key true = refl
      by_key false = refl
