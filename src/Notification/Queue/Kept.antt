-- ===== src/Notification/Queue/Kept.antt =====
-- What the alert, unique, cooldown and quiet tables give back.
use dozzle_gaia_fork.Common.{
  ℕ, suc, String, Bool, true, false, some, List, [], ◌∷◌, map, ◌≡◌, refl, ◌∙◌, arith, Bool-cases,
  Option-cases, ◌⊎◌, inl, inr,
}
use dozzle_gaia_fork.Common.Int.{ℤ, pos, negsuc, ◌≤ℤ◌}
use dozzle_gaia_fork.Common.Text.{str_eq, eq_refl}
use dozzle_gaia_fork.Notification.Queue.{
  Db, StoredUnique, Cooldown, done, ◌>>=◌, tick, unix, from_unix, exec, query,
}
use dozzle_gaia_fork.Notification.Queue.Quiet.{quiet_period_grouping, mode_key, set_modes}
use dozzle_gaia_fork.Notification.Queue.States.{
  truncated, new_unique, stored_unique, merge_unique, unique_key_of, is_running, set_uniques,
  set_cooldowns, get_or_create_unique_state, upsert_unique_state, load_cooldowns, cleanup_cooldowns,
}
use dozzle_gaia_fork.Notification.Queue.Table.{
  select, insert_or_ignore, upsert, where_rows, where_rows-both, select-append_none,
}
use dozzle_gaia_fork.Notification.Time.{Time}

module _ {A : Type 0} (key : A → String) where
  select_one : (new : A) → select key (key new) (new ∷ []) ≡ some new
  unfolding select
  select_one new = rw (eq_refl (key new)) refl

  select-insert_or_ignore :
      (new : A) (xs : List A)
      → (x : A) × (select key (key new) (insert_or_ignore key new xs) ≡ some x)
  unfolding insert_or_ignore
  select-insert_or_ignore new xs = elim (Option-cases (select key (key new) xs)) [
    | inl absent ↦ (
      new,
      rw (absent, insert_or_ignore)
          (select-append_none key (key new) xs new absent ∙ select_one new),
    )
    | inr (x, e) ↦ (x, rw (e, insert_or_ignore) e)
  ]

  -- Once there, a row is neither replaced nor added to.
  insert_or_ignore_again :
      (new x : A) (xs : List A)
      → select key (key new) xs ≡ some x
      → insert_or_ignore key new xs ≡ xs
  unfolding insert_or_ignore
  insert_or_ignore_again new x xs e = rw e refl

  -- An upsert leaves either the new row, or an old one with the named columns replaced.
  select-upsert :
      (merge : A → A → A) (new : A) (xs : List A)
      → ((x y : A) → key (merge x y) ≡ key x)
      → (x : A) × (select key (key new) (upsert key merge new xs) ≡ some x)
        × ((x ≡ new) ⊎ ((old : A) × (x ≡ merge old new)))
  unfolding select upsert
  select-upsert merge new [] keeps = (new, select_one new, inl refl)
  select-upsert merge new (x ∷ xs) keeps = elim (Bool-cases (str_eq (key x) (key new))) [
    | inl same ↦ (merge x new, rw (same, keeps x new, same) refl, inr (x, refl))
    | inr other ↦
        let (y, found, is) = select-upsert merge new xs keeps in (y, rw (other, other) found, is)
  ]

upserted_fields :
    (s : StoredUnique) (now : Time) (r : StoredUnique)
    → (r ≡ stored_unique s now)
      ⊎ ((old : StoredUnique) × (r ≡ merge_unique old (stored_unique s now)))
    → (r.count ≡ s.count) × (r.is_sent ≡ s.is_sent) × (r.window_start ≡ truncated s.window_start)
upserted_fields s now r (inl e) = rw e (refl, refl, refl)
upserted_fields s now r (inr (old, e)) = rw e (refl, refl, refl)

unix_mono : (t t' : Time) → t ≤ℤ t' → unix t ≤ℤ unix t'
unfolding unix
unix_mono (pos a) (pos b) h = omega arith
unix_mono (pos a) (negsuc b) h = absurd (omega arith)
unix_mono (negsuc a) (pos b) h = omega arith
unix_mono (negsuc a) (negsuc b) h = omega arith

module _ (fails : ℕ → Bool) (works : (n : ℕ) → fails n ≡ false) where
  -- Where no statement is refused: after `UpsertUniqueState`, `GetOrCreateUniqueState` returns the
  -- count and the flag that were written and the start of the window in whole seconds.
  pub get_or_create_unique_state-upsert_unique_state :
      (s : StoredUnique) (subscription_id : ℤ) (key : String) (now later : Time) (db : Db)
      → (r : StoredUnique) × (db' : Db) × (((upsert_unique_state fails s now db).1 >>= λ _ d.
            get_or_create_unique_state fails s.fingerprint subscription_id key later d)
          ≡ done r db')
        × (r.count ≡ s.count)
        × (r.is_sent ≡ s.is_sent)
        × (r.window_start ≡ truncated s.window_start)
  unfolding upsert_unique_state get_or_create_unique_state exec query
  get_or_create_unique_state-upsert_unique_state s subscription_id key now later db =
      let (r, found, is) =
        select-upsert unique_key_of merge_unique (stored_unique s now) db.unique_states
          (λ x y. refl) in
      let kept =
        insert_or_ignore_again unique_key_of (new_unique s.fingerprint subscription_id key later) r
          (upsert unique_key_of merge_unique (stored_unique s now) db.unique_states) found in
      let (counted, flagged, started) = upserted_fields s now r is in
      (
        r,
        tick (
            tick (tick (set_uniques (upsert unique_key_of merge_unique (stored_unique s now)) db))),
        rw
            (
              works db.statements,
              works (suc db.statements),
              works (suc (suc db.statements)),
              kept,
              found,
            )
            refl,
        counted,
        flagged,
        started,
      )

  -- Where no statement is refused: once a quiet period was asked for its mode, the next question has
  -- the same answer, whatever is configured by then, and leaves the table as it was.
  pub quiet_period_grouping_again :
      (key : String) (end end' : Time) (configured configured' : Bool) (db : Db)
      → (b : Bool) × (db1 db2 : Db) × (quiet_period_grouping fails key end configured db
          ≡ done b db1)
        × (quiet_period_grouping fails key end' configured' db1 ≡ done b db2)
        × (db2.period_modes ≡ db1.period_modes)
  unfolding quiet_period_grouping exec query
  quiet_period_grouping_again key end end' configured configured' db =
      let (r, found) =
        select-insert_or_ignore mode_key
          (record { key = key; grouping = configured; period_end = unix end }) db.period_modes in
      let kept =
        insert_or_ignore_again mode_key
          (record { key = key; grouping = configured'; period_end = unix end' }) r
          (insert_or_ignore mode_key
            (record { key = key; grouping = configured; period_end = unix end }) db.period_modes)
          found in
      let db1 = tick (
        tick (
          set_modes
            (insert_or_ignore mode_key
              (record { key = key; grouping = configured; period_end = unix end }))
            db)) in
      (
        r.grouping,
        db1,
        tick (tick db1),
        rw (works db.statements, works (suc db.statements), found) refl,
        rw (works (suc (suc db.statements)), works (suc (suc (suc db.statements))), kept, found)
            refl,
        refl,
      )

  running_later :
      (t t' : Time) (c : Cooldown) → t ≤ℤ t' → is_running t' c ≡ true → is_running t c ≡ true
  running_later t t' c le h = let m = unix_mono t t' le in ground arith

  -- Where no statement is refused: a cleanup of the cooldowns is not seen by any later
  -- `LoadCooldowns`.
  pub load_cooldowns-cleanup_cooldowns :
      (t t' : Time) (db : Db)
      → t ≤ℤ t'
      → (cs : List (String × Time)) × (db1 db2 : Db) × (load_cooldowns fails t'
            (cleanup_cooldowns fails t db)
          ≡ done cs db1)
        × (load_cooldowns fails t' db ≡ done cs db2)
  unfolding load_cooldowns cleanup_cooldowns exec query
  load_cooldowns-cleanup_cooldowns t t' db le = (
    map (λ c. (c.key, from_unix c.expires_at)) (where_rows (is_running t') db.cooldowns),
    tick (tick (set_cooldowns (where_rows (is_running t)) db)),
    tick db,
    rw
        (
          works db.statements,
          works (suc db.statements),
          where_rows-both (is_running t') (is_running t) db.cooldowns
              (λ c. running_later t t' c le),
        )
        refl,
    rw (works db.statements) refl,
  )
