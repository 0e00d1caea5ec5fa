-- ===== src/Notification/Queue/Delivery.antt =====
-- What `DrainReady` returns, and what a row with a payload that does not decode does to it.
use dozzle_gaia_fork.Common.{
  ℕ, String, Bool, false, not, none, some, List, [], ◌∷◌, ◌++◌, ◌≡◌, refl, if◌then◌else◌, All, ◌⊎◌,
  inl, inr, true, length, ap, ◌∙◌, sym, subst, suc, count_where, map, ◌==◌,
}
use dozzle_gaia_fork.Notification.Queue.{Db, Job, dropped, done, state_of, Codec, tick, exec, query}
use dozzle_gaia_fork.Notification.Queue.Jobs.{
  QueuedNotification, queued, with_status, has_id, insert_job, new_job, is_due, enqueue, scan_jobs,
  drain_ready, drop_job,
}
use dozzle_gaia_fork.Notification.Queue.Table.{where_rows}
use dozzle_gaia_fork.Notification.Time.{Time, after}
use dozzle_gaia_fork.Notification.Types.{Values, Notification}
use dozzle_gaia_fork.Notification.Queue.Rows.{
  waits, is_due-waits, Has, where_rows-Has, Found, Has-where_rows, length-where_rows, IsReordering,
  update_where-map, where_rows-snoc,
}

module _ {V : Values} (codec : Codec V) where
  abbrev pub Decodes : Job → Type 0
  Decodes j = (n : Notification V) × (codec.unmarshal j.payload ≡ some n)

  -- The item is the row, with its payload decoded.
  pub record IsItem (j : Job) (q : QueuedNotification V) : Type 0 where
    pub id : q.id ≡ j.id
    pub subscription_id : q.subscription_id ≡ j.subscription_id
    pub dispatcher_id : q.dispatcher_id ≡ j.dispatcher_id
    pub deliver_at : q.deliver_at ≡ j.deliver_at
    pub attempts : q.attempts ≡ j.attempts
    pub notification : codec.unmarshal j.payload ≡ some q.notification

  -- The items are the rows, one for one and in order.
  abbrev pub AreItems : List Job → List (QueuedNotification V) → Type 0
  AreItems [] [] = Unit
  AreItems [] (q ∷ qs) = ⊥
  AreItems (j ∷ js) [] = ⊥
  AreItems (j ∷ js) (q ∷ qs) = IsItem j q × AreItems js qs

  -- Some item is the row; and the other way round.
  abbrev pub Returned : Job → List (QueuedNotification V) → Type 0
  Returned j [] = ⊥
  Returned j (q ∷ qs) = IsItem j q ⊎ Returned j qs

module _ {V : Values} (codec : Codec V) where
  Returned-AreItems :
      (js : List Job) (qs : List (QueuedNotification V)) (j : Job)
      → AreItems codec js qs
      → Has j js
      → Returned codec j qs
  Returned-AreItems [] qs j all h = absurd h
  Returned-AreItems (x ∷ xs) [] j all h = absurd all
  Returned-AreItems (x ∷ xs) (q ∷ qs) j (is, all) (inl same) =
      inl (subst (λ y. IsItem codec y q) same is)
  Returned-AreItems (x ∷ xs) (q ∷ qs) j (is, all) (inr h) = inr (Returned-AreItems xs qs j all h)

  -- Each item is some row that waits.
  abbrev pub AllWaited : Time → List Job → List (QueuedNotification V) → Type 0
  AllWaited now js qs = All (λ q. (j : Job) × Has j js × (waits now j ≡ true) × IsItem codec j q) qs

  AllWaited-AreItems :
      (now : Time) (all_jobs js : List Job) (qs : List (QueuedNotification V))
      → AreItems codec js qs
      → ((j : Job) → Has j js → Has j all_jobs × (waits now j ≡ true))
      → AllWaited now all_jobs qs
  AllWaited-AreItems now all_jobs [] [] all from = tt
  AllWaited-AreItems now all_jobs [] (q ∷ qs) all from = absurd all
  AllWaited-AreItems now all_jobs (j ∷ js) [] all from = absurd all
  AllWaited-AreItems now all_jobs (j ∷ js) (q ∷ qs) (is, all) from =
      let (there, waiting) = from j (inl refl) in
      ((j, there, waiting, is), AllWaited-AreItems now all_jobs js qs all (λ x h. from x (inr h)))

  length-AreItems :
      (js : List Job) (qs : List (QueuedNotification V))
      → AreItems codec js qs
      → length qs ≡ length js
  length-AreItems [] [] all = refl
  length-AreItems [] (q ∷ qs) all = absurd all
  length-AreItems (j ∷ js) [] all = absurd all
  length-AreItems (j ∷ js) (q ∷ qs) (is, all) = ap suc (length-AreItems js qs all)

  All-Has : (js : List Job) → ((j : Job) → Has j js → Decodes codec j) → All (Decodes codec) js
  All-Has [] h = tt
  All-Has (j ∷ js) h = (h j (inl refl), All-Has js (λ x there. h x (inr there)))

module _ {V : Values} (codec : Codec V) (fails : ℕ → Bool) where
  queued-IsItem :
      (j : Job) (n : Notification V)
      → codec.unmarshal j.payload ≡ some n
      → IsItem codec j (queued j n)
  queued-IsItem j n is = record {
    id = refl;
    subscription_id = refl;
    dispatcher_id = refl;
    deliver_at = refl;
    attempts = refl;
    notification = is;
  }

  scan_jobs-AreItems :
      (js : List Job) (db : Db)
      → All (Decodes codec) js
      → (qs : List (QueuedNotification V)) × (scan_jobs codec fails true js db
          ≡ (record { items = qs; interrupted = false }, db))
        × AreItems codec js qs
  unfolding scan_jobs
  scan_jobs-AreItems [] db h = ([], refl, tt)
  scan_jobs-AreItems (j ∷ js) db ((n, is), h) =
      let (qs, found, all) = scan_jobs-AreItems js db h in
      (queued j n ∷ qs, rw (is, scan_jobs, found) refl, (queued-IsItem j n is, all))

  -- The loop up to a row that does not decode.
  scan_jobs_stop :
      (front back : List Job) (bad : Job) (db : Db)
      → All (Decodes codec) front
      → codec.unmarshal bad.payload ≡ none
      → (qs : List (QueuedNotification V)) × (scan_jobs codec fails true (front ++ (bad ∷ back)) db
          ≡ (record { items = qs; interrupted = true }, state_of (drop_job fails bad.id db)))
        × AreItems codec front qs
  unfolding scan_jobs
  scan_jobs_stop [] back bad db h is = ([], rw (is, scan_jobs) refl, tt)
  scan_jobs_stop (j ∷ js) back bad db ((n, good), h) is =
      let (qs, found, all) = scan_jobs_stop js back bad db h is in
      (queued j n ∷ qs, rw (good, scan_jobs, found) refl, (queued-IsItem j n good, all))

module _ {V : Values} (codec : Codec V) (order : List Job → List Job) (fails : ℕ → Bool) where
  -- Where the statement is not refused, the query orders the rows, and every pending row whose time
  -- has come decodes: `DrainReady` returns each of those rows, decoded, and nothing else, as many
  -- items as there are such rows, without an error, and changes no table.
  pub drain_ready-waits :
      (now : Time) (db : Db)
      → fails db.statements ≡ false
      → IsReordering order
      → ((j : Job) → Has j db.jobs → waits now j ≡ true → Decodes codec j)
      → (qs : List (QueuedNotification V)) × (drain_ready codec order fails now db
          ≡ done (record { items = qs; interrupted = false }) (tick db))
        × ((j : Job) → Has j db.jobs → waits now j ≡ true → Returned codec j qs)
        × AllWaited codec now db.jobs qs
        × (length qs ≡ count_where (waits now) db.jobs)
  unfolding drain_ready query Found
  drain_ready-waits now db runs ordered decodes =
      let rows = order (where_rows (is_due now) db.jobs) in
      let from : (j : Job) → Has j rows → Has j db.jobs × (waits now j ≡ true) = λ j h.
        let (there, due) = Has-where_rows (is_due now) db.jobs j (ordered.adds_none _ j h) in
        (there, sym (is_due-waits now j) ∙ due) in
      let (qs, found, all) =
        scan_jobs-AreItems codec fails rows (tick db)
          (All-Has codec rows (λ j h. decodes j (from j h).0 (from j h).1)) in
      (
        qs,
        rw (runs, found) refl,
        (λ j h waiting. Returned-AreItems codec rows qs j all (
            ordered.keeps _ j
              (where_rows-Has (is_due now) db.jobs j h (is_due-waits now j ∙ waiting)))),
        AllWaited-AreItems codec now db.jobs rows qs all from,
        length-AreItems codec rows qs all
            ∙ ordered.as_many _
            ∙ length-where_rows (is_due now) (waits now) db.jobs (is_due-waits now),
      )

  -- Where no statement of the two is refused, and a row of the query does not decode but those before
  -- it do: `DrainReady` returns the rows before it with an error, and none of those after it. That
  -- row is marked as dropped, and no other job is changed.
  pub drain_ready-malformed :
      (now : Time) (front back : List Job) (bad : Job) (db : Db)
      → fails db.statements ≡ false
      → fails (suc db.statements) ≡ false
      → order (where_rows (is_due now) db.jobs) ≡ front ++ (bad ∷ back)
      → All (Decodes codec) front
      → codec.unmarshal bad.payload ≡ none
      → (qs : List (QueuedNotification V)) × (db' : Db) × (drain_ready codec order fails now db
          ≡ done (record { items = qs; interrupted = true }) db')
        × AreItems codec front qs
        × (db'.jobs
            ≡ map (λ j. if j.id == bad.id then record j { status = dropped } else j) db.jobs)
  unfolding drain_ready query drop_job exec
  drain_ready-malformed now front back bad db runs drops rows decodes is =
      let (qs, found, all) = scan_jobs_stop codec fails front back bad (tick db) decodes is in
      (
        qs,
        state_of (drop_job fails bad.id (tick db)),
        rw (runs, rows, found) refl,
        all,
        rw drops (update_where-map (has_id bad.id) (with_status dropped) db.jobs),
      )

module _ {V : Values} (codec : Codec V) (fails : ℕ → Bool) where
  -- Where the notification can be encoded and the statement is not refused, `Enqueue` adds one row
  -- to those that are due, from `deliverAt` on and not before, with the encoding as its payload.
  pub enqueue-is_due :
      (n : Notification V) (payload : String) (at now later : Time) (db : Db)
      → codec.marshal n ≡ some payload
      → fails db.statements ≡ false
      → (db' : Db) × (enqueue codec fails n at now db ≡ done tt db')
        × (where_rows (is_due later) db'.jobs
            ≡ where_rows (is_due later) db.jobs
              ++ (if not (after at later)
                  then record (new_job n payload now at) { id = db.next_id } ∷ []
                  else []))
  unfolding enqueue exec
  enqueue-is_due n payload at now later db encoded runs = (
    tick (insert_job (new_job n payload now at) db),
    rw (encoded, enqueue, runs) refl,
    where_rows-snoc (is_due later) db.jobs _,
  )
