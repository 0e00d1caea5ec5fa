-- ===== src/Notification/Queue/Jobs.antt =====
-- The table `notification_queue`: what waits for its delivery. `order` is `ORDER BY deliver_at ASC`,
-- and `now` is the clock at the call.
use dozzle_gaia_fork.Common.{
  ℕ, suc, ◌+◌, ◌*◌, ◌==◌, String, Bool, true, false, not, ◌&&◌, none, some, List, [], ◌∷◌, ◌++◌,
  length, leb, if◌then◌else◌,
}
use dozzle_gaia_fork.Common.Int.{ℤ, pos, ltb_ℤ, int64, ◌+ℤ◌, ◌-ℤ◌}
use dozzle_gaia_fork.Notification.Queue.{
  Db, Job, Status, pending, sent, dropped, Reply, done, failed, state_of, ◌>>=◌, Codec, exec, query,
}
use dozzle_gaia_fork.Notification.Queue.Table.{where_rows, update_where}
use dozzle_gaia_fork.Notification.Time.{Time, Duration, second, before, after}
use dozzle_gaia_fork.Notification.Types.{Values, Notification}

pub record QueuedNotification (V : Values) : Type 0 where
  pub id : ℕ
  pub subscription_id : ℤ
  pub dispatcher_id : ℤ
  pub notification : Notification V
  pub deliver_at : Time
  pub attempts : ℕ

-- What `DrainReady` returns: the items, and whether `rows.Err()` is the error of a context that ended.
pub record Drained (V : Values) : Type 0 where
  pub items : List (QueuedNotification V)
  pub interrupted : Bool

abbrev pub eqb_ℤ : ℤ → ℤ → Bool
eqb_ℤ a b = not (ltb_ℤ a b) && not (ltb_ℤ b a)

abbrev pub is_pending : Job → Bool
is_pending j = elim j.status [ pending ↦ true | _ ↦ false ]

abbrev pub has_id : ℕ → Job → Bool
has_id i j = j.id == i

-- `status = 'pending' AND deliver_at <= ?`
abbrev pub is_due : Time → Job → Bool
is_due now j = is_pending j && not (after j.deliver_at now)

-- `status IN ('sent','dropped') AND created_at < ?`
abbrev pub is_stale : Time → Job → Bool
is_stale cutoff j = not (is_pending j) && before j.created_at cutoff

abbrev pub set_jobs : (List Job → List Job) → Db → Db
set_jobs f db = record db { jobs = f db.jobs }

abbrev pub insert_job : Job → Db → Db
insert_job j db = record db {
  jobs = db.jobs ++ (record j { id = db.next_id } ∷ []);
  next_id = suc db.next_id;
}

abbrev pub with_status : Status → Job → Job
with_status s j = record j { status = s }

abbrev pub rescheduled : Time → Job → Job
rescheduled at j = record j { deliver_at = at; attempts = 0 }

unfoldable pub next_status : ℕ → Status
next_status attempts = if leb 3 attempts then dropped else pending

-- `now.Add(time.Duration(n*n) * 30 * time.Second)`
unfoldable pub retry_at : Time → ℕ → Time
retry_at now n = now +ℤ int64 (pos (n * n * (30 * second)))

abbrev pub failed_job : Time → ℕ → Job → Job
failed_job now next j = record j {
  attempts = next;
  status = next_status next;
  deliver_at = retry_at now next;
}

module _ {V : Values} where
  abbrev pub queued : Job → Notification V → QueuedNotification V
  queued j n = record {
    id = j.id;
    subscription_id = j.subscription_id;
    dispatcher_id = j.dispatcher_id;
    notification = n;
    deliver_at = j.deliver_at;
    attempts = j.attempts;
  }

  abbrev pub with_item : QueuedNotification V → Drained V × Db → Drained V × Db
  with_item q (r, db) = (record r { items = q ∷ r.items }, db)

  abbrev pub returned : Drained V × Db → Reply (Drained V)
  returned (r, db) = done r db

  abbrev pub new_job : Notification V → String → Time → Time → Job
  new_job n payload now at = record {
    id = 0;
    subscription_id = n.subscription.id;
    dispatcher_id = n.subscription.dispatcher_id;
    payload = payload;
    ntfy_topic = n.ntfy_topic;
    ntfy_priority = n.ntfy_priority;
    created_at = now;
    deliver_at = at;
    attempts = 0;
    status = pending;
  }

module _ (fails : ℕ → Bool) where
  unfoldable pub pending_count_for_subscription : ℤ → Db → Reply ℕ
  pending_count_for_subscription s db =
      query fails (λ d. length (where_rows (λ j. is_pending j && eqb_ℤ j.subscription_id s) d.jobs))
        db

  -- `drop` asks for the connection that the open rows of the query hold. It waits until the
  -- context ends, which closes the rows; then it runs.
  unfoldable pub drop_job : ℕ → Db → Reply (Unit {0})
  drop_job i db = exec fails (set_jobs (update_where (has_id i) (with_status dropped))) db

  unfoldable pub mark_sent : ℕ → Db → Reply (Unit {0})
  mark_sent i db = exec fails (set_jobs (update_where (has_id i) (with_status sent))) db

  unfoldable pub update_deliver_at : ℕ → Time → Db → Reply (Unit {0})
  update_deliver_at i at db =
      exec fails (set_jobs (update_where (λ j. has_id i j && is_pending j) (rescheduled at))) db

  unfoldable pub mark_failed : ℕ → ℕ → Time → Db → Reply (Unit {0})
  mark_failed i attempts now db =
      exec fails (set_jobs (update_where (has_id i) (failed_job now (attempts + 1)))) db

  unfoldable pub cleanup : Duration → Time → Db → Db
  cleanup max_age now db =
      state_of (exec fails (set_jobs (where_rows (λ j. not (is_stale (now -ℤ max_age) j)))) db)

module _ {V : Values} (codec : Codec V) (fails : ℕ → Bool) where
  unfoldable pub enqueue : Notification V → Time → Time → Db → Reply (Unit {0})
  enqueue n at now db = elim (codec.marshal n) [
    | none ↦ failed db
    | some payload ↦ exec fails (insert_job (new_job n payload now at)) db
  ]

  -- The loop over the rows, while they are open. A row that does not decode is dropped, and the loop
  -- goes on: but the call has closed the rows, so `Next` finds none and `Err` is the context's error.
  unfoldable pub scan_jobs : Bool → List Job → Db → Drained V × Db
  scan_jobs false js db = (record { items = []; interrupted = true }, db)
  scan_jobs true [] db = (record { items = []; interrupted = false }, db)
  scan_jobs true (j ∷ js) db = elim (codec.unmarshal j.payload) [
    | none ↦ scan_jobs false js (state_of (drop_job fails j.id db))
    | some n ↦ with_item (queued j n) (scan_jobs true js db)
  ]

module _ {V : Values} (codec : Codec V) (order : List Job → List Job) (fails : ℕ → Bool) where
  unfoldable pub drain_ready : Time → Db → Reply (Drained V)
  unfolding scan_jobs
  drain_ready now db = query fails (λ d. order (where_rows (is_due now) d.jobs)) db >>= λ rows d.
      returned (scan_jobs codec fails true rows d)
