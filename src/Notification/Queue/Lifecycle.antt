-- ===== src/Notification/Queue/Lifecycle.antt =====
-- Rows of `notification_queue` across sequences of calls.
use dozzle_gaia_fork.Common.{
  ℕ, ◌+◌, ◌==◌, ◌≤◌, ◌<◌, Bool, true, false, not, ◌&&◌, List, [], ◌∷◌, ◌≡◌, refl, sym, subst, ◌∙◌,
  arith, All, All-append, Bool-cases, Option-cases, inl, inr,
}
use dozzle_gaia_fork.Notification.Queue.{Db, Job, sent, dropped, state_of, Codec, tick, exec, query}
use dozzle_gaia_fork.Notification.Queue.Jobs.{
  is_pending, is_due, has_id, set_jobs, insert_job, with_status, rescheduled, failed_job,
  next_status, new_job, enqueue, scan_jobs, drain_ready, drop_job, mark_sent, update_deliver_at,
  mark_failed, cleanup,
}
use dozzle_gaia_fork.Notification.Queue.Table.{where_rows, update_where}
use dozzle_gaia_fork.Notification.Time.{Time, Duration, after}
use dozzle_gaia_fork.Notification.Types.{Values, Notification}

-- A call of one of the queue's operations, with the clock at the call.
pub data Call (V : Values) : Type 0 where
  enqueues : Notification V → Time → Time → Call V
  drains : Time → Call V
  marks_sent : ℕ → Call V
  marks_failed : ℕ → ℕ → Time → Call V
  reschedules : ℕ → Time → Call V
  cleans_up : Duration → Time → Call V

module _ {A : Type 0} (P : A → Type 0) where
  All-where_rows : (p : A → Bool) (xs : List A) → All P xs → All P (where_rows p xs)
  unfolding where_rows
  All-where_rows p [] h = tt
  All-where_rows p (x ∷ xs) (hx, h) = elim (Bool-cases (p x)) [
    | inl kept ↦ rw kept (hx, All-where_rows p xs h)
    | inr gone ↦ rw gone (All-where_rows p xs h)
  ]

  All-update_where :
      (p : A → Bool) (f : A → A) (xs : List A)
      → ((x : A) → p x ≡ true → P x → P (f x))
      → All P xs
      → All P (update_where p f xs)
  unfolding update_where
  All-update_where p f [] keeps h = tt
  All-update_where p f (x ∷ xs) keeps (hx, h) = elim (Bool-cases (p x)) [
    | inl hit ↦ rw hit (keeps x hit hx, All-update_where p f xs keeps h)
    | inr miss ↦ rw miss (hx, All-update_where p f xs keeps h)
  ]

-- A row with the id is in one of the two final states.
abbrev pub IsFinal : ℕ → Job → Type 0
IsFinal i j = has_id i j ≡ true → is_pending j ≡ false

-- The id was given out, and its row is final.
abbrev pub IsSettled : ℕ → Db → Type 0
IsSettled i db = All (IsFinal i) db.jobs × (i < db.next_id)

pub All-settling :
    (i : ℕ) (f : Job → Job) (js : List Job)
    → ((j : Job) → is_pending (f j) ≡ false)
    → All (IsFinal i) (update_where (has_id i) f js)
unfolding update_where
All-settling i f [] settles = tt
All-settling i f (j ∷ js) settles = elim (Bool-cases (has_id i j)) [
  | inl hit ↦ rw hit (λ same. settles j, All-settling i f js settles)
  | inr miss ↦ rw miss (λ same. absurd (let e = sym same ∙ miss in cc), All-settling i f js settles)
]

module _ {V : Values} (codec : Codec V) (order : List Job → List Job) (fails : ℕ → Bool) where
  unfoldable pub run : Call V → Db → Db
  run (enqueues n at now) db = state_of (enqueue codec fails n at now db)
  run (drains now) db = state_of (drain_ready codec order fails now db)
  run (marks_sent i) db = state_of (mark_sent fails i db)
  run (marks_failed i attempts now) db = state_of (mark_failed fails i attempts now db)
  run (reschedules i at) db = state_of (update_deliver_at fails i at db)
  run (cleans_up max_age now) db = cleanup fails max_age now db

  unfoldable pub run_all : List (Call V) → Db → Db
  unfolding run
  run_all [] db = db
  run_all (c ∷ cs) db = run_all cs (run c db)

  -- A call that reports no failed delivery of the row.
  abbrev pub IsNoRetry : ℕ → Call V → Type 0
  IsNoRetry i (marks_failed k attempts now) = (k == i) ≡ false
  IsNoRetry i _ = Unit

  -- A call after which the row is final: its delivery, or its third failure.
  abbrev pub IsLast : ℕ → Call V → Type 0
  IsLast i (marks_sent k) = k ≡ i
  IsLast i (marks_failed k attempts now) = (k ≡ i) × (2 ≤ attempts)
  IsLast i _ = ⊥

  exec-IsSettled :
      (i : ℕ) (f : Db → Db) (db : Db)
      → (IsSettled i db → IsSettled i (f db))
      → IsSettled i db
      → IsSettled i (state_of (exec fails f db))
  unfolding exec
  exec-IsSettled i f db keeps h = elim (Bool-cases (fails db.statements)) [
    | inl refused ↦ rw refused h
    | inr runs ↦ rw runs (keeps h)
  ]

  update-IsSettled :
      (i : ℕ) (p : Job → Bool) (f : Job → Job) (db : Db)
      → ((j : Job) → p j ≡ true → IsFinal i j → IsFinal i (f j))
      → IsSettled i db
      → IsSettled i (set_jobs (update_where p f) db)
  update-IsSettled i p f db keeps (h, given) =
      (All-update_where (IsFinal i) p f db.jobs keeps h, given)

  insert-IsSettled : (i : ℕ) (j : Job) (db : Db) → IsSettled i db → IsSettled i (insert_job j db)
  insert-IsSettled i j db (settled, given) =
      (All-append (IsFinal i) db.jobs _ settled ((λ same. absurd (ground arith)), tt), omega arith)

  enqueue-IsSettled :
      (i : ℕ) (n : Notification V) (at now : Time) (db : Db)
      → IsSettled i db
      → IsSettled i (state_of (enqueue codec fails n at now db))
  unfolding enqueue
  enqueue-IsSettled i n at now db h = elim (Option-cases (codec.marshal n)) [
    | inl bad ↦ rw (bad, enqueue) h
    | inr (payload, e) ↦
        rw (e, enqueue)
          (exec-IsSettled i (insert_job (new_job n payload now at)) db
            (insert-IsSettled i (new_job n payload now at) db) h)
  ]

  drop_job-IsSettled :
      (i k : ℕ) (db : Db) → IsSettled i db → IsSettled i (state_of (drop_job fails k db))
  unfolding drop_job
  drop_job-IsSettled i k db =
      exec-IsSettled i (set_jobs (update_where (has_id k) (with_status dropped))) db
        (update-IsSettled i (has_id k) (with_status dropped) db (λ j hit final same. refl))

  scan_jobs-IsSettled :
      (i : ℕ) (is_open : Bool) (js : List Job) (db : Db)
      → IsSettled i db
      → IsSettled i (scan_jobs codec fails is_open js db).1
  unfolding scan_jobs
  scan_jobs-IsSettled i false js db h = h
  scan_jobs-IsSettled i true [] db h = h
  scan_jobs-IsSettled i true (j ∷ js) db h = elim (Option-cases (codec.unmarshal j.payload)) [
    | inl bad ↦ rw (bad, scan_jobs) (drop_job-IsSettled i j.id db h)
    | inr (n, e) ↦ rw (e, scan_jobs) (scan_jobs-IsSettled i true js db h)
  ]

  drain_ready-IsSettled :
      (i : ℕ) (now : Time) (db : Db)
      → IsSettled i db
      → IsSettled i (state_of (drain_ready codec order fails now db))
  unfolding drain_ready query
  drain_ready-IsSettled i now db h = elim (Bool-cases (fails db.statements)) [
    | inl refused ↦ rw (refused, drain_ready) h
    | inr runs ↦ rw (runs, drain_ready) (scan_jobs-IsSettled i true _ (tick db) h)
  ]

  mark_failed-IsSettled :
      (i k attempts : ℕ) (now : Time) (db : Db)
      → (k == i) ≡ false
      → IsSettled i db
      → IsSettled i (state_of (mark_failed fails k attempts now db))
  unfolding mark_failed
  mark_failed-IsSettled i k attempts now db other =
      exec-IsSettled i (set_jobs (update_where (has_id k) (failed_job now (attempts + 1)))) db (
        update-IsSettled i (has_id k) (failed_job now (attempts + 1)) db
          (λ j hit final same. absurd (ground arith)))

  run-IsSettled :
      (i : ℕ) (c : Call V) (db : Db) → IsNoRetry i c → IsSettled i db → IsSettled i (run c db)
  unfolding run mark_sent update_deliver_at cleanup
  run-IsSettled i (enqueues n at now) db ok h = enqueue-IsSettled i n at now db h
  run-IsSettled i (drains now) db ok h = drain_ready-IsSettled i now db h
  run-IsSettled i (marks_sent k) db ok h =
      exec-IsSettled i (set_jobs (update_where (has_id k) (with_status sent))) db
        (update-IsSettled i (has_id k) (with_status sent) db (λ j hit final same. refl)) h
  run-IsSettled i (marks_failed k attempts now) db ok h =
      mark_failed-IsSettled i k attempts now db ok h
  run-IsSettled i (reschedules k at) db ok h =
      exec-IsSettled i _ db
        (update-IsSettled i (λ j. has_id k j && is_pending j) (rescheduled at) db
          (λ j hit final same. final same))
        h
  run-IsSettled i (cleans_up max_age now) db ok h =
      exec-IsSettled i _ db
        (λ (settled, given). (All-where_rows (IsFinal i) _ db.jobs settled, given)) h

  run_all-IsSettled :
      (i : ℕ) (cs : List (Call V)) (db : Db)
      → All (IsNoRetry i) cs
      → IsSettled i db
      → IsSettled i (run_all cs db)
  unfolding run_all
  run_all-IsSettled i [] db ok h = h
  run_all-IsSettled i (c ∷ cs) db (ok, oks) h =
      run_all-IsSettled i cs (run c db) oks (run-IsSettled i c db ok h)

  last-IsSettled :
      (i : ℕ) (c : Call V) (db : Db)
      → IsLast i c
      → fails db.statements ≡ false
      → i < db.next_id
      → IsSettled i (run c db)
  unfolding run mark_sent mark_failed exec next_status
  last-IsSettled i (marks_sent k) db is runs given =
      rw (is, runs) (All-settling i (with_status sent) db.jobs (λ j. refl), given)
  last-IsSettled i (marks_failed k attempts now) db (is, third) runs given =
      rw (is, runs)
        (All-settling i (failed_job now (attempts + 1)) db.jobs (λ j. ground arith), given)
  last-IsSettled i (enqueues n at now) db is runs given = absurd is
  last-IsSettled i (drains now) db is runs given = absurd is
  last-IsSettled i (reschedules k at) db is runs given = absurd is
  last-IsSettled i (cleans_up max_age now) db is runs given = absurd is

  due_not_final :
      (i : ℕ) (t : Time) (j : Job) → IsFinal i j → is_due t j ≡ true → has_id i j ≡ false
  due_not_final i t j final due = elim (Bool-cases (has_id i j)) [
    | inl same ↦
        absurd
          (let e = subst (λ b. (b && not (after j.deliver_at t)) ≡ true) (final same) due in cc)
    | inr other ↦ other
  ]

  final_not_due :
      (i : ℕ) (t : Time) (js : List Job)
      → All (IsFinal i) js
      → All (λ j. has_id i j ≡ false) (where_rows (is_due t) js)
  unfolding where_rows
  final_not_due i t [] h = tt
  final_not_due i t (j ∷ js) (final, h) = elim (Bool-cases (is_due t j)) [
    | inl due ↦ rw due (due_not_final i t j final due, final_not_due i t js h)
    | inr not_due ↦ rw not_due (final_not_due i t js h)
  ]

  -- Where the id was given out and the statement is not refused: after `MarkSent`, or `MarkFailed`
  -- for the third time, no sequence of calls makes the row due again, at any time, unless it has a
  -- `MarkFailed` for that id.
  pub run_all-last :
      (i : ℕ) (c : Call V) (cs : List (Call V)) (t : Time) (db : Db)
      → IsLast i c
      → fails db.statements ≡ false
      → i < db.next_id
      → All (IsNoRetry i) cs
      → All (λ j. has_id i j ≡ false) (where_rows (is_due t) (run_all (c ∷ cs) db).jobs)
  unfolding run_all
  run_all-last i c cs t db is runs given ok =
      final_not_due i t _
        (run_all-IsSettled i cs (run c db) ok (last-IsSettled i c db is runs given)).0
