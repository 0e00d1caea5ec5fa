-- ===== src/Tests/Queues.antt =====
-- The notification queue on small tables.
use dozzle_gaia_fork.Common.{
  ℕ, ◌*◌, String, Bool, true, false, none, some, List, [], ◌∷◌, ◌≡◌, refl, arith, if◌then◌else◌,
  All, inl, inr, length, subst,
}
use dozzle_gaia_fork.Common.Int.{pos}
use dozzle_gaia_fork.Common.Text.{str_eq}
use dozzle_gaia_fork.Notification.Queue.{
  Db, Job, StoredUnique, sent, dropped, done, ◌>>=◌, Codec, tick,
}
use dozzle_gaia_fork.Notification.Queue.Delivery.{
  Decodes, Returned, AllWaited, AreItems, drain_ready-waits, drain_ready-malformed, enqueue-is_due,
}
use dozzle_gaia_fork.Notification.Queue.Jobs.{
  QueuedNotification, is_due, has_id, new_job, enqueue, drain_ready,
}
use dozzle_gaia_fork.Notification.Queue.Kept.{
  get_or_create_unique_state-upsert_unique_state, quiet_period_grouping_again,
  load_cooldowns-cleanup_cooldowns,
}
use dozzle_gaia_fork.Notification.Queue.Lifecycle.{
  enqueues, drains, marks_failed, run_all, run_all-last,
}
use dozzle_gaia_fork.Notification.Queue.Quiet.{quiet_period_grouping}
use dozzle_gaia_fork.Notification.Queue.States.{
  truncated, get_or_create_unique_state, upsert_unique_state, load_cooldowns, cleanup_cooldowns,
}
use dozzle_gaia_fork.Notification.Queue.Rows.{Has, waits, IsReordering}
use dozzle_gaia_fork.Notification.Queue.Table.{where_rows}
use dozzle_gaia_fork.Notification.Time.{Time, second}
use dozzle_gaia_fork.Notification.Types.{Notification, log}
use dozzle_gaia_fork.Tests.Samples.{values}

abbrev pub at : ℕ → Time
at n = pos (n * second)

abbrev pub notice : String → Notification values
notice detail = record {
  id = "n1";
  kind = log;
  detail = detail;
  container = record {
    id = "c1";
    name = "web";
    image = "nginx";
    state = "running";
    health = "";
    host_id = "h1";
    host_name = "host";
    host_group = "";
    labels = [];
  };
  log = none;
  stat = none;
  event = none;
  subscription = record {
    id = pos 7;
    name = "errors";
    enabled = true;
    dispatcher_id = pos 2;
    log_expression = "";
    container_expression = "";
    metric_expression = "";
    event_expression = "";
    cooldown = pos 0;
    sample_window = pos 0;
    ntfy_topic = "";
    ntfy_priority = pos 3;
    ntfy_tags = [];
    bypass_quiet_hours = false;
    restart_loop_enabled = false;
    restart_loop_state_window = pos 0;
    restart_loop_event_count = pos 0;
    restart_loop_event_window = pos 0;
    restart_loop_cooldown = pos 0;
    restart_loop_trigger_message = "";
  };
  timestamp = at 100;
  ntfy_topic = "";
  ntfy_priority = pos 3;
  ntfy_tags = [];
  context = [];
}

-- A payload is the detail; an empty one does not decode.
abbrev codec : Codec values
codec = record {
  marshal = λ n. some n.detail;
  unmarshal = λ s. if str_eq s "" then none else some (notice s);
}

abbrev in_order : List Job → List Job
in_order l = l

abbrev pub never : ℕ → Bool
never n = false

abbrev pub job : ℕ → String → Job
job i payload = record (new_job (notice "x") payload (at 100) (at 200)) { id = i }

abbrev pub tables : List Job → Db
tables js = record {
  jobs = js;
  next_id = 10;
  alert_states = [];
  unique_states = [];
  summaries = [];
  period_modes = [];
  cooldowns = record { key = "7:c1:log"; expires_at = pos 300 } ∷ [];
  statements = 0;
}

in_order-IsReordering : IsReordering in_order
in_order-IsReordering = record {
  keeps = λ js j h. h;
  adds_none = λ js j h. h;
  as_many = λ js. refl;
}

-- One row is due, one was sent, one waits for a later time.
abbrev three : List Job
three =
    job 1 "a"
    ∷ record (job 2 "b") { status = sent }
    ∷ record (job 3 "c") { deliver_at = at 300 }
    ∷ []

three_decode : (j : Job) → Has j three → waits (at 200) j ≡ true → Decodes codec j
three_decode j (inl same) h = subst (Decodes codec) same (_, refl)
three_decode j (inr (inl same)) h = subst (Decodes codec) same (_, refl)
three_decode j (inr (inr (inl same))) h = subst (Decodes codec) same (_, refl)
three_decode j (inr (inr (inr none_left))) h = absurd none_left

drain_ready-waits_example :
    (qs : List (QueuedNotification values)) × (drain_ready codec in_order never
        (at 200)
        (tables three)
      ≡ done (record { items = qs; interrupted = false }) (tick (tables three)))
    × ((j : Job) → Has j three → waits (at 200) j ≡ true → Returned codec j qs)
    × AllWaited codec (at 200) three qs
    × (length qs ≡ 1)
drain_ready-waits_example =
    drain_ready-waits codec in_order never (at 200) (tables three) refl in_order-IsReordering
      three_decode

drain_ready-malformed_example :
    (qs : List (QueuedNotification values)) × (db' : Db) × (drain_ready codec in_order never
        (at 200)
        (tables (job 1 "a" ∷ job 2 "" ∷ job 3 "c" ∷ []))
      ≡ done (record { items = qs; interrupted = true }) db')
    × AreItems codec (job 1 "a" ∷ []) qs
    × (db'.jobs ≡ job 1 "a" ∷ record (job 2 "") { status = dropped } ∷ job 3 "c" ∷ [])
unfolding where_rows
drain_ready-malformed_example =
    drain_ready-malformed codec in_order never (at 200) (job 1 "a" ∷ []) (job 3 "c" ∷ []) (job 2 "")
      (tables (job 1 "a" ∷ job 2 "" ∷ job 3 "c" ∷ [])) refl refl refl ((_, refl), tt) refl

enqueue-is_due_example :
    (db : Db) × (enqueue codec never (notice "x") (at 200) (at 100) (tables []) ≡ done tt db)
    × (where_rows (is_due (at 200)) db.jobs ≡ job 10 "x" ∷ [])
unfolding where_rows
enqueue-is_due_example =
    enqueue-is_due codec never (notice "x") "x" (at 200) (at 100) (at 200) (tables []) refl refl

run_all-last_example :
    All
      (λ j. has_id 1 j ≡ false)
      (where_rows
        (is_due (at 999))
        (run_all codec in_order never
          (marks_failed 1 2 (at 210)
            ∷ enqueues (notice "y") (at 300) (at 220)
            ∷ marks_failed 10 0 (at 310)
            ∷ drains (at 400)
            ∷ [])
          (tables (job 1 "a" ∷ []))).jobs)
run_all-last_example =
    run_all-last codec in_order never 1 (marks_failed 1 2 (at 210))
      (enqueues (notice "y") (at 300) (at 220) ∷ marks_failed 10 0 (at 310) ∷ drains (at 400) ∷ [])
      (at 999) (tables (job 1 "a" ∷ [])) (refl, omega arith) refl (omega arith)
      (tt, (refl, (tt, tt)))

abbrev counted : StoredUnique
counted = record {
  fingerprint = "fp";
  subscription_id = pos 7;
  unique_key = "k";
  count = pos 4;
  window_start = pos 1_500_000_000;
  is_sent = true;
  updated_at = pos 0;
}

get_or_create_unique_state-upsert_unique_state_example :
    (r : StoredUnique) × (db' : Db) × (((upsert_unique_state never counted (at 9) (tables [])).1
        >>= λ _ d. get_or_create_unique_state never "fp" (pos 7) "k" (at 12) d)
      ≡ done r db')
    × (r.count ≡ pos 4)
    × (r.is_sent ≡ true)
    × (r.window_start ≡ truncated (pos 1_500_000_000))
get_or_create_unique_state-upsert_unique_state_example =
    get_or_create_unique_state-upsert_unique_state never (λ n. refl) counted (pos 7) "k" (at 9)
      (at 12) (tables [])

quiet_period_grouping_again_example :
    (b : Bool) × (db1 db2 : Db) × (quiet_period_grouping never "2024-01-01"
        (at 500)
        true
        (tables [])
      ≡ done b db1)
    × (quiet_period_grouping never "2024-01-01" (at 600) false db1 ≡ done b db2)
    × (db2.period_modes ≡ db1.period_modes)
quiet_period_grouping_again_example =
    quiet_period_grouping_again never (λ n. refl) "2024-01-01" (at 500) (at 600) true false
      (tables [])

load_cooldowns-cleanup_cooldowns_example :
    (cs : List (String × Time)) × (db1 db2 : Db) × (load_cooldowns never
        (at 250)
        (cleanup_cooldowns never (at 200) (tables []))
      ≡ done cs db1)
    × (load_cooldowns never (at 250) (tables []) ≡ done cs db2)
load_cooldowns-cleanup_cooldowns_example =
    load_cooldowns-cleanup_cooldowns never (λ n. refl) (at 200) (at 250) (tables []) (omega arith)
