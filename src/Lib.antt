-- ===== src/Lib.antt =====
-- Verification of dozzle, a viewer and alert engine for container logs.
--
-- The program reads the logs, statistics and events of containers, shows them, and sends
-- notifications by the rules that a user sets. This library models the parts that carry its own
-- logic; each file names the code that it translates.
--
-- Common          shared helpers: lists and signed integers over the native numbers, texts,
--                 association lists, `Outcome` for code that may panic
-- Cache           internal/cache/expire.go, `GetWithHit`
-- Utils           internal/utils: `RingBuffer`, its operations and its history
-- Container       internal/container:
--   LogEvent        types.go, the log events
--   EventGenerator  event_generator.go, the goroutine `processBuffer` with all that it calls
--   Reader          event_generator.go, `createEvent` and the goroutine `consumeReader`
--   Logfmt          logfmt.go, `ParseLogFmt` on bytes
-- Notification    internal/notification and types/notification.go:
--   Rule, Subscription, Cooldowns, Burst, Samples, Unique, Watchdog, Schedule
--                   types.go and modifiers.go: a rule and its runtime state (the record
--                   `Subscription`, one field for each `xsync.Map`), one function for each method
--   Queue           queue/queue.go: the SQLite tables, one function for each method
--   Drain, Flush    manager.go: `deliverQueuedNotification` and `flushQueue`
--   QuietHours      manager.go: whether a time is quiet, and when the quiet hours end
--   QuietSummary, Fingerprint
--                   quiet_summary.go and fingerprint.go: the hits that are only counted
--   Modifiers       modifiers.go: what bursts and unique keys add to a notification
--   Sending, Retry  processing.go: `sendOrQueue` and `sendWithRetry`
--   Sources, Processing
--                   types.go and processing.go: the handlers of log lines (Logs), samples (Stats) and
--                   container events (Events), watchdogs and the restart loop
--   TtlCache        ttl_cache.go
--   Compile, Registry
--                   types.go, `CompileExpressions`, and manager.go: adding, replacing, removing and
--                   updating rules, and the listeners that follow them
-- Docker          internal/docker/log_reader.go: LogReader, the reader of Docker's log frames
-- Auth            internal/auth/roles.go: the roles of a user
-- Tests           runs on small inputs
--
-- How the parts meet: a reader's lines become the events of a channel, which the event generator
-- groups and sends on. A handler of the alert engine runs every rule on the event: `Engine` is what
-- it reads, `World` the queue and the calls of `sendWithRetry` that it makes, and the rule's
-- `Subscription` says whether a cooldown, a burst or a unique window changes or holds back the
-- notification. `send_or_queue` sends it, holds it in the queue or counts it in a summary; a ticker
-- drains the queue and delivers one item at a time.
--
-- State is a record that an operation takes and returns. `now` is the clock at a call, one value
-- for the whole call. A method of a nil map, or of a nil pointer, is `panic`.
--
-- Parameters, which stand for code that is not part of the repository: `MapOps` is `xsync.Map`
-- with the documented laws of its operations, which association lists meet; `Expr` is the
-- evaluation of expressions and regular expressions; `Values` has the floats and the decoded
-- objects; `Platform` is Go's library as the alert engine uses it, the calendar among it; `Codec`
-- and `GroupCodec` are the JSON encoding of notifications and of groups; `RoleText` is the trimming and
-- splitting of a role's text; `Decoders` has the hash, the dates and
-- the JSON of log lines; `fails n` says whether the database refuses the n-th statement; `order`
-- is the order of a query's rows; `accept n` says whether the n-th send to a channel succeeds
-- before its context is done; `Manager.send` is a dispatcher's answer and `Manager.weekday` the
-- calendar. The statements of the queue are translated from the SQL in the source; a time stored
-- in a table is taken to come back as it was, whole seconds where the column holds them.
--
-- A handler's function is called for the rules in the order of a list; `xsync.Map.Range` gives no
-- order. A timer's function is one step: that it runs at its deadline is not part of the model.
--
-- Fuel: the two loops of the event generator read from a channel and take fuel. Two more units than
-- there are events to be read are enough; the theorems prove that the loops then end. A long line
-- of Docker's log is read on one more unit of fuel than there are bytes left, and every part takes
-- at least one. All other loops are structural.
--
-- Not modelled: the interleavings of goroutines (each operation is one step), the sharing of a
-- slice between the ring buffer and its readers, the level guesser (the argument `guess` of the
-- reader), the loops of the manager that read channels, the rules' file and the configuration that
-- agents are sent, and the parts that are mostly I/O: the clients of Docker, Kubernetes and the
-- agents, the web server, authentication apart from the
-- roles, the cloud connection.
pub mod Auth
pub mod Common
pub mod Utils
pub mod Cache
pub mod Container
pub mod Docker
pub mod Notification
pub mod Tests
