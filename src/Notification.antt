-- ===== src/Notification.antt =====
-- internal/notification: alert rules, their runtime state, and what an event does to them.
pub mod Time
pub mod Types
pub mod Rule
pub mod Platform
pub mod QuietHours
pub mod Fingerprint
pub mod Engine
pub mod QuietSummary
pub mod Modifiers
pub mod Sending
pub mod Retry
pub mod Sources
pub mod Processing
pub mod Compile
pub mod Registry
pub mod Flush
pub mod Subscription
pub mod Queue
pub mod Schedule
pub mod Drain
pub mod TtlCache
pub mod Watchdog
pub mod Cooldowns
pub mod Burst
pub mod Samples
pub mod Unique
