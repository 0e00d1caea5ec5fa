-- ===== src/Tests.antt =====
-- Runs on small inputs, and each theorem at an input that meets its conditions.
pub mod Samples
pub mod RingBuffers
pub mod Alerts
pub mod LogEvents
pub mod Queues
pub mod Engine
pub mod Logfmts
pub mod Readers
pub mod Caches
pub mod Engines
pub mod Handlers
pub mod Registries
pub mod Frames
pub mod Roles
