-- ===== src/Container.antt =====
-- internal/container: log events and how they are read, grouped and parsed.
pub mod LogEvent
pub mod EventGenerator
pub mod Logfmt
pub mod Reader
