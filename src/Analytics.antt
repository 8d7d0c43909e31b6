-- ===== src/Analytics.antt =====
-- internal/analytics/tailer.go: the log of requests, read into the store.
pub mod Lines
pub mod Tailer
pub mod Reading
pub mod Settled
pub mod Exact
