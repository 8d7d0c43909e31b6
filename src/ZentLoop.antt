-- ===== src/ZentLoop.antt =====
-- internal/zentloop: the bridge to ZentLoop.
pub mod Handler
pub mod Monitor
pub mod Guarded
