-- ===== src/Api.antt =====
-- internal/api/server.go: the handlers of the control plane.
pub mod State
pub mod Hosts
pub mod Auth
pub mod Providers
pub mod Update
pub mod ZentLoop
pub mod Items
