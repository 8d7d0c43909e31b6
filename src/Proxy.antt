-- ===== src/Proxy.antt =====
-- internal/proxy/manager.go: what a host may be, and the nginx configuration made of it.
pub mod Names
pub mod Hosts
pub mod Capacity
pub mod Upstreams
pub mod Rules
pub mod Startup
pub mod Roots
pub mod Resolve
pub mod Render
