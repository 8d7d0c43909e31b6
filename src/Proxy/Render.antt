-- ===== src/Proxy/Render.antt =====
-- internal/proxy/manager.go: the text of the configuration, block by block.
pub mod Pieces
pub mod Access
pub mod Location
pub mod Server
pub mod Pools
pub mod Others
