-- ===== src/Response.antt =====
-- The response writers that wrap one another around the proxy.
pub mod Clean
pub mod Counting
pub mod Stats
pub mod Block
pub mod SendFile
pub mod SendData
pub mod ErrorPages
